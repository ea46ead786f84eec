-- ===== src/Tests/Refusing.antt =====
-- A GET that is answered with 404.
use walletd_go.Base.{none, some, [], codes, beq, ◌≡◌, refl, inl, arith}
use walletd_go.Errors.Problem.{Problem}
use walletd_go.Errors.Chain.{Err, as_problem}
use walletd_go.Errors.Decode.{decode_problem}
use walletd_go.Errors.Result.{ok, err}
use walletd_go.Client.World.{token}
use walletd_go.Client.Do.{do_call}
use walletd_go.Client.Refused.{IsFinal, do_call-refused}
use walletd_go.Tests.Fixtures.{response, world, client, reading}

not_found-IsFinal : IsFinal 404
not_found-IsFinal = (
  omega arith,
  omega arith,
  (λ e. absurd (omega arith)),
  (λ e. absurd (omega arith)),
  (λ e. absurd (omega arith)),
  (λ e. absurd (omega arith)),
  (λ e. absurd (omega arith)),
)

token-key : token (client (response 404 [])).cred tt ≡ (ok (codes "key"), tt)
unfolding token beq
token-key = refl

do_call-refused_example :
    (e : Err) × (p : Problem) × (do_call
        (world (response 404 []))
        (client (response 404 []))
        reading
        tt
      ≡ (err e, tt))
    × (as_problem e ≡ some p)
    × (p ≡ decode_problem (λ body. none) (response 404 []))
    × (p.status ≡ 404)
do_call-refused_example =
    do_call-refused (world (response 404 [])) (client (response 404 [])) reading (response 404 [])
      tt tt (codes "key") not_found-IsFinal (λ e h. absurd cc) (inl refl) refl token-key refl
