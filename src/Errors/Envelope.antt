-- ===== src/Errors/Envelope.antt =====
-- What `decodeProblem` guarantees of every error response, whatever its body.
use walletd_go.Base.{
  Bytes, true, Option, none, some, ◌≡◌, refl, ◌≢◌, ◌↔◌, inl, inr, arith, eq_iff, ◌∙◌, ap,
}
use walletd_go.Errors.Sentinel.{Sentinel}
use walletd_go.Errors.Code.{lookup, code_sentinels}
use walletd_go.Errors.Problem.{Problem, message, message-ne-empty, status_sentinel}
use walletd_go.Errors.Chain.{Err, is}
use walletd_go.Errors.Matching.{is-problem}
use walletd_go.Errors.Decode.{with_title, limited, or_empty, decode_problem}
use walletd_go.Http.Message.{Response}
use walletd_go.Http.Status.{status_text}

with_title-ne-empty :
    (resp : Response) (p : Problem) → resp.status_line ≢ "" → (with_title resp p).title ≢ ""
unfolding with_title
with_title-ne-empty resp p h =
    ground (arith, eq_iff p.title "", eq_iff (status_text resp.status) "")

with_title-code : (resp : Response) (p : Problem) → (with_title resp p).code ≡ p.code
unfolding with_title
with_title-code resp p = ground arith

empty_code : (s : Sentinel) → lookup "" code_sentinels ≡ some s → ⊥
unfolding lookup
empty_code s e = cc

module _ (problem_json : Bytes → Option Problem) (resp : Response) where
  -- The decoded problem has the status on the wire, never the one in the envelope, and keeps the code
  -- of an envelope that could be decoded; one that could not leaves the empty code.
  pub decode_problem_lem :
      ((decode_problem problem_json resp).status ≡ resp.status)
      × ((decode_problem problem_json resp).code
          ≡ (or_empty (problem_json (limited resp.body))).code)
  unfolding decode_problem
  decode_problem_lem = (refl, with_title-code resp _)

  -- If the response has a status line, as every HTTP response does, then the decoded problem has a
  -- title and a message that are not empty, whatever the body holds.
  pub decode_problem-message :
      resp.status_line ≢ ""
      → ((decode_problem problem_json resp).title ≢ "")
        × (message (decode_problem problem_json resp) ≢ "")
  unfolding decode_problem
  decode_problem-message h =
      let titled = with_title-ne-empty resp (or_empty (problem_json (limited resp.body))) h in
      (titled, message-ne-empty _ titled)

  -- A body that is no problem+json leaves a problem that matches the class of the wire status, if
  -- that has one, and no other sentinel.
  pub decode_problem-undecodable :
      (s : Sentinel)
      → problem_json (limited resp.body) ≡ none
      → (is (Err.problem (decode_problem problem_json resp)) s ≡ true)
        ↔ (status_sentinel resp.status ≡ some s)
  unfolding or_empty
  decode_problem-undecodable s h =
      let p = decode_problem problem_json resp in
      let no_code : p.code ≡ "" = decode_problem_lem.1 ∙ ap (λ o. (or_empty o).code) h in
      let status : p.status ≡ resp.status = decode_problem_lem.0 in
      (
        λ m. elim ((is-problem p s).0 m) [
          | inl e ↦ absurd (empty_code s (rw no_code at e))
          | inr e ↦ rw status at e
        ],
        λ e. (is-problem p s).1 (inr (rw status e)),
      )
