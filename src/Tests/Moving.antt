-- ===== src/Tests/Moving.antt =====
-- A conversion of points, whose first answer is lost, and one that is answered with 503.
use walletd_go.Base.{
  ◌≤◌, List, none, some, [], ◌++◌, length, All, pos, Bytes, codes, ◌≡◌, ◌⊎◌, refl,
}
use walletd_go.Errors.Chain.{Err}
use walletd_go.Errors.Result.{Result, ok, err}
use walletd_go.Idempotency.{validate}
use walletd_go.Types.Money.{Conversion, ConvertPointsJsonBody}
use walletd_go.Text.Space.{trim_slashes}
use walletd_go.Client.Entry.{body_of}
use walletd_go.Client.Recording.{Exchange, recording_env, recording}
use walletd_go.Api.Calls.{Json}
use walletd_go.Api.Keyed.{Carries}
use walletd_go.Api.Movements.{
  conversion, perform, IsPerformed, perform_deduplicated, perform-Carries,
}
use walletd_go.Tests.Fixtures.{response, world, client, client_of, letter}
use walletd_go.Tests.Counting.{losing, losing_world, effects, losing-Deduplicates}

abbrev points_of : ConvertPointsJsonBody
points_of = record { points = pos 40; user_id = 5 }

abbrev converted : Conversion
converted = record {
  cash_credited = pos 400;
  id = 9;
  minor_per_point = pos 10;
  points = pos 40;
  user_id = 5;
}

abbrev conversion_json : Json Conversion
conversion_json = record { zero_value = converted; unmarshal = λ body. ok converted }

abbrev marshal : ConvertPointsJsonBody → Result Bytes
marshal req = ok (codes "{}")

perform_deduplicated_example :
    ((perform losing_world
        (client_of losing)
        letter
        (conversion points_of)
        conversion_json
        marshal
        (codes "order-1042")
        0).1
      ≤ 1)
    × IsPerformed
        (perform losing_world
          (client_of losing)
          letter
          (conversion points_of)
          conversion_json
          marshal
          (codes "order-1042")
          0).0
        (perform losing_world
          (client_of losing)
          letter
          (conversion points_of)
          conversion_json
          marshal
          (codes "order-1042")
          0).1
perform_deduplicated_example =
    perform_deduplicated losing_world (client_of losing) letter (conversion points_of)
      conversion_json marshal (codes "order-1042") effects 0 losing-Deduplicates refl

perform-Carries_example :
    ((e : Err) × (validate (codes "order-1042") ≡ some e)
      × (perform
            (recording_env (world (response 503 [])))
            (recording (client (response 503 [])))
            letter
            (conversion points_of)
            conversion_json
            marshal
            (codes "order-1042")
            (tt, [])
          ≡ (err e, (tt, []))))
    ⊎ ((validate (codes "order-1042") ≡ none)
        × (sent : List Exchange) × ((perform
              (recording_env (world (response 503 [])))
              (recording (client (response 503 [])))
              letter
              (conversion points_of)
              conversion_json
              marshal
              (codes "order-1042")
              (tt, [])).1.1
            ≡ [] ++ sent)
        × (length sent ≤ 4)
        × All (Carries (codes "/v1/rewards/convert") (codes "order-1042") (some (codes "{}"))) sent)
unfolding body_of trim_slashes
perform-Carries_example =
    perform-Carries (world (response 503 [])) (client (response 503 [])) letter
      (conversion points_of) conversion_json marshal (codes "order-1042") (tt, [])
