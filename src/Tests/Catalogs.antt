-- ===== src/Tests/Catalogs.antt =====
-- A page of a catalog, asked for from a server that answers 503.
use walletd_go.Base.{◌≤◌, none, List, [], ◌++◌, length, All, pos, codes, ◌≡◌, refl, arith}
use walletd_go.Errors.Result.{err}
use walletd_go.Errors.Chain.{Err}
use walletd_go.Uuid.{Uuid}
use walletd_go.Types.Commerce.{OfferingPage}
use walletd_go.Client.Recording.{Exchange, recording_env, recording}
use walletd_go.Api.Calls.{Json}
use walletd_go.Api.Commerce.{list_client_offerings}
use walletd_go.Api.Decoded.{IsBytes}
use walletd_go.Api.Sent.{Asks, list_client_offerings_sent}
use walletd_go.Tests.Fixtures.{response, world, client, filter, letter}

abbrev page_json : Json OfferingPage
page_json = record {
  zero_value = record { offerings = []; next_cursor = none };
  unmarshal = λ body. err Err.plain;
}

letter-IsBytes : (id : Uuid) → IsBytes (letter id)
letter-IsBytes id = (omega arith, tt)

active-IsBytes : IsBytes (codes "active")
active-IsBytes =
    (omega arith, (omega arith, (omega arith, (omega arith, (omega arith, (omega arith, tt))))))

list_client_offerings_sent_example :
    (sent : List Exchange) × ((list_client_offerings
        (recording_env (world (response 503 [])))
        (recording (client (response 503 [])))
        letter
        page_json
        3
        filter
        9
        (pos 50)
        (tt, [])).1.1
      ≡ [] ++ sent)
    × (length sent ≤ 4)
    × All
        (Asks (world (response 503 [])) (client (response 503 [])) letter 3 filter 9 (pos 50))
        sent
list_client_offerings_sent_example =
    list_client_offerings_sent (world (response 503 [])) (client (response 503 [])) letter page_json
      3 filter 9 (pos 50) (tt, []) refl letter-IsBytes active-IsBytes tt
