-- ===== src/Api/Answered.antt =====
-- The methods that fetch, in any world: what they return is in the body of an answer to their request.
use walletd_go.Base.{◌≤◌, ◌<◌, Option, none, some, [], Bytes, ◌≡◌, ◌⊎◌, inl, inr, refl, ap, ◌∙◌}
use walletd_go.Errors.Chain.{Err}
use walletd_go.Errors.Result.{Result, ok, err}
use walletd_go.Http.Message.{Response}
use walletd_go.Http.Message
use walletd_go.Client.World.{Env}
use walletd_go.Client.New.{Client}
use walletd_go.Client.Do.{Call, request, do_call}
use walletd_go.Client.Entry.{body_of}
use walletd_go.Client.Answers.{IsAnswer, do_call-IsAnswer}
use walletd_go.Api.Values.{Values}
use walletd_go.Api.Calls.{Json, answered, call_of, fetched}

module _ {W V : Type 0} (env : Env W) (c : Client W) (path : Bytes) (query : Values)
    (json : Json V) where
  -- The call behind a GET with a query.
  abbrev pub fetch_call : Call V
  fetch_call = call_of Message.get path [] query none json

  -- An answer to a request of the call is a complete 2xx, and its body decodes to a value.
  abbrev pub Holds : W → Bytes → Response → V → Type 0
  Holds w t resp v =
      ((c.http.exchange c.http.check_redirect (request env c fetch_call none t) w).0 ≡ ok resp)
      × (200 ≤ resp.status)
      × (resp.status < 300)
      × (resp.body_error ≡ none)
      × (json.unmarshal resp.body ≡ ok v)

  IsAnswer-Holds :
      (v : Option V)
      → IsAnswer env c fetch_call none (ok v)
      → (u : V) × (w : W) × (t : Bytes) × (resp : Response) × (answered json.zero_value (ok v)
          ≡ ok u)
        × Holds w t resp u
  unfolding answered
  IsAnswer-Holds none (t, w, (resp, answer, low, high, output)) = absurd cc
  IsAnswer-Holds (some u) (t, w, (resp, decode, answer, low, high, whole, output, decoded)) =
      let same : json.unmarshal ≡ decode = cc in
      (u, w, t, resp, refl, (answer, low, high, whole, ap (λ f. f resp.body) same ∙ decoded))

  answered-Holds :
      (w : W) (r : Result (Option V))
      → (do_call env c fetch_call w).0 ≡ r
      → ((u : V) × (w' : W) × (t : Bytes) × (resp : Response) × (answered json.zero_value r ≡ ok u)
          × Holds w' t resp u)
        ⊎ ((e : Err) × (answered json.zero_value r ≡ err e))
  unfolding answered body_of
  answered-Holds w (err e) called = inr (e, refl)
  answered-Holds w (ok v) called =
      inl (IsAnswer-Holds v (do_call-IsAnswer env c fetch_call w v called))

  -- Whatever the world does, a fetch fails, or returns the value in a complete 2xx answer to one of its
  -- requests.
  pub fetched-Holds :
      (w : W)
      → ((u : V) × (w' : W) × (t : Bytes) × (resp : Response) × ((fetched env c path query json w).0
            ≡ ok u)
          × Holds w' t resp u)
        ⊎ ((e : Err) × ((fetched env c path query json w).0 ≡ err e))
  unfolding fetched
  fetched-Holds w = answered-Holds w _ refl
