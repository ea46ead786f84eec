-- ===== src/Client/Valid.antt =====
-- What New promises of the client that it makes, whatever the options.
use walletd_go.Base.{
  Bool, true, false, ◌||◌, Option, none, some, List, [], ◌∷◌, if◌then◌else◌, pos, ◌≤ℤ◌, ltb_ℤ,
  Bytes, beq, ◌≡◌, ◌≢◌, refl, Bool-cases, inl, inr, subst, arith, nonempty,
}
use walletd_go.Errors.Chain.{Err}
use walletd_go.Errors.Result.{Result, ok, err}
use walletd_go.Text.Space.{trim_slashes}
use walletd_go.Client.World.{Env, Credential, Url, use_last_response}
use walletd_go.Client.New.{
  Client, ClientOption, with_http_client, with_retry_policy, without_retries, with_user_agent,
  apply_option, apply_options, initial_client, refuse_redirects, new_at, new,
}

-- A client that tries at least once, at the base URL that it was made with.
abbrev pub IsReady : {W : Type 0} → Url → Client W → Type 0
IsReady u c = (pos 1 ≤ℤ c.retry.max_attempts) × (c.base ≡ u)

-- What a guarded success says.
made :
    {A : Type 0} (bad : Bool) (e : Err) (x y : A)
    → (if bad then err e else ok x) ≡ ok y
    → (bad ≡ false) × (x ≡ y)
made true e x y h = absurd cc
made false e x y h = (refl, cc)

module _ {W : Type 0} where
  apply_option-IsReady :
      (u : Url) (c : Client W) (opt : ClientOption W) → IsReady u c → IsReady u (apply_option c opt)
  unfolding apply_option
  apply_option-IsReady u c (with_http_client none) h = h
  apply_option-IsReady u c (with_http_client (some client)) h = h
  apply_option-IsReady u c (with_retry_policy p) (attempts, base) =
      elim (Bool-cases (ltb_ℤ p.max_attempts (pos 1))) [
        | inl low ↦ rw low (omega arith, base)
        | inr fine ↦ rw fine (ground arith, base)
      ]
  apply_option-IsReady u c without_retries (attempts, base) = (omega arith, base)
  apply_option-IsReady u c (with_user_agent ua) h = elim (Bool-cases (beq ua [])) [
    | inl e ↦ rw e h
    | inr e ↦ rw e h
  ]

  apply_options-IsReady :
      (u : Url) (c : Client W) (opts : List (ClientOption W))
      → IsReady u c
      → IsReady u (apply_options c opts)
  unfolding apply_options
  apply_options-IsReady u c [] h = h
  apply_options-IsReady u c (opt ∷ opts) h =
      apply_options-IsReady u (apply_option c opt) opts (apply_option-IsReady u c opt h)

  -- What New promises.
  abbrev pub IsSafe : Url → Client W → Type 0
  IsSafe u c =
      (c.http.check_redirect ≡ use_last_response)
      × (pos 1 ≤ℤ c.retry.max_attempts)
      × (c.base ≡ u)
      × (u.scheme ≢ [])
      × (u.host ≢ [])

  new_at-IsSafe :
      (env : Env W) (cred : Credential W) (opts : List (ClientOption W)) (r : Result Url)
      (c : Client W)
      → new_at env cred opts r ≡ ok c
      → (u : Url) × (r ≡ ok u) × IsSafe u c
  unfolding new_at
  new_at-IsSafe env cred opts (err e) c h = absurd cc
  new_at-IsSafe env cred opts (ok u) c h =
      let ready = apply_options-IsReady u (initial_client env u cred) opts (omega arith, refl) in
      let (fine, same) = made (beq u.scheme [] || beq u.host []) _ _ c h in
      let safe : IsSafe u (refuse_redirects (apply_options (initial_client env u cred) opts)) = (
        refl,
        ready.0,
        ready.1,
        nonempty u.scheme (ground arith),
        nonempty u.host (ground arith),
      ) in
      (u, refl, subst (IsSafe u) same safe)

-- A client that New returns, under any list of options, is at the URL that its base parses to, which has a
-- scheme and a host; it never follows a redirect, not even with an HTTP client of the caller that would;
-- and it tries every call at least once. Without a credential there is none.
pub new-IsSafe :
    {W : Type 0} (env : Env W) (base_url : Bytes) (cred : Option (Credential W))
    (opts : List (ClientOption W)) (c : Client W)
    → new env base_url cred opts ≡ ok c
    → (u : Url) × (env.parse_url (trim_slashes base_url) ≡ ok u) × IsSafe u c × (cred ≢ none)
unfolding new
new-IsSafe env base_url none opts c h = absurd cc
new-IsSafe env base_url (some cred) opts c h =
    let (u, parsed, safe) =
      new_at-IsSafe env cred opts (env.parse_url (trim_slashes base_url)) c h in
    (u, parsed, safe, λ e. absurd cc)
