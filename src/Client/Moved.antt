-- ===== src/Client/Moved.antt =====
-- How the waits of the loop move the state of the world: what they leave as it is.
use walletd_go.Base.{ℕ, ℤ, pos, leb_ℤ, ◌<ℤ◌, ◌≤ℤ◌, ◌≡◌, refl, ◌∙◌, ◌⊎◌, inl, inr, Bool-cases}
use walletd_go.Http.Message.{Response}
use walletd_go.Client.World.{Env, drain_close}
use walletd_go.Client.Policy.{RetryPolicy, backoff, jitter, backoff_step, wait}

-- `log` reads something out of the state, such as the exchanges so far; it is quiet if timers, random
-- numbers and the bodies of answers leave it.
pub record IsQuiet {S L : Type 0} (env : Env S) (log : S → L) : Type 0 where
  pub sleep : (d : ℤ) (s : S) → log (env.sleep d s).1 ≡ log s
  pub rand : (n : ℕ) (s : S) → log (env.rand n s).1 ≡ log s
  pub discard : (n : ℕ) (resp : Response) (s : S) → log (env.discard n resp s) ≡ log s
  pub close : (resp : Response) (s : S) → log (env.close resp s) ≡ log s

-- How the loop moves a state from an attempt on. While no body is open, it moves it by nothing, by the draw
-- of the backoff, or by both the draw and a wait, which attempts are left for and whose duration is that of
-- the backoff or within MaxDelay. While the body of an answer is open, it first drains and closes it, or
-- only closes it.
pub record IsMoved {S : Type 0} (env : Env S) (policy : RetryPolicy)
    (Opened : Response → ℕ → S → S → Type 0) (Moved : ℕ → S → S → Type 0) : Type 0 where
  pub stays : (attempt : ℕ) (s : S) → Moved attempt s s
  pub backs_off : (attempt : ℕ) (s : S) → Moved attempt s (backoff env policy attempt s).1
  pub waits :
      (attempt : ℕ) (s : S) (d : ℤ)
      → pos attempt <ℤ policy.max_attempts
      → (d ≡ (backoff env policy attempt s).0) ⊎ (d ≤ℤ policy.max_delay)
      → Moved attempt s (wait env d (backoff env policy attempt s).1).1
  pub drains :
      (resp : Response) (attempt : ℕ) (s s' : S)
      → Moved attempt (drain_close env resp s) s'
      → Opened resp attempt s s'
  pub closes :
      (resp : Response) (attempt : ℕ) (s s' : S)
      → Moved attempt (env.close resp s) s'
      → Opened resp attempt s s'

-- The backoff reads its random number and does nothing else.
pub backoff-quiet :
    {S L : Type 0} (env : Env S) (log : S → L)
    → ((n : ℕ) (s : S) → log (env.rand n s).1 ≡ log s)
    → (policy : RetryPolicy) (attempt : ℕ) (s : S) → log (backoff env policy attempt s).1 ≡ log s
unfolding backoff jitter
backoff-quiet env log rand policy attempt s = elim (Bool-cases (leb_ℤ policy.base_delay (pos 0))) [
  | inl e ↦ rw e
  | inr e ↦ elim (Bool-cases (leb_ℤ (backoff_step policy attempt) (pos 0))) [
    | inl z ↦ rw (e, z)
    | inr z ↦ rw (e, z) (rand _ s)
  ]
]

wait-quiet :
    {S L : Type 0} (env : Env S) (log : S → L)
    → IsQuiet env log
    → (d : ℤ) (s : S) → log (wait env d s).1 ≡ log s
unfolding wait
wait-quiet env log quiet d s = elim (Bool-cases (leb_ℤ d (pos 0))) [
  | inl e ↦ rw e
  | inr e ↦ rw e (quiet.sleep d s)
]

abbrev pub Same : {S L : Type 0} → (S → L) → ℕ → S → S → Type 0
Same log attempt s s' = log s' ≡ log s

pub Same-IsMoved :
    {S L : Type 0} (env : Env S) (policy : RetryPolicy) (log : S → L)
    → IsQuiet env log
    → IsMoved env policy (λ resp. Same log) (Same log)
unfolding drain_close
Same-IsMoved env policy log quiet = record {
  stays = λ attempt s. refl;
  backs_off = backoff-quiet env log quiet.rand policy;
  waits = λ attempt s d left bound.
      wait-quiet env log quiet d _ ∙ backoff-quiet env log quiet.rand policy attempt s;
  drains = λ resp attempt s s' same. same ∙ quiet.close resp _ ∙ quiet.discard _ resp s;
  closes = λ resp attempt s s' same. same ∙ quiet.close resp s;
}
