-- ===== src/Errors/Matching.antt =====
-- What a problem matches under `errors.Is`.
use walletd_go.Base.{
  true, false, Option, none, some, [], ◌∷◌, ◌≡◌, ◌↔◌, ◌⊎◌, inl, inr, ap, ◌∙◌, or_true, or_right,
  eq_of_some-eq, Bool-cases,
}
use walletd_go.Errors.Sentinel.{Sentinel, same, same→eq, same_refl}
use walletd_go.Errors.Code.{lookup, code_sentinels}
use walletd_go.Errors.Problem.{Problem, status_sentinel, unwrap, by_code, by_class, is_new}
use walletd_go.Errors.Chain.{Err, is, contains}

-- The two ways in which a problem matches a sentinel: by its code and by its status.
abbrev pub MatchesCode : Problem → Sentinel → Type 0
MatchesCode p s = lookup p.code code_sentinels ≡ some s

abbrev pub MatchesStatus : Problem → Sentinel → Type 0
MatchesStatus p s = status_sentinel p.status ≡ some s

same→some : (c s : Sentinel) → same c s ≡ true → some c ≡ some s
same→some c s h = ap some (same→eq c s h)

some→same : (c s : Sentinel) → some c ≡ some s → same c s ≡ true
some→same c s e = let p : c ≡ s = eq_of_some-eq e in rw p (same_refl s)

contains-one : (c s : Sentinel) → (contains (c ∷ []) s ≡ true) ↔ (some c ≡ some s)
unfolding contains
contains-one c s = (
  λ h. same→some c s (elim (or_true (same c s) false h) [ inl e ↦ e | inr e ↦ cc ]),
  λ e. rw (some→same c s e),
)

contains-two :
    (c d s : Sentinel) → (contains (c ∷ d ∷ []) s ≡ true) ↔ ((some c ≡ some s) ⊎ (some d ≡ some s))
unfolding contains
contains-two c d s = (
  λ h. elim (or_true (same c s) (contains (d ∷ []) s) h) [
    | inl e ↦ inl (same→some c s e)
    | inr e ↦ inr ((contains-one d s).0 e)
  ],
  λ h. elim h [
    | inl e ↦ rw (some→same c s e)
    | inr e ↦ or_right (same c s) ((contains-one d s).1 e)
  ],
)

none-ne-some : (s : Sentinel) → none ≡ some s → ⊥
none-ne-some s e = cc

matches_cases :
    (code class : Option Sentinel) (s : Sentinel)
    → (contains (by_class class (by_code code)) s ≡ true) ↔ ((code ≡ some s) ⊎ (class ≡ some s))
unfolding contains by_class by_code is_new
matches_cases none none s =
    (λ h. cc, λ h. elim h [ inl e ↦ absurd (none-ne-some s e) | inr e ↦ absurd (none-ne-some s e) ])
matches_cases none (some d) s = (
  λ h. inr ((contains-one d s).0 h),
  λ h. elim h [ inl e ↦ absurd (none-ne-some s e) | inr e ↦ (contains-one d s).1 e ],
)
matches_cases (some c) none s = (
  λ h. inl ((contains-one c s).0 h),
  λ h. elim h [ inl e ↦ (contains-one c s).1 e | inr e ↦ absurd (none-ne-some s e) ],
)
matches_cases (some c) (some d) s = elim (Bool-cases (same c d)) [
  | inl e ↦ (
    λ h. inl ((contains-one c s).0 (rw e at h)),
    λ h. rw e ((contains-one c s).1 (elim h [ inl p ↦ p | inr p ↦ same→some c d e ∙ p ])),
  )
  | inr e ↦ (λ h. (contains-two c d s).0 (rw e at h), λ h. rw e ((contains-two c d s).1 h))
]

-- For every problem and every sentinel, `errors.Is` of the problem holds exactly when the sentinel
-- is the one of its code in the table or the one of its status class: the test in `Unwrap` that
-- skips a class already present loses no match.
pub is-problem :
    (p : Problem) (s : Sentinel)
    → (is (Err.problem p) s ≡ true) ↔ (MatchesCode p s ⊎ MatchesStatus p s)
unfolding is unwrap
is-problem p s = matches_cases (lookup p.code code_sentinels) (status_sentinel p.status) s
