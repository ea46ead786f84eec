-- ===== src/Errors/Table.antt =====
-- The table of problem codes: no two codes share a sentinel, and which of its sentinels are classes.
use walletd_go.Base.{
  ℕ, String, Bool, true, false, not, ◌&&◌, ◌||◌, none, some, List, [], ◌∷◌, ◌≡◌, refl, sym, ◌∙◌,
  ◌<◌, ◌≢◌, ◌↔◌, ◌⊎◌, inl, inr, str_eq, arith, Bool-cases, or_true, and_true, eq_iff, eq_of_some-eq,
}
use walletd_go.Errors.Sentinel.{Sentinel}
use walletd_go.Errors.Code.{lookup, code_sentinels}
use walletd_go.Errors.Problem.{Problem, status_sentinel}
use walletd_go.Errors.Chain.{Err, is}
use walletd_go.Errors.Matching.{is-problem}

-- A test of every entry of a table holds of what a lookup finds.
module _ {ℓ} {V : Type ℓ} (test : String → V → Bool) where
  all_entries : List (String × V) → Bool
  all_entries [] = true
  all_entries ((k, v) ∷ m) = test k v && all_entries m

  all_entries-lookup :
      (k : String) (v : V) (m : List (String × V))
      → all_entries m ≡ true
      → lookup k m ≡ some v
      → test k v ≡ true
  unfolding all_entries lookup
  all_entries-lookup k v [] h e = cc
  all_entries-lookup k v ((j, w) ∷ m) h e =
      let (here, below) = and_true (test j w) (all_entries m) h in
      elim (Bool-cases (str_eq j k)) [
        | inl found ↦
            let w_v : w ≡ v = eq_of_some-eq (rw found at e) in
            let j_k : j ≡ k = (eq_iff j k).0 found in rw (← w_v, ← j_k) here
        | inr other ↦ all_entries-lookup k v m below (rw other at e)
      ]

-- The documented code of a sentinel, the inverse of the table.
code_name : Sentinel → String
code_name Sentinel.unauthenticated = "unauthenticated"
code_name Sentinel.unknown_tenant = "unknown_tenant"
code_name Sentinel.tenant_suspended = "tenant_suspended"
code_name Sentinel.insufficient_scope = "insufficient_scope"
code_name Sentinel.forbidden = "forbidden"
code_name Sentinel.user_token_required = "user_token_required"
code_name Sentinel.consumer_token_required = "consumer_token_required"
code_name Sentinel.platform_scope_only = "platform_scope_only"
code_name Sentinel.not_client_member = "not_client_member"
code_name Sentinel.invalid_request = "invalid_request"
code_name Sentinel.self_transfer = "self_transfer"
code_name Sentinel.idempotency_key_reuse = "idempotency_key_reuse"
code_name Sentinel.user_exists = "user_exists"
code_name Sentinel.merchant_exists = "merchant_exists"
code_name Sentinel.rule_exists = "rule_exists"
code_name Sentinel.insufficient_funds = "insufficient_funds"
code_name Sentinel.insufficient_points = "insufficient_points"
code_name Sentinel.tier_limit_exceeded = "tier_limit_exceeded"
code_name Sentinel.no_conversion_rule = "no_conversion_rule"
code_name Sentinel.nothing_to_pay = "nothing_to_pay"
code_name Sentinel.not_an_item = "not_an_item"
code_name Sentinel.not_a_plan = "not_a_plan"
code_name Sentinel.user_not_business = "user_not_business"
code_name Sentinel.credit_limit_below_balance = "credit_limit_below_balance"
code_name Sentinel.user_not_found = "user_not_found"
code_name Sentinel.sender_not_found = "sender_not_found"
code_name Sentinel.recipient_not_found = "recipient_not_found"
code_name Sentinel.payer_not_found = "payer_not_found"
code_name Sentinel.merchant_not_found = "merchant_not_found"
code_name Sentinel.payment_not_found = "payment_not_found"
code_name Sentinel.topup_not_found = "topup_not_found"
code_name Sentinel.subscription_not_found = "subscription_not_found"
code_name Sentinel.client_not_found = "client_not_found"
code_name Sentinel.offering_not_found = "offering_not_found"
code_name Sentinel.rule_not_found = "rule_not_found"
code_name Sentinel.event_not_found = "event_not_found"
code_name Sentinel.tenant_not_found = "tenant_not_found"
code_name Sentinel.rate_limited = "rate_limited"
code_name Sentinel.bulkhead_full = "bulkhead_full"
code_name Sentinel.gateway_unreachable = "gateway_unreachable"
code_name Sentinel.auth_unavailable = "auth_unavailable"
code_name Sentinel.reporting_timeout = "reporting_timeout"
code_name Sentinel.org_provisioning_unavailable = "org_provisioning_unavailable"
code_name Sentinel.internal = "internal_error"
code_name _ = ""

table_inverse : all_entries (λ code s. str_eq (code_name s) code) code_sentinels ≡ true
unfolding all_entries code_name
table_inverse = refl

-- Two codes of the table `codeSentinels` that lead to one sentinel are the same code, so a sentinel
-- tells its documented code apart from every other.
pub lookup-injective :
    (code code' : String) (s : Sentinel)
    → lookup code code_sentinels ≡ some s
    → lookup code' code_sentinels ≡ some s
    → code ≡ code'
lookup-injective code code' s e e' =
    let name : (c : String) → lookup c code_sentinels ≡ some s → code_name s ≡ c = λ c h.
      (eq_iff (code_name s) c).0
        (all_entries-lookup (λ c t. str_eq (code_name t) c) c s code_sentinels table_inverse h) in
    sym (name code e) ∙ name code' e'

-- The status-class sentinels.
unfoldable pub is_class : Sentinel → Bool
is_class Sentinel.bad_request = true
is_class Sentinel.unauthorized = true
is_class Sentinel.forbidden = true
is_class Sentinel.not_found = true
is_class Sentinel.conflict = true
is_class Sentinel.unprocessable = true
is_class Sentinel.rate_limited = true
is_class Sentinel.server = true
is_class _ = false

-- The two codes whose sentinel is itself a class.
is_class_code : String → Bool
is_class_code code = str_eq code "forbidden" || str_eq code "rate_limited"

table_classes : all_entries (λ code s. not (is_class s) || is_class_code code) code_sentinels ≡ true
unfolding all_entries is_class is_class_code
table_classes = refl

lookup-class :
    (code : String) (s : Sentinel)
    → lookup code code_sentinels ≡ some s
    → is_class s ≡ true
    → (code ≡ "forbidden") ⊎ (code ≡ "rate_limited")
unfolding is_class_code
lookup-class code s e h =
    let fits =
      all_entries-lookup (λ c t. not (is_class t) || is_class_code c) code s code_sentinels
        table_classes e in
    elim (or_true (str_eq code "forbidden") (str_eq code "rate_limited") (rw h at fits)) [
      | inl q ↦ inl ((eq_iff code "forbidden").0 q)
      | inr q ↦ inr ((eq_iff code "rate_limited").0 q)
    ]

-- A problem whose code is neither `forbidden` nor `rate_limited` matches, of the status-class
-- sentinels, exactly the one that `statusSentinel` gives for its status, and none where it gives none.
is-problem_class :
    (p : Problem) (s : Sentinel)
    → p.code ≢ "forbidden"
    → p.code ≢ "rate_limited"
    → is_class s ≡ true
    → (is (Err.problem p) s ≡ true) ↔ (status_sentinel p.status ≡ some s)
is-problem_class p s f r h = (
  λ m. elim ((is-problem p s).0 m) [
    | inl by_code ↦ elim (lookup-class p.code s by_code h) [
      | inl q ↦ absurd (f q)
      | inr q ↦ absurd (r q)
    ]
    | inr by_status ↦ by_status
  ],
  λ e. (is-problem p s).1 (inr e),
)

-- The statuses below 500 that have a class.
abbrev pub HasClass : ℕ → Type 0
HasClass n = (n ≡ 400) ⊎ (n ≡ 401) ⊎ (n ≡ 403) ⊎ (n ≡ 404) ⊎ (n ≡ 409) ⊎ (n ≡ 422) ⊎ (n ≡ 429)

status_sentinel-none : (n : ℕ) → n < 500 → ¬ HasClass n → status_sentinel n ≡ none
unfolding status_sentinel
status_sentinel-none n h c = ground arith

-- A problem whose code is not in the table, with a status below 500 that is none of the seven with a
-- class, matches no sentinel at all, although the source says that each matches exactly one class.
pub is-problem_unclassified :
    (p : Problem) (s : Sentinel)
    → lookup p.code code_sentinels ≡ none
    → p.status < 500
    → ¬ HasClass p.status
    → is (Err.problem p) s ≡ false
is-problem_unclassified p s code h c = elim (Bool-cases (is (Err.problem p) s)) [
  | inl m ↦ elim ((is-problem p s).0 m) [
    | inl e ↦ cc
    | inr e ↦ let none_here = status_sentinel-none p.status h c in cc
  ]
  | inr m ↦ m
]
