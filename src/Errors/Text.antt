-- ===== src/Errors/Text.antt =====
-- (p *Problem) Error of errors.go: the line for a log.
use Prim.Native.String
use walletd_go.Base.{
  ℕ, zero, suc, ◌/◌, ◌%◌, String, Option, none, some, List, [], ◌∷◌, if◌then◌else◌, ltb, str_eq,
  get_elem?, ◌≡◌, refl,
}
use walletd_go.Errors.Problem.{Problem, message}

abbrev digits : List String
digits = "0" ∷ "1" ∷ "2" ∷ "3" ∷ "4" ∷ "5" ∷ "6" ∷ "7" ∷ "8" ∷ "9" ∷ []

text_or_empty : Option String → String
text_or_empty none = ""
text_or_empty (some s) = s

-- `%d` on a number that is not negative, in front of what follows. The fuel is the number itself.
decimal_from : ℕ → ℕ → String → String
unfolding text_or_empty
decimal_from zero n rest = String.◌++◌ (text_or_empty (get_elem? digits (n % 10))) rest
decimal_from (suc fuel) n rest =
    let here = String.◌++◌ (text_or_empty (get_elem? digits (n % 10))) rest in
    let more = decimal_from fuel (n / 10) here in if ltb n 10 then here else more

unfoldable pub decimal : ℕ → String → String
unfolding decimal_from
decimal n rest = decimal_from n n rest

-- (p *Problem) Error
unfoldable pub error_text : Problem → String
unfolding decimal
error_text p =
    let detail = if str_eq (message p) "" then p.title else message p in
    String.◌++◌ "walletd: " (
      String.◌++◌ detail
        (String.◌++◌ " (" (decimal p.status (String.◌++◌ " " (String.◌++◌ p.code ")")))))

error_text_lem :
    error_text (record {
      code = "user_not_found";
      detail = none;
      status = 404;
      title = "Not Found";
      type = none;
    })
    ≡ "walletd: Not Found (404 user_not_found)"
unfolding error_text message
error_text_lem = refl
