-- ===== src/Api/Values.antt =====
-- `url.Values` where every key has one value, in the order of the keys, and how it is encoded.
use walletd_go.Base.{
  ℕ, ◌+◌, ◌/◌, ◌%◌, Bool, true, false, ◌&&◌, ◌||◌, Option, none, some, List, [], ◌∷◌, ◌++◌, ltb,
  leb, ◌==◌, if◌then◌else◌, Bytes, beq, codes, ◌≡◌, refl,
}

abbrev pub Values : Type 0
Values = List (Bytes × Bytes)

-- `s < t` on Go strings
unfoldable pub before : Bytes → Bytes → Bool
before s [] = false
before [] (d ∷ t) = true
before (c ∷ s) (d ∷ t) = ltb c d || (c == d && before s t)

-- `q.Set(key, value)`
unfoldable pub set : Bytes → Bytes → Values → Values
unfolding before
set key value [] = (key, value) ∷ []
set key value ((k, v) ∷ q) =
    let rest = set key value q in
    if beq k key
    then (key, value) ∷ q
    else if before key k
    then (key, value) ∷ (k, v) ∷ q
    else (k, v) ∷ rest

-- `q.Get(key)`; `none` where the key is missing.
unfoldable pub get : Bytes → Values → Option Bytes
get key [] = none
get key ((k, v) ∷ q) = let rest = get key q in if beq k key then some v else rest

-- A byte that `url.QueryEscape` keeps.
unfoldable pub unreserved : ℕ → Bool
unreserved c =
    (leb b'a' c && leb c b'z')
    || (leb b'A' c && leb c b'Z')
    || (leb b'0' c && leb c b'9')
    || c == b'-'
    || c == b'_'
    || c == b'.'
    || c == b'~'

unfoldable pub upper_hex : ℕ → ℕ
upper_hex n = if ltb n 10 then b'0' + n else 55 + n

unfoldable pub query_escape : Bytes → Bytes
unfolding unreserved upper_hex
query_escape [] = []
query_escape (c ∷ s) =
    let rest = query_escape s in
    if unreserved c
    then c ∷ rest
    else if c == b' '
    then b'+' ∷ rest
    else b'%' ∷ upper_hex (c / 16) ∷ upper_hex (c % 16) ∷ rest

-- `q.Encode()`
unfoldable pub encode : Values → Bytes
unfolding query_escape
encode [] = []
encode ((k, v) ∷ []) = query_escape k ++ codes "=" ++ query_escape v
encode ((k, v) ∷ (k', v') ∷ q) =
    query_escape k ++ codes "=" ++ query_escape v ++ codes "&" ++ encode ((k', v') ∷ q)

encodes :
    encode (set (codes "limit") (codes "50") (set (codes "query") (codes "a&b c") []))
    ≡ codes "limit=50&query=a%26b+c"
unfolding encode set beq
encodes = refl
