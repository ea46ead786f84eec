-- ===== src/Api/Decoded.antt =====
-- The query string of a listing against a reader of its own: it carries the values and nothing else.
use walletd_go.Base.{
  ℕ, ◌<◌, false, Option, none, some, List, [], ◌∷◌, ◌++◌, append_assoc, All, if◌then◌else◌, Bytes,
  beq, codes, ◌≡◌, ◌≢◌, refl, ap, ◌∙◌, arith,
}
use walletd_go.Webhook.Split.{split, split_first, split_none}
use walletd_go.Api.Values.{Values, query_escape, encode}
use walletd_go.Api.Escaped.{unescape, unescape-query_escape, IsPart, query_escape-IsPart}

-- A pair in front of what was read.
unfoldable pub paired : Option Bytes → Option Bytes → Option Values → Option Values
paired (some k) (some v) (some q) = some ((k, v) ∷ q)
paired (some k) (some v) none = none
paired (some k) none q = none
paired none v q = none

-- One part has a key and a value.
unfoldable pub read_part : List Bytes → Option Values → Option Values
unfolding paired
read_part [] q = none
read_part (k ∷ []) q = none
read_part (k ∷ v ∷ []) q = paired (unescape k) (unescape v) q
read_part (k ∷ v ∷ w ∷ more) q = none

unfoldable pub read_parts : List Bytes → Option Values
unfolding read_part
read_parts [] = some []
read_parts (p ∷ ps) = let rest = read_parts ps in read_part (split b'=' p) rest

-- The reader of a query string: `key=value` parts between ampersands, and nothing for an empty one.
unfoldable pub read_query : Bytes → Option Values
unfolding read_parts
read_query s = if beq s [] then some [] else read_parts (split b'&' s)

-- Texts of bytes.
abbrev pub IsBytes : Bytes → Type 0
IsBytes = All (λ c. c < 256)

abbrev pub HasBytes : Values → Type 0
HasBytes = All (λ (kv : Bytes × Bytes). IsBytes kv.0 × IsBytes kv.1)

no_ampersand : (s : Bytes) → IsPart s → All (λ c. c ≢ b'&') s
no_ampersand [] h = tt
no_ampersand (c ∷ s) ((ampersand, equals), h) = (ampersand, no_ampersand s h)

no_equals : (s : Bytes) → IsPart s → All (λ c. c ≢ b'=') s
no_equals [] h = tt
no_equals (c ∷ s) ((ampersand, equals), h) = (equals, no_equals s h)

-- A part: a key and a value.
part : Bytes → Bytes → Bytes
part k v = query_escape k ++ (b'=' ∷ query_escape v)

All-part :
    (s t : Bytes)
    → All (λ c. c ≢ b'&') s
    → All (λ c. c ≢ b'&') t
    → All (λ c. c ≢ b'&') (s ++ (b'=' ∷ t))
All-part [] t hs ht = (omega arith, ht)
All-part (c ∷ s) t (hc, hs) ht = (hc, All-part s t hs ht)

read_part_lem :
    (k v : Bytes) (q : Values)
    → IsBytes k
    → IsBytes v
    → read_part (split b'=' (part k v)) (some q) ≡ some ((k, v) ∷ q)
unfolding read_part part paired
read_part_lem k v q hk hv =
    let pieces : split b'=' (query_escape k ++ (b'=' ∷ query_escape v))
        ≡ query_escape k ∷ query_escape v ∷ [] =
      split_first b'=' (query_escape k) (query_escape v)
        (no_equals (query_escape k) (query_escape-IsPart k hk))
      ∙ ap (λ l. query_escape k ∷ l)
          (split_none b'=' (query_escape v)
            (no_equals (query_escape v) (query_escape-IsPart v hv))) in
    rw (pieces, unescape-query_escape k hk, unescape-query_escape v hv) refl

part-no_ampersand : (k v : Bytes) → IsBytes k → IsBytes v → All (λ c. c ≢ b'&') (part k v)
unfolding part
part-no_ampersand k v hk hv =
    All-part (query_escape k) (query_escape v)
      (no_ampersand (query_escape k) (query_escape-IsPart k hk))
      (no_ampersand (query_escape v) (query_escape-IsPart v hv))

encode_one : (k v : Bytes) → encode ((k, v) ∷ []) ≡ part k v
unfolding encode part
encode_one k v = append_assoc (query_escape k) (codes "=") (query_escape v)

encode_more :
    (k v k' v' : Bytes) (q : Values)
    → encode ((k, v) ∷ (k', v') ∷ q) ≡ part k v ++ (b'&' ∷ encode ((k', v') ∷ q))
unfolding encode part
encode_more k v k' v' q =
    append_assoc (query_escape k ++ codes "=" ++ query_escape v) (codes "&") (encode ((k', v') ∷ q))
    ∙ ap (λ l. l ++ (b'&' ∷ encode ((k', v') ∷ q)))
        (append_assoc (query_escape k) (codes "=") (query_escape v))

-- The parts of a query that is not empty.
read_parts-encode :
    (kv : Bytes × Bytes) (q : Values)
    → HasBytes (kv ∷ q)
    → read_parts (split b'&' (encode (kv ∷ q))) ≡ some (kv ∷ q)
unfolding read_parts
read_parts-encode (k, v) [] ((hk, hv), h) =
    ap (λ t. read_parts (split b'&' t)) (encode_one k v)
    ∙ ap read_parts (split_none b'&' (part k v) (part-no_ampersand k v hk hv))
    ∙ read_part_lem k v [] hk hv
read_parts-encode (k, v) ((k', v') ∷ q) ((hk, hv), h) =
    ap (λ t. read_parts (split b'&' t)) (encode_more k v k' v' q)
    ∙ ap read_parts
        (split_first b'&' (part k v) (encode ((k', v') ∷ q)) (part-no_ampersand k v hk hv))
    ∙ ap (read_part (split b'=' (part k v))) (read_parts-encode (k', v') q h)
    ∙ read_part_lem k v ((k', v') ∷ q) hk hv

append-nonempty : (c : ℕ) (s t : Bytes) → beq (s ++ (c ∷ t)) [] ≡ false
unfolding beq
append-nonempty c [] t = refl
append-nonempty c (d ∷ s) t = refl

encode-nonempty : (kv : Bytes × Bytes) (q : Values) → beq (encode (kv ∷ q)) [] ≡ false
unfolding part
encode-nonempty (k, v) [] =
    ap (λ s. beq s []) (encode_one k v) ∙ append-nonempty b'=' (query_escape k) (query_escape v)
encode-nonempty (k, v) ((k', v') ∷ q) =
    ap (λ s. beq s []) (encode_more k v k' v' q)
    ∙ append-nonempty b'&' (part k v) (encode ((k', v') ∷ q))

-- Values of bytes are read back from their encoding.
pub read_query-encode : (q : Values) → HasBytes q → read_query (encode q) ≡ some q
unfolding read_query
read_query-encode [] h = unfold encode beq in refl
read_query-encode (kv ∷ q) h = rw (encode-nonempty kv q) (read_parts-encode kv q h)
