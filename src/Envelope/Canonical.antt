-- ===== src/Envelope/Canonical.antt =====
-- `_canonical_json_bytes` and `validate_payload_size` of map-business-backend/app/runtime/event_envelope.py, on the code points of the text.
use map.Base.{
  Bool, ◌&&◌, ◌||◌, ℕ, zero, suc, ◌+◌, String, true, false, Option, none, some, List, [], ◌∷◌, ◌++◌,
  ltb, leb, ◌==◌, if◌then◌else◌,
}
use map.Envelope.{
  ℤ, pos, negsuc, Mark, digit, point, exponent, plus, minus, Decimal, end, mark, Key, str_key,
  scalar_key, object_key, Value, none_value, bool, int, finite, non_finite, str, surrogate_str,
  list, tuple, dict, proxy, object, Items, no_items, item, Entries, no_entries, entry, deep_thaw,
}
use Prim.Native.Char.{code}
use Prim.Native.Nat.{◌/◌, ◌%◌}

abbrev pub Text : Type 0
Text = List ℕ

unfoldable pub codes : String → Text
codes String.[] = []
codes (String.◌∷◌ c s) = code c ∷ codes s

-- Decimal digits, the last one first on the fuel's side; `suc n` is fuel for `n`.
unfoldable pub digits_from : ℕ → ℕ → Text → Text
digits_from zero n acc = acc
digits_from (suc fuel) n acc =
    let more = digits_from fuel (n / 10) ((48 + n % 10) ∷ acc) in
    if ltb n 10 then (48 + n % 10) ∷ acc else more

unfoldable pub show_nat : ℕ → Text
unfolding digits_from
show_nat n = digits_from (suc n) n []

unfoldable pub show_int : ℤ → Text
unfolding show_nat
show_int (pos n) = show_nat n
show_int (negsuc n) = 45 ∷ show_nat (suc n)

abbrev pub hex_digit : ℕ → ℕ
hex_digit n = if ltb n 10 then 48 + n else 87 + n

-- `json.dumps` with `ensure_ascii=False` escapes the quote, the backslash and what lies below 32.
abbrev pub escape : ℕ → Text
escape c =
    if c == 34
    then 92 ∷ 34 ∷ []
    else if c == 92
    then 92 ∷ 92 ∷ []
    else if c == 10
    then 92 ∷ 110 ∷ []
    else if c == 13
    then 92 ∷ 114 ∷ []
    else if c == 9
    then 92 ∷ 116 ∷ []
    else if c == 12
    then 92 ∷ 102 ∷ []
    else if c == 8
    then 92 ∷ 98 ∷ []
    else if ltb c 32
    then 92 ∷ 117 ∷ 48 ∷ 48 ∷ hex_digit (c / 16) ∷ hex_digit (c % 16) ∷ []
    else c ∷ []

unfoldable pub escape_all : Text → Text
escape_all [] = []
escape_all (c ∷ cs) = escape c ++ escape_all cs

unfoldable pub quoted : String → Text
unfolding escape_all codes
quoted s = 34 ∷ escape_all (codes s) ++ 34 ∷ []

abbrev pub show_mark : Mark → ℕ
show_mark (digit d) = 48 + d % 10
show_mark point = 46
show_mark exponent = 101
show_mark plus = 43
show_mark minus = 45

unfoldable pub show_decimal : Decimal → Text
show_decimal end = []
show_decimal (mark m r) = show_mark m ∷ show_decimal r

unfoldable pub dump_key : Key → Option Text
unfolding quoted
dump_key (str_key s) = some (quoted s)
dump_key (scalar_key t s) = some (quoted s)
dump_key (object_key t) = none

abbrev pub both : Text → Option Text → Option Text → Option Text
both sep (some a) (some b) = some (a ++ (sep ++ b))
both sep _ _ = none

abbrev pub bracket : ℕ → ℕ → Option Text → Option Text
bracket a b (some t) = some (a ∷ t ++ b ∷ [])
bracket a b none = none

-- `json.dumps(value, ensure_ascii=False, allow_nan=False, separators=(",", ":"))`; `none` is the
-- TypeError or the ValueError.
unfoldable mutual
  unfolding quoted escape_all show_int show_decimal dump_key

  pub dumps : Value → Option Text
  dumps none_value = some (110 ∷ 117 ∷ 108 ∷ 108 ∷ [])
  dumps (bool true) = some (116 ∷ 114 ∷ 117 ∷ 101 ∷ [])
  dumps (bool false) = some (102 ∷ 97 ∷ 108 ∷ 115 ∷ 101 ∷ [])
  dumps (int n) = some (show_int n)
  dumps (finite r) = some (show_decimal r)
  dumps non_finite = none
  dumps (str s) = some (quoted s)
  dumps (surrogate_str t) = some (34 ∷ escape_all t ++ 34 ∷ [])
  dumps (list xs) = bracket 91 93 (dump_items xs)
  dumps (tuple xs) = bracket 91 93 (dump_items xs)
  dumps (dict es) = bracket 123 125 (dump_entries es)
  dumps (proxy es) = none
  dumps (object t) = none

  pub dump_items : Items → Option Text
  dump_items no_items = some []
  dump_items (item v no_items) = dumps v
  dump_items (item v (item w xs)) = both (44 ∷ []) (dumps v) (dump_items (item w xs))

  pub dump_entries : Entries → Option Text
  dump_entries no_entries = some []
  dump_entries (entry k v no_entries) = both (58 ∷ []) (dump_key k) (dumps v)
  dump_entries (entry k v (entry l w es)) =
      both (44 ∷ []) (both (58 ∷ []) (dump_key k) (dumps v)) (dump_entries (entry l w es))

-- The bytes of a code point in UTF-8, and of a text.
abbrev pub utf8_bytes : ℕ → ℕ
utf8_bytes c = if ltb c 128 then 1 else if ltb c 2048 then 2 else if ltb c 65536 then 3 else 4

unfoldable pub utf8_size : Text → ℕ
utf8_size [] = 0
utf8_size (c ∷ cs) = utf8_bytes c + utf8_size cs

-- `_canonical_json_bytes`, as the text that is then encoded.
unfoldable pub canonical_json : Value → Option Text
unfolding dumps deep_thaw
canonical_json v = dumps (deep_thaw v)

abbrev pub inline_payload_max_bytes : ℕ
inline_payload_max_bytes = 65536

-- Whether a text holds a surrogate, for which `text.encode("utf-8")` raises UnicodeEncodeError.
unfoldable pub has_surrogate : Text → Bool
has_surrogate [] = false
has_surrogate (c ∷ cs) = (leb 55296 c && leb c 57343) || has_surrogate cs

-- What a validator does: it returns, or it raises. `AttributeError` and `UnicodeEncodeError` are Python's own.
pub data Raised : Type 0 where
  event_envelope_error : String → Raised
  attribute_error : Raised
  unicode_encode_error : Raised

abbrev pub Check : Type 0
Check = Option Raised

abbrev pub sized : Option Text → Check
sized none = some (event_envelope_error "PAYLOAD_NOT_SERIALIZABLE")
sized (some t) =
    if has_surrogate t
    then some unicode_encode_error
    else if leb (utf8_size t) inline_payload_max_bytes
    then none
    else some (event_envelope_error "ARTIFACT_PAYLOAD_TOO_LARGE")

-- `validate_payload_size` with its default limit.
unfoldable pub validate_payload_size : Value → Check
unfolding canonical_json utf8_size has_surrogate
validate_payload_size v = sized (canonical_json v)
