-- ===== src/Sse/Utf8.antt =====
-- Python's incremental strict UTF-8 decoder, as `SseStreamParser` (map-business-backend/app/services/sse.py) uses it.
use map.Base.{
  ℕ, zero, suc, ◌+◌, ◌*◌, Bool, true, false, ◌&&◌, Option, none, some, List, [], ◌∷◌, ◌++◌, ◌==◌,
  leb, ltb, if◌then◌else◌,
}
use Prim.Native.Nat.{◌%◌}

-- What the decoder keeps between the bytes: nothing, or how many more bytes than one the character
-- wants, its bits so far and the bounds of its next byte.
pub data Pending : Type 0 where
  idle : Pending
  wants : ℕ → ℕ → ℕ → ℕ → Pending

-- The first byte of a character.
abbrev lead : ℕ → Option (List ℕ × Pending)
lead b =
    if ltb b 128
    then some (b ∷ [], idle)
    else if ltb b 194
    then none
    else if ltb b 224
    then some ([], wants 0 (b % 32) 128 191)
    else if b == 224
    then some ([], wants 1 0 160 191)
    else if b == 237
    then some ([], wants 1 13 128 159)
    else if ltb b 240
    then some ([], wants 1 (b % 16) 128 191)
    else if b == 240
    then some ([], wants 2 0 144 191)
    else if ltb b 244
    then some ([], wants 2 (b % 8) 128 191)
    else if b == 244
    then some ([], wants 2 4 128 143)
    else none

abbrev follow : ℕ → ℕ → List ℕ × Pending
follow zero bits = (bits ∷ [], idle)
follow (suc more) bits = ([], wants more bits 128 191)

unfoldable pub decode_byte : Pending → ℕ → Option (List ℕ × Pending)
decode_byte idle b = lead b
decode_byte (wants more bits low high) b =
    if leb low b && leb b high then some (follow more (bits * 64 + b % 64)) else none

abbrev pub and_then : List ℕ → Option (List ℕ × Pending) → Option (List ℕ × Pending)
and_then cs none = none
and_then cs (some (ds, s)) = some (cs ++ ds, s)

-- The bytes after one that was decoded.
abbrev pub emit :
    (Pending → Option (List ℕ × Pending)) → Option (List ℕ × Pending) → Option (List ℕ × Pending)
emit more none = none
emit more (some (cs, s)) = and_then cs (more s)

-- `decode(chunk)`; `none` is the UnicodeDecodeError.
unfoldable pub decode : Pending → List ℕ → Option (List ℕ × Pending)
unfolding decode_byte
decode s [] = some ([], s)
decode s (b ∷ bs) = emit (λ t. decode t bs) (decode_byte s b)

-- `decode(b"", final=True)`: whether no character is left incomplete.
unfoldable pub finish : Pending → Bool
finish idle = true
finish (wants more bits low high) = false
