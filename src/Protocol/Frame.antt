-- ===== src/Protocol/Frame.antt =====
-- protocol.cpp, the helpers and `parse_frame`. A pointer into a buffer is the list of the bytes
-- from it on, `none` where it is null. The byte fields of one word do not overlap, so the `|` of
-- shifted bytes is a sum.
use od_esphome.Base.{
  ℕ, ◌+◌, ◌-◌, ◌*◌, ◌/◌, Option, none, some, List, [], ◌∷◌, ltb, if◌then◌else◌, get_or, drop, u8,
}

-- The byte `p[i]`.
abbrev pub byte_at : List ℕ → ℕ → ℕ
byte_at p i = get_or p i 0

-- The two bytes that `put_u16_le` writes.
abbrev pub put_u16_le : ℕ → List ℕ
put_u16_le v = u8 v ∷ u8 (v / 256) ∷ []

abbrev pub get_u16_le : List ℕ → ℕ → ℕ
get_u16_le p i = byte_at p i + byte_at p (i + 1) * 256

abbrev pub get_u32_le : List ℕ → ℕ → ℕ
get_u32_le p i =
    byte_at p i + byte_at p (i + 1) * 256 + byte_at p (i + 2) * 65536 + byte_at p (i + 3) * 16777216

pub record Frame : Type 0 where
  pub opcode : ℕ  -- uint16_t
  pub payload : Option (List ℕ)
  pub payload_len : ℕ  -- size_t

unfoldable pub parse_frame : Option (List ℕ) → ℕ → Option Frame
parse_frame none len = none
parse_frame (some buf) len =
    if ltb len 2
    then none
    else some (record {
      opcode = byte_at buf 0 * 256 + byte_at buf 1;
      payload = if ltb 2 len then some (drop 2 buf) else none;
      payload_len = len - 2;
    })
