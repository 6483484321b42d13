-- ===== src/Protocol/Crc.antt =====
-- protocol.cpp `crc16_ccitt_false`, bit by bit.
use Prim.Native.Nat.{bit_xor}
use od_esphome.Base.{ℕ, zero, suc, ◌*◌, ◌/◌, ◌%◌, List, [], ◌∷◌, ◌==◌, if◌then◌else◌, u16, ◌^◌}

-- One round of the inner loop: `crc & 0x8000` is bit 15.
abbrev pub crc_bit : ℕ → ℕ
crc_bit crc = if crc / 2 ^ 15 % 2 == 1 then u16 (bit_xor (crc * 2) 0x1021) else u16 (crc * 2)

abbrev pub crc_bits : ℕ → ℕ → ℕ
crc_bits zero crc = crc
crc_bits (suc n) crc = crc_bits n (crc_bit crc)

unfoldable pub crc_from : ℕ → List ℕ → ℕ
crc_from crc [] = crc
crc_from crc (x ∷ xs) = crc_from (crc_bits 8 (bit_xor crc (x * 256))) xs

unfoldable pub crc16_ccitt_false : List ℕ → ℕ
unfolding crc_from
crc16_ccitt_false bytes = crc_from 0xffff bytes
