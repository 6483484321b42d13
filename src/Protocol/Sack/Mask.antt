-- ===== src/Protocol/Sack/Mask.antt =====
-- What a SACK says: the bits of `build_inorder_ack_mask`, and the mask read back from its bytes.
use native.Mathlib.Nat.{pow-suc, div-div-eq-div-mul, mul_comm, one-le-pow}
use od_esphome.Protocol.Frame.{byte_at, get_u32_le}
use od_esphome.Protocol.Sack.{encode_pipe_sack, build_inorder_ack_mask}
use od_esphome.Base.{
  ℕ, Bool, ◌/◌, ◌^◌, true, false, suc, ◌-◌, ◌≡◌, arith, ◌%◌, ap, ltb, ◌∙◌, sym, zero, ◌+◌, ◌<◌,
  length, ◌&&◌, refl,
}

abbrev bit : Bool → ℕ
bit true = 1
bit false = 0

div-pow-suc : (x i : ℕ) → x / 2 ^ suc i ≡ x / 2 / 2 ^ i
div-pow-suc x i =
    ap (λ k. x / k) (pow-suc 2 i ∙ mul_comm (2 ^ i) 2) ∙ sym (div-div-eq-div-mul x 2 (2 ^ i))

half-ones : (k : ℕ) → (2 ^ suc k - 1) / 2 ≡ 2 ^ k - 1
half-ones k = omega (arith, pow-suc 2 k, one-le-pow k 2 (omega arith))

zero-div-pow : (i : ℕ) → 0 / 2 ^ i ≡ 0
zero-div-pow i = grind (arith, one-le-pow i 2)

-- Bit `i` of `k` ones.
ones-bit : (k i : ℕ) → (2 ^ k - 1) / 2 ^ i % 2 ≡ bit (ltb i k)
ones-bit zero i = rw (zero-div-pow i) (ground arith)
ones-bit (suc k) zero = ground (arith, pow-suc 2 k, one-le-pow k 2)
ones-bit (suc k) (suc i) =
    rw (div-pow-suc (2 ^ suc k - 1) i, half-ones k, ones-bit k i) (ap bit (ltb-suc i k))
  where
    ltb-suc : (a b : ℕ) → ltb a b ≡ ltb (suc a) (suc b)
    ltb-suc a b = ground arith

-- With `n` packets accepted in order, bit `i` of the mask is set exactly when the chunk `i + 1`
-- before the newest one exists, so when `i + 1 < n`; there are 32 bits.
pub build_inorder_ack_mask-bit :
    (n i : ℕ) → build_inorder_ack_mask n / 2 ^ i % 2 ≡ bit (ltb (i + 1) n && ltb i 32)
unfolding build_inorder_ack_mask
build_inorder_ack_mask-bit n i = ground (arith, zero-div-pow i, ones-bit (n - 1) i, ones-bit 32 i)

-- The four mask bytes of a SACK give the mask back, and the byte before them is the newest sequence
-- number.
pub encode_pipe_sack-decode :
    (highest mask : ℕ)
    → mask < 2 ^ 32
    → let r = encode_pipe_sack highest mask in
      (length r ≡ 7) × (byte_at r 2 ≡ highest) × (get_u32_le r 3 ≡ mask)
unfolding encode_pipe_sack
encode_pipe_sack-decode highest mask h = (refl, refl, omega arith)
