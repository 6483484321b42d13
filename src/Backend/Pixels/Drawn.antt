-- ===== src/Backend/Pixels/Drawn.antt =====
-- What the pixel loop leaves on a panel of a width and a height.
use native.Mathlib.Nat.{
  div-add-mod', mul-add-div_right, mul-add-mod_self_right, div-eq_of_lt, mod-eq_of_lt,
  div-lt_iff_lt-mul,
}
use od_esphome.Base.{
  ℕ, zero, suc, ◌+◌, ◌-◌, ◌*◌, ◌/◌, ◌%◌, ◌^◌, ◌≤◌, ◌<◌, ◌≡◌, ◌∙◌, ap, sym, ◌==◌, ◌&&◌, Bool, List,
  arith, leb, ltb, if◌then◌else◌, inl, inr, Bool-cases, u32,
}
use od_esphome.Protocol.Frame.{byte_at}
use od_esphome.Backend.Driver.{Driver}
use od_esphome.Backend.Pixels.{is_white, draw_bits, draw_bytes}

-- What is relied on of `draw_pixel_at`: a pixel on the panel that is drawn has its colour, and the
-- others keep theirs.
pub record Screen {P : Type 0} (driver : Driver P) (width height : ℕ) : Type 0 where
  pub pixel : P → ℕ → ℕ → Bool
  pub drawn :
      (p : P) (x y x' y' : ℕ) (white : Bool)
      → x < width
      → y < height
      → x' < width
      → y' < height
      → pixel (driver.draw_pixel_at p x y white) x' y'
        ≡ (if x == x' && y == y' then white else pixel p x' y')

-- The colour that byte `bits` gives column `x`.
abbrev pub bit_colour : ℕ → ℕ → Bool
bit_colour bits x = is_white bits (7 - x % 8)

abbrev pub byte_position : ℕ → ℕ → ℕ → ℕ
byte_position stride x y = y * stride + x / 8

-- The byte of a pixel, in a row of `stride` bytes.
position-div :
    (stride y c : ℕ)
    → c < stride
    → ((y * stride + c) / stride ≡ y) × ((y * stride + c) % stride ≡ c)
position-div stride y c h = (
  mul-add-div_right (omega arith) y c ∙ omega (arith, div-eq_of_lt h),
  mul-add-mod_self_right y stride c ∙ mod-eq_of_lt h,
)

position-split : (stride b y c : ℕ) → b / stride ≡ y → b % stride ≡ c → y * stride + c ≡ b
position-split stride b y c q r = rw (← q, ← r) (div-add-mod' b stride)

module _ {P : Type 0} (driver : Driver P) (width height : ℕ) (s : Screen driver width height) where
  draw_bits-pixel :
      (k : ℕ) (p : P) (bits x0 y x' y' : ℕ)
      → k ≤ 8
      → y < height
      → x' < width
      → y' < height
      → s.pixel (draw_bits driver p bits x0 y width k) x' y' ≡ (
          if y == y' && leb (x0 + (8 - k)) x' && ltb x' (x0 + 8)
          then is_white bits (7 - (x' - x0))
          else s.pixel p x' y')
  unfolding draw_bits
  draw_bits-pixel zero p bits x0 y x' y' k8 hy hx' hy' = ground arith
  draw_bits-pixel (suc k) p bits x0 y x' y' k8 hy hx' hy' =
      let x = x0 + (7 - k) in
      let p' = driver.draw_pixel_at p x y (is_white bits k) in
      let rest = draw_bits-pixel k p' bits x0 y x' y' (omega arith) hy hx' hy' in
      let agree : x' ≡ x → is_white bits (7 - (x' - x0)) ≡ is_white bits k =
        λ e. ap (is_white bits) (omega (arith, e)) in
      elim (Bool-cases (leb width x)) [
        | inl past ↦ rw past (ground arith)
        | inr inside ↦ rw inside (
            ground (
              arith,
              rest,
              agree,
              s.drawn p x y x' y' (is_white bits k) (ground (arith, inside)) hy hx' hy',
            ))
      ]

  -- One byte of the frame.
  draw_byte-pixel :
      (p : P) (bits stride b x y : ℕ)
      → b < stride * height
      → x < width
      → y < height
      → width ≤ stride * 8
      → s.pixel (draw_bits driver p bits (b % stride * 8) (b / stride) width 8) x y
        ≡ (if byte_position stride x y == b then bit_colour bits x else s.pixel p x y)
  draw_byte-pixel p bits stride b x y hb hx hy wide =
      let row_in : b / stride < height =
        (div-lt_iff_lt-mul {k = stride} {x = b} {y = height} (omega arith)).1 (omega (arith, hb)) in
      let column : x / 8 < stride = omega arith in
      let drawn =
        draw_bits-pixel 8 p bits (b % stride * 8) (b / stride) x y (omega arith) row_in hx hy in
      elim (Bool-cases (byte_position stride x y == b)) [
        | inl here ↦
            let at : byte_position stride x y ≡ b = ground (arith, here) in
            let split = position-div stride y (x / 8) column in
            let q : b / stride ≡ y = ap (λ m. m / stride) (sym at) ∙ split.0 in
            let r : b % stride ≡ x / 8 = ap (λ m. m % stride) (sym at) ∙ split.1 in
            let agree : is_white bits (7 - (x - b % stride * 8)) ≡ bit_colour bits x =
              ap (is_white bits) (omega (arith, r)) in
            rw here (ground (arith, drawn, q, r, agree))
        | inr there ↦
            let apart = position-split stride b y (x / 8) in
            rw there (ground (arith, drawn, apart, there))
      ]

  -- After `n` bytes from number `i` on, the pixels of those bytes have the colours of their bits,
  -- and the others are as before.
  pub draw_bytes-pixel :
      (n : ℕ) (p : P) (stride offset i x y : ℕ) (bytes : List ℕ)
      → offset + i + n ≤ stride * height
      → stride * height < 2 ^ 32
      → x < width
      → y < height
      → width ≤ stride * 8
      → let b = byte_position stride x y in
        s.pixel (draw_bytes driver p stride width offset bytes i n) x y ≡ (
          if leb (offset + i) b && ltb b (offset + i + n)
          then bit_colour (byte_at bytes (b - offset)) x
          else s.pixel p x y)
  unfolding draw_bytes
  draw_bytes-pixel zero p stride offset i x y bytes fits small hx hy wide = ground arith
  draw_bytes-pixel (suc n) p stride offset i x y bytes fits small hx hy wide =
      let at = byte_position stride x y in
      let b = u32 (offset + i) in
      let exact : b ≡ offset + i = omega arith in
      let p' = draw_bits driver p (byte_at bytes i) (b % stride * 8) (b / stride) width 8 in
      let first = draw_byte-pixel p (byte_at bytes i) stride b x y (omega arith) hx hy wide in
      let rest =
        draw_bytes-pixel n p' stride offset (i + 1) x y bytes (omega arith) small hx hy wide in
      let agree : at ≡ offset + i
          → bit_colour (byte_at bytes i) x ≡ bit_colour (byte_at bytes (at - offset)) x =
        λ e. ap (λ m. bit_colour (byte_at bytes m) x) (omega (arith, e)) in
      rest ∙ ground (arith, first, agree, exact)
