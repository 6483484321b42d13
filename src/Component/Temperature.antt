-- ===== src/Component/Temperature.antt =====
-- opendisplay.cpp `setup_chip_temperature_` and `read_chip_temperature_`: the die temperature that
-- goes into the advertisement. `T` stands for float. The answers of ESP-IDF are arguments, and so
-- is the scale of the original ESP32's reading, which is arithmetic on floats.
use od_esphome.Base.{
  ℕ, List, Option, Bool, if◌then◌else◌, ◌∷◌, ◌≡◌, ◌==◌, not, some, [], none, ◌&&◌, false, true,
  refl, arith, ap, ◌∙◌,
}

pub record Chip (T : Type 0) : Type 0 where
  pub last_chip_temp_c : T
  pub tsens : Bool  -- `tsens_ != nullptr`

-- `setup_chip_temperature_`: whether the install and the enabling answer ESP_OK.
unfoldable pub setup_chip_temperature : {T : Type 0} → Chip T → Bool → Bool → Chip T
setup_chip_temperature chip installed enabled =
    if not installed
    then record chip { tsens = false }
    else if not enabled
    then record chip { tsens = false }
    else record chip { tsens = true }

-- What one reading meets: the raw byte of the original ESP32; or the answer of the sensor of a later
-- chip, the value and whether it is finite; or a build for a chip that has neither.
pub data Reading (T : Type 0) : Type 0 where
  raw : ℕ → Reading T
  sensor : (ok : Bool) (t : T) (is_finite : Bool) → Reading T
  absent : Reading T

-- `read_chip_temperature_`. The result is `last_chip_temp_c_`.
unfoldable pub read_chip_temperature : {T : Type 0} → (ℕ → T) → Chip T → Reading T → T × Chip T
read_chip_temperature scale chip (Reading.raw n) =
    if n == 128
    then (chip.last_chip_temp_c, chip)
    else (scale n, record chip { last_chip_temp_c = scale n })
read_chip_temperature scale chip (Reading.sensor ok t is_finite) =
    if chip.tsens && ok && is_finite
    then (t, record chip { last_chip_temp_c = t })
    else (chip.last_chip_temp_c, chip)
read_chip_temperature scale chip Reading.absent = (chip.last_chip_temp_c, chip)

-- What a reading gives where it succeeds.
abbrev good : {T : Type 0} → (ℕ → T) → Bool → Reading T → Option T
good scale tsens (Reading.raw n) = if n == 128 then none else some (scale n)
good scale tsens (Reading.sensor ok t is_finite) = if tsens && ok && is_finite then some t else none
good scale tsens Reading.absent = none

abbrev or_last : {T : Type 0} → Option T → T → T
or_last none t = t
or_last (some new) t = new

abbrev read_all : {T : Type 0} → (ℕ → T) → Chip T → List (Reading T) → Chip T
read_all scale chip [] = chip
read_all scale chip (r ∷ rs) = read_all scale (read_chip_temperature scale chip r).1 rs

abbrev last_good : {T : Type 0} → (ℕ → T) → Bool → T → List (Reading T) → T
last_good scale tsens t [] = t
last_good scale tsens t (r ∷ rs) = last_good scale tsens (or_last (good scale tsens r) t) rs

read_chip_temperature-good :
    {T : Type 0} (scale : ℕ → T) (r : Reading T) (chip : Chip T)
    → (read_chip_temperature scale chip r).1
      ≡ record chip { last_chip_temp_c = or_last (good scale chip.tsens r) chip.last_chip_temp_c }
unfolding read_chip_temperature
read_chip_temperature-good scale (Reading.raw n) chip = ground arith
read_chip_temperature-good scale (Reading.sensor ok t is_finite) chip = ground arith
read_chip_temperature-good scale Reading.absent chip = refl

-- After any readings the component holds the last one that succeeded, or what it held before.
pub read_all-lem :
    {T : Type 0} (scale : ℕ → T) (rs : List (Reading T)) (chip : Chip T)
    → (read_all scale chip rs).last_chip_temp_c
      ≡ last_good scale chip.tsens chip.last_chip_temp_c rs
read_all-lem scale [] chip = refl
read_all-lem {T = T} scale (r ∷ rs) chip =
    let next : Chip T = record chip {
      last_chip_temp_c = or_last (good scale chip.tsens r) chip.last_chip_temp_c;
    } in
    ap (λ (k : Chip T). (read_all scale k rs).last_chip_temp_c)
      (read_chip_temperature-good scale r chip)
    ∙ read_all-lem scale rs next
