-- ===== src/Transport/Fifo.antt =====
-- The abstract queue: a list, oldest first, that refuses an entry at its limit.
use od_esphome.Base.{
  ℕ, Bool, true, false, Option, none, some, List, [], ◌∷◌, ◌++◌, ltb, if◌then◌else◌, length,
}

module _ {ℓ} {A : Type ℓ} where
  unfoldable pub offer : ℕ → List A → A → Bool × List A
  offer limit q a = if ltb (length q) limit then (true, q ++ (a ∷ [])) else (false, q)

  unfoldable pub poll : List A → Option A × List A
  poll [] = (none, [])
  poll (a ∷ q) = (some a, q)
