-- ===== src/Transport/Window.antt =====
-- The entries of a ring, oldest first: `n` of them from position `t` on, at the positions modulo
-- the number of slots.
use native.Mathlib.Nat.{mod-eq_of_lt}
use od_esphome.Base.{
  ℕ, zero, suc, ◌+◌, ◌%◌, ◌<◌, ◌≡◌, ◌≢◌, refl, ap, ap₂, ◌∙◌, List, [], ◌∷◌, ◌++◌, length, get_or,
  set, get_or-set_ne, arith, sym, get_or-set_self,
}

module _ {ℓ} {A : Type ℓ} (d : A) (cap : ℕ) where
  abbrev pub window : List A → ℕ → ℕ → List A
  window slots t zero = []
  window slots t (suc n) = get_or slots (t % cap) d ∷ window slots (suc t) n

  pub length-window : (slots : List A) (t n : ℕ) → length (window slots t n) ≡ n
  length-window slots t zero = refl
  length-window slots t (suc n) = ap suc (length-window slots (suc t) n)

  -- A write elsewhere does not show.
  pub window-set_ne :
      (slots : List A) (t n i : ℕ) (v : A)
      → ((k : ℕ) → k < n → i ≢ (t + k) % cap)
      → window (set slots i v) t n ≡ window slots t n
  window-set_ne slots t zero i v away = refl
  window-set_ne slots t (suc n) i v away =
      ap₂ ◌∷◌
        (get_or-set_ne slots i (t % cap) v d
          (λ e. away 0 (omega arith) (e ∙ ap (λ k. k % cap) (omega arith))))
        (window-set_ne slots (suc t) n i v
          (λ k h e. away (suc k) (omega arith) (e ∙ ap (λ k. k % cap) (omega arith))))

  -- The last entry stands at the end.
  pub window-suc :
      (slots : List A) (t n : ℕ)
      → window slots t (suc n) ≡ window slots t n ++ (get_or slots ((t + n) % cap) d ∷ [])
  window-suc slots t zero = ap (λ k. get_or slots (k % cap) d ∷ []) (omega arith)
  window-suc slots t (suc n) = ap (◌∷◌ (get_or slots (t % cap) d)) (
      window-suc slots (suc t) n
      ∙ ap (λ k. window slots (suc t) n ++ (get_or slots (k % cap) d ∷ [])) (omega arith))

  -- A start position counts modulo the number of slots.
  pub window-mod :
      (slots : List A) (s t n : ℕ)
      → ((k : ℕ) → (s + k) % cap ≡ (t + k) % cap)
      → window slots s n ≡ window slots t n
  window-mod slots s t zero same = refl
  window-mod slots s t (suc n) same =
      ap₂ ◌∷◌
        (ap (λ k. get_or slots k d)
          (ap (λ k. k % cap) (omega arith) ∙ same 0 ∙ ap (λ k. k % cap) (omega arith)))
        (window-mod slots (suc s) (suc t) n
          (λ k. ap (λ k. k % cap) (omega arith) ∙ same (suc k) ∙ ap (λ k. k % cap) (omega arith)))

  -- A write just past the last entry appends it.
  pub window-push :
      (slots : List A) (t n i : ℕ) (v : A)
      → i < length slots
      → i ≡ (t + n) % cap
      → ((k : ℕ) → k < n → i ≢ (t + k) % cap)
      → window (set slots i v) t (suc n) ≡ window slots t n ++ (v ∷ [])
  window-push slots t n i v inside here away =
      window-suc (set slots i v) t n
      ∙ ap₂ (λ w x. w ++ (x ∷ [])) (window-set_ne slots t n i v away)
          (ap (λ k. get_or (set slots i v) k d) (sym here) ∙ get_or-set_self slots i v d inside)

  -- The oldest entry, with the rest from the next position on.
  pub window-pop :
      (slots : List A) (t n : ℕ)
      → t < cap
      → ((k : ℕ) → (suc t + k) % cap ≡ ((t + 1) % cap + k) % cap)
      → window slots t (suc n) ≡ get_or slots t d ∷ window slots ((t + 1) % cap) n
  window-pop slots t n below same =
      ap₂ ◌∷◌ (ap (λ k. get_or slots k d) (mod-eq_of_lt below))
        (window-mod slots (suc t) ((t + 1) % cap) n same)
