-- ===== src/Component/Gatt/Named.antt =====
-- opendisplay.cpp `apply_ble_name_`: how often the device gets its name.
use od_esphome.Base.{ℕ, ◌≡◌, List, ◌==◌, ◌∷◌, arith, ◌++◌, [], if◌then◌else◌, ap, refl, true, false}
use od_esphome.Component.Gatt.{
  Ble, Effect, GattAnswers, NameAnswers, new_ble, setup_gatt, apply_ble_name, apply_ble_names,
  od_name,
}

-- The names that ESP-IDF has taken.
abbrev pub taken : List Effect → List (List ℕ)
taken [] = []
taken (Effect.sets_name true name ∷ l) = name ∷ taken l
taken (_ ∷ l) = taken l

-- The name that the component takes the device to have: the member is empty before, and "?" after
-- it has given up.
abbrev pub kept_names : List ℕ → List (List ℕ)
kept_names [] = []
kept_names (x ∷ name) = if x == 63 then [] else (x ∷ name) ∷ []

taken-snoc : (l : List Effect) (e : Effect) → taken (l ++ (e ∷ [])) ≡ taken l ++ taken (e ∷ [])
taken-snoc [] e = refl
taken-snoc (Effect.sets_name true name ∷ l) e = ap (◌∷◌ name) (taken-snoc l e)
taken-snoc (Effect.sets_name false name ∷ l) e = taken-snoc l e
taken-snoc (Effect.sets_local_mtu n ∷ l) e = taken-snoc l e
taken-snoc (Effect.creates_service n a ∷ l) e = taken-snoc l e
taken-snoc (Effect.creates_characteristic n ps ∷ l) e = taken-snoc l e
taken-snoc (Effect.adds_descriptor ∷ l) e = taken-snoc l e
taken-snoc (Effect.takes_writes ∷ l) e = taken-snoc l e
taken-snoc (Effect.takes_connects ∷ l) e = taken-snoc l e
taken-snoc (Effect.takes_disconnects ∷ l) e = taken-snoc l e
taken-snoc (Effect.enqueues_service ∷ l) e = taken-snoc l e
taken-snoc (Effect.starts_advertising ∷ l) e = taken-snoc l e

apply_ble_name-taken :
    (b : Ble) (a : NameAnswers)
    → taken b.effects ≡ kept_names b.ble_name
    → let b' = apply_ble_name b a in taken b'.effects ≡ kept_names b'.ble_name
unfolding apply_ble_name
apply_ble_name-taken b a h =
    let tried = Effect.sets_name (a.name_err == 0) (od_name a.mac) in
    ground (
      arith,
      h,
      taken-snoc b.effects tried,
      taken-snoc (b.effects ++ (tried ∷ [])) Effect.starts_advertising,
    )

apply_ble_names-taken :
    (l : List NameAnswers) (b : Ble)
    → taken b.effects ≡ kept_names b.ble_name
    → let b' = apply_ble_names b l in taken b'.effects ≡ kept_names b'.ble_name
apply_ble_names-taken [] b h = h
apply_ble_names-taken (a ∷ l) b h =
    apply_ble_names-taken l (apply_ble_name b a) (apply_ble_name-taken b a h)

-- Whatever ESPHome and ESP-IDF answer to the setup of the service and in the passes of the loop, the
-- device is given a name at most once, and the component holds that name from then on; it holds no
-- name, or the "?" of a name that it has given up, exactly while the device has not been named.
pub device_named_once :
    (answers : GattAnswers) (l : List NameAnswers)
    → let b = apply_ble_names (setup_gatt new_ble answers).1 l in
      taken b.effects ≡ kept_names b.ble_name
unfolding setup_gatt
device_named_once answers l = apply_ble_names-taken l (setup_gatt new_ble answers).1 (ground arith)
