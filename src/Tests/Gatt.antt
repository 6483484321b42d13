-- ===== src/Tests/Gatt.antt =====
-- The device name over two passes of the loop.
use od_esphome.Component.Gatt.{
  NameAnswers, GattAnswers, apply_ble_name, apply_ble_names, setup_gatt, new_ble,
}
use od_esphome.Component.Gatt.Named.{taken, device_named_once}
use od_esphome.Base.{List, true, ◌≡◌, ◌∷◌, []}

-- The name is refused in the first pass and taken in the second.
abbrev passes : List NameAnswers
passes =
    record {
      is_running = true;
      mac_err = 0;
      mac = 1 ∷ 2 ∷ 3 ∷ 4 ∷ 5 ∷ 171 ∷ [];
      name_err = 1;
      has_ble = true;
    }
    ∷ record {
      is_running = true;
      mac_err = 0;
      mac = 1 ∷ 2 ∷ 3 ∷ 4 ∷ 5 ∷ 171 ∷ [];
      name_err = 0;
      has_ble = true;
    }
    ∷ []

abbrev made : GattAnswers
made = record { has_server = true; service_made = true; characteristic_made = true }

device_named_once_example :
    taken (apply_ble_names (setup_gatt new_ble made).1 passes).effects
    ≡ (79 ∷ 68 ∷ 65 ∷ 66 ∷ 48 ∷ 53 ∷ 48 ∷ 52 ∷ []) ∷ []
unfolding setup_gatt apply_ble_name
device_named_once_example = device_named_once made passes
