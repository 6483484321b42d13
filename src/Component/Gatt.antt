-- ===== src/Component/Gatt.antt =====
-- opendisplay.cpp `setup_gatt_` and `apply_ble_name_`: the component's side of the Bluetooth
-- service. The answers of ESPHome and of ESP-IDF are arguments, and the calls of them that the
-- component makes are recorded, oldest first.
pub mod Named
use od_esphome.Base.{
  ℕ, List, false, if◌then◌else◌, Bool, ◌++◌, ◌∷◌, ltb, not, [], ◌/◌, ◌%◌, length, true, ◌+◌, ◌==◌,
  ◌||◌,
}
use od_esphome.Protocol.Frame.{byte_at}

abbrev pub od_ble_service_uuid : ℕ
od_ble_service_uuid = 0x2446

abbrev pub od_ble_preferred_mtu : ℕ
od_ble_preferred_mtu = 256

-- The bits of the characteristic's properties.
pub data Property : Type 0 where
  reads writes writes_without_answer notifies : Property

pub data Effect : Type 0 where
  sets_local_mtu : ℕ → Effect
  creates_service : ℕ → Bool → Effect  -- with `advertise`
  creates_characteristic : ℕ → List Property → Effect
  adds_descriptor takes_writes takes_connects takes_disconnects enqueues_service : Effect
  sets_name : Bool → List ℕ → Effect  -- whether ESP-IDF answers ESP_OK
  starts_advertising : Effect

pub record Ble : Type 0 where
  pub service : Bool  -- `service_ != nullptr`
  pub characteristic : Bool  -- `characteristic_ != nullptr`
  pub gatt_started : Bool
  pub ble_name : List ℕ  -- the bytes before the terminating zero
  pub ble_name_err : ℕ
  pub effects : List Effect

abbrev pub new_ble : Ble
new_ble = record {
  service = false;
  characteristic = false;
  gatt_started = false;
  ble_name = [];
  ble_name_err = 0;
  effects = [];
}

abbrev record_effect : Ble → Effect → Ble
record_effect b e = record b { effects = b.effects ++ (e ∷ []) }

-- What ESPHome answers while the service is set up.
pub record GattAnswers : Type 0 where
  pub has_server : Bool
  pub service_made : Bool
  pub characteristic_made : Bool

abbrev pub od_properties : List Property
od_properties =
    Property.reads ∷ Property.writes ∷ Property.writes_without_answer ∷ Property.notifies ∷ []

-- `setup_gatt_`. The result is false where the component is marked failed.
unfoldable pub setup_gatt : Ble → GattAnswers → Bool × Ble
setup_gatt b answers =
    if not answers.has_server
    then (false, b)
    else let asked =
        record_effect (record_effect b (Effect.sets_local_mtu od_ble_preferred_mtu))
          (Effect.creates_service od_ble_service_uuid true) in
      let serving = record asked { service = answers.service_made } in
      if not answers.service_made
      then (false, serving)
      else let made =
          record_effect serving (Effect.creates_characteristic od_ble_service_uuid od_properties) in
        let notifying = record made { characteristic = answers.characteristic_made } in
        if not answers.characteristic_made then (false, notifying) else (
          true,
          record notifying {
            gatt_started = true;
            effects =
                notifying.effects
                ++ (Effect.adds_descriptor ∷ Effect.takes_writes ∷ Effect.takes_connects
                    ∷ Effect.takes_disconnects ∷ Effect.enqueues_service ∷ []);
          },
        )

-- The digit that `%X` prints.
abbrev pub hex_digit : ℕ → ℕ
hex_digit n = if ltb n 10 then 48 + n else 55 + n

-- `%02X` of a byte.
abbrev pub hex_byte : ℕ → List ℕ
hex_byte n = hex_digit (n / 16) ∷ hex_digit (n % 16) ∷ []

-- `snprintf(od_name, …, "OD%02X%02X%02X", mac[5], mac[4], mac[3])`.
abbrev pub od_name : List ℕ → List ℕ
od_name mac =
    79 ∷ 68 ∷ (hex_byte (byte_at mac 5) ++ (hex_byte (byte_at mac 4) ++ hex_byte (byte_at mac 3)))

-- What ESPHome and ESP-IDF answer in one pass; an error is 0 for ESP_OK.
pub record NameAnswers : Type 0 where
  pub is_running : Bool
  pub mac_err : ℕ
  pub mac : List ℕ
  pub name_err : ℕ
  pub has_ble : Bool

-- `ble_name_[0] = '?'` of a name that is empty.
abbrev pub given_up : List ℕ
given_up = 63 ∷ []

-- `apply_ble_name_`.
unfoldable pub apply_ble_name : Ble → NameAnswers → Ble
apply_ble_name b answers =
    if not (length b.ble_name == 0) || not b.service
    then b
    else if not answers.is_running
    then b
    else if not (answers.mac_err == 0)
    then record b { ble_name_err = answers.mac_err; ble_name = given_up }
    else let name = od_name answers.mac in
      let tried = record_effect b (Effect.sets_name (answers.name_err == 0) name) in
      if not (answers.name_err == 0)
      then record tried { ble_name_err = answers.name_err }
      else let named = record tried { ble_name = name; ble_name_err = 0 } in
        if answers.has_ble then record_effect named Effect.starts_advertising else named

-- The passes of the loop.
abbrev pub apply_ble_names : Ble → List NameAnswers → Ble
apply_ble_names b [] = b
apply_ble_names b (a ∷ l) = apply_ble_names (apply_ble_name b a) l
