-- ===== src/Component/State.antt =====
-- opendisplay.h: the members of OpenDisplayComponent, without those of the GATT service and the
-- device name, which are in Gatt, and of the chip temperature, which are in Temperature. What the
-- component tells the rest of the system is recorded, oldest first: the calls of its automation
-- callbacks and what it publishes in `notices`, and the notifications of its characteristic in
-- `notified`, and the manufacturer data that it gives to ESPHome's advertisement in `advertised`.
use od_esphome.Base.{ℕ, ◌+◌, ◌∷◌, ◌++◌, [], Bool, true, false, List, u32, some}
use od_esphome.Types.{State, ErrorCode}
use od_esphome.Backend.{Backend}
use od_esphome.Protocol.Response.{Response}
use od_esphome.Transport.{RxQueue, TxQueue, rx_push}
use od_esphome.Engine.State.{Engine, set_connection_generation, abort}

pub data Notice : Type 0 where
  transfer_started refresh_complete activity_error : Notice
  error : ErrorCode → Notice
  busy : Bool → Notice
  activity : State → Notice

pub record Component (D : Type 0) : Type 0 where
  pub engine : Engine D
  pub rx : RxQueue
  pub tx : TxQueue
  pub ver_major : ℕ
  pub ver_minor : ℕ
  pub ver_patch : ℕ
  pub connection_generation : ℕ  -- uint32_t
  pub connected : Bool
  pub has_characteristic : Bool  -- `characteristic_ != nullptr`
  pub has_ble : Bool  -- `esp32_ble::global_ble != nullptr`
  pub config_blob : List ℕ  -- the first config_blob_len_ bytes
  pub config_valid : Bool
  pub msd : List ℕ
  pub msd_published : List ℕ
  pub advertised : List (List ℕ)
  pub msd_loop_counter : ℕ  -- uint8_t
  pub msd_next_update_ms : ℕ  -- uint32_t
  pub reboot_flag : Bool
  pub bulk_rx_count : ℕ  -- uint32_t
  pub bulk_tx_count : ℕ  -- uint32_t
  pub published_state : State
  pub published_busy : Bool
  pub error_pending : Bool
  pub has_busy_sensor : Bool
  pub has_activity_sensor : Bool
  pub notices : List Notice
  pub notified : List Response

module _ {D : Type 0} where
  abbrev pub notify : Component D → Notice → Component D
  notify c n = record c { notices = c.notices ++ (n ∷ []) }

  -- The callbacks of the BLE server, which run outside the loop.
  unfoldable pub on_ble_write : Component D → List ℕ → ℕ → ℕ → Component D
  on_ble_write c bytes len now_ms = record c {
    rx = (rx_push c.rx (some bytes) len c.connection_generation now_ms).1;
  }

  unfoldable pub on_ble_connect : Component D → Component D
  unfolding set_connection_generation
  on_ble_connect c = record c {
    connected = true;
    connection_generation = u32 (c.connection_generation + 1);
    engine = set_connection_generation c.engine (u32 (c.connection_generation + 1));
  }

  unfoldable pub on_ble_disconnect : Component D → Component D
  on_ble_disconnect c = record c { connected = false }

  -- `OpenDisplayComponent::abort`, for the automation action.
  unfoldable pub abort_action : Backend D → Component D → Component D
  abort_action api c = record c { engine = abort api c.engine ErrorCode.invalid_state }

  -- The setters that the generated code calls before `setup`.
  unfoldable pub set_version : Component D → ℕ → ℕ → ℕ → Component D
  set_version c major minor patch = record c {
    ver_major = major;
    ver_minor = minor;
    ver_patch = patch;
  }

  unfoldable pub set_busy_binary_sensor : Component D → Bool → Component D
  set_busy_binary_sensor c is_set = record c { has_busy_sensor = is_set }

  unfoldable pub set_activity_text_sensor : Component D → Bool → Component D
  set_activity_text_sensor c is_set = record c { has_activity_sensor = is_set }

-- The members that only `setup` reads, as they are before a setter is called.
pub record Settings : Type 0 where
  pub transfer_timeout_ms : ℕ  -- uint32_t
  pub refresh_timeout_ms : ℕ  -- uint32_t
  pub ic_type : ℕ  -- uint16_t

abbrev pub default_settings : Settings
default_settings = record { transfer_timeout_ms = 30000; refresh_timeout_ms = 180000; ic_type = 0 }

abbrev pub set_transfer_timeout : Settings → ℕ → Settings
set_transfer_timeout s ms = record s { transfer_timeout_ms = ms }

abbrev pub set_refresh_timeout : Settings → ℕ → Settings
set_refresh_timeout s ms = record s { refresh_timeout_ms = ms }

abbrev pub set_ic_type : Settings → ℕ → Settings
set_ic_type s ic_type = record s { ic_type = ic_type }
