-- ===== src/Engine/Names.antt =====
-- transfer_engine.cpp `state_to_string` and `error_to_string`: the texts that the activity sensor
-- and the error automation are given. The answer "unknown" for a value outside the enumeration does
-- not arise.
use Prim.Native.String.{String}
use text.Mathlib.Text.{◌==◌ as ◌==ₛ◌}
use mathlib.Core.Option.{some-injective}
use od_esphome.Base.{◌≡◌, List, Option, ◌∷◌, some, refl, [], none, if◌then◌else◌, sym, ◌∙◌, ap}
use od_esphome.Types.{State, ErrorCode}

unfoldable pub state_to_string : State → String
state_to_string State.idle = "idle"
state_to_string State.receiving = "receiving"
state_to_string State.validating = "validating"
state_to_string State.writing = "writing"
state_to_string State.refreshing = "refreshing"
state_to_string State.error = "error"

unfoldable pub error_to_string : ErrorCode → String
error_to_string ErrorCode.none = "none"
error_to_string ErrorCode.busy = "busy"
error_to_string ErrorCode.unsupported_command = "unsupported_command"
error_to_string ErrorCode.malformed_packet = "malformed_packet"
error_to_string ErrorCode.invalid_state = "invalid_state"
error_to_string ErrorCode.unsupported_format = "unsupported_format"
error_to_string ErrorCode.invalid_size = "invalid_size"
error_to_string ErrorCode.sequence_gap = "sequence_gap"
error_to_string ErrorCode.window_violation = "window_violation"
error_to_string ErrorCode.queue_full = "queue_full"
error_to_string ErrorCode.backend_begin_failed = "backend_begin_failed"
error_to_string ErrorCode.backend_write_failed = "backend_write_failed"
error_to_string ErrorCode.backend_finish_failed = "backend_finish_failed"
error_to_string ErrorCode.transfer_timeout = "transfer_timeout"
error_to_string ErrorCode.refresh_timeout = "refresh_timeout"
error_to_string ErrorCode.disconnected = "disconnected"

-- The first of some values that has a name.
abbrev named : {A : Type 0} → (A → String) → List A → String → Option A
named name [] s = none
named name (a ∷ l) s = if name a ==ₛ s then some a else named name l s

abbrev states : List State
states =
    State.idle ∷ State.receiving ∷ State.validating ∷ State.writing ∷ State.refreshing ∷ State.error
    ∷ []

abbrev errors : List ErrorCode
errors =
    ErrorCode.none ∷ ErrorCode.busy ∷ ErrorCode.unsupported_command ∷ ErrorCode.malformed_packet
    ∷ ErrorCode.invalid_state ∷ ErrorCode.unsupported_format ∷ ErrorCode.invalid_size
    ∷ ErrorCode.sequence_gap ∷ ErrorCode.window_violation ∷ ErrorCode.queue_full
    ∷ ErrorCode.backend_begin_failed ∷ ErrorCode.backend_write_failed
    ∷ ErrorCode.backend_finish_failed ∷ ErrorCode.transfer_timeout ∷ ErrorCode.refresh_timeout
    ∷ ErrorCode.disconnected ∷ []

state_named : (s : State) → named state_to_string states (state_to_string s) ≡ some s
unfolding state_to_string
state_named State.idle = refl
state_named State.receiving = refl
state_named State.validating = refl
state_named State.writing = refl
state_named State.refreshing = refl
state_named State.error = refl

error_named : (e : ErrorCode) → named error_to_string errors (error_to_string e) ≡ some e
unfolding error_to_string
error_named ErrorCode.none = refl
error_named ErrorCode.busy = refl
error_named ErrorCode.unsupported_command = refl
error_named ErrorCode.malformed_packet = refl
error_named ErrorCode.invalid_state = refl
error_named ErrorCode.unsupported_format = refl
error_named ErrorCode.invalid_size = refl
error_named ErrorCode.sequence_gap = refl
error_named ErrorCode.window_violation = refl
error_named ErrorCode.queue_full = refl
error_named ErrorCode.backend_begin_failed = refl
error_named ErrorCode.backend_write_failed = refl
error_named ErrorCode.backend_finish_failed = refl
error_named ErrorCode.transfer_timeout = refl
error_named ErrorCode.refresh_timeout = refl
error_named ErrorCode.disconnected = refl

-- Different states have different texts.
pub state_to_string-injective : (s t : State) → state_to_string s ≡ state_to_string t → s ≡ t
state_to_string-injective s t h =
    some-injective s t (sym (state_named s) ∙ ap (named state_to_string states) h ∙ state_named t)

-- Different errors have different texts.
pub error_to_string-injective : (e f : ErrorCode) → error_to_string e ≡ error_to_string f → e ≡ f
error_to_string-injective e f h =
    some-injective e f (sym (error_named e) ∙ ap (named error_to_string errors) h ∙ error_named f)
