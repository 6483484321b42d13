-- ===== src/Component/Visit/Direct.antt =====
-- opendisplay.cpp: the packets of a direct transfer, each in a pass of the loop of its own.
use mathlib.Core.Path.{subst}
use od_esphome.Base.{
  ℕ, Option, List, ◌<◌, length, ◌≡◌, take, drop, ◌∷◌, get_or, ap, ◌≢◌, none, [], ◌≤◌, arith, ◌+◌,
  refl, some, ◌++◌, u16, suc, ap₂, ◌∙◌, sym,
}
use od_esphome.Backend.{Backend}
use od_esphome.Protocol.Frame.{parse_frame}
use od_esphome.Protocol.Msd.{Encoded}
use od_esphome.Transport.{rx_slot_bytes, empty_packet}
use od_esphome.Engine.State.{Engine, take_tail_sack}
use od_esphome.Engine.Tick.{tick}
use od_esphome.Engine.Start.{on_direct_start}
use od_esphome.Engine.Direct.{on_direct_data, on_direct_end}
use od_esphome.Engine.Calls.{Call, run, step}
use od_esphome.Component.State.{Component}
use od_esphome.Component.Kept.{Core}
use od_esphome.Component.History.{history, served, parsed_calls}
use od_esphome.Component.Visit.{IsAttending, IsDrained, visit, core-visit, push-pop}

abbrev pub start_bytes : List ℕ
start_bytes = 0 ∷ 112 ∷ []

abbrev pub data_bytes : List ℕ → List ℕ
data_bytes c = 0 ∷ 113 ∷ c

abbrev pub end_bytes : List ℕ
end_bytes = 0 ∷ 114 ∷ []

-- What one pass does behind a handler.
abbrev pub handled : {D : Type 0} → Backend D → Engine D → ℕ → Engine D
handled api e now_ms = (take_tail_sack (tick api (take_tail_sack e).1 now_ms).1).1

parsed-data :
    (c junk : List ℕ) (now_ms : ℕ)
    → length c ≢ 0
    → parsed_calls (parse_frame (some (0 ∷ 113 ∷ (c ++ junk))) (suc (suc (length c)))) now_ms
      ≡ served (Call.direct_data (some (c ++ junk)) (length c) now_ms)
unfolding parse_frame
parsed-data c junk now_ms ne =
    let parsed : parse_frame (some (0 ∷ 113 ∷ (c ++ junk))) (suc (suc (length c)))
        ≡ some (record { opcode = 113; payload = some (c ++ junk); payload_len = length c }) =
      ground (arith, ne) in
    ap (λ o. parsed_calls o now_ms) parsed

-- The bytes behind a packet's own in its slot.
abbrev pub leftover : {D : Type 0} → Component D → List ℕ → List ℕ
leftover c bytes = drop (length bytes) (get_or c.rx.slots c.rx.head empty_packet).payload

pub take-all : (c : List ℕ) → take (length c) c ≡ c
take-all [] = refl
take-all (x ∷ c) = ap (◌∷◌ x) (take-all c)

module _ {D : Type 0} (api : Backend D) (version : Option (List ℕ)) where
  pub visit-IsAttending :
      (c : Component D) (bytes : List ℕ) (now_ms : ℕ) (temperature : Encoded)
      → IsAttending c
      → 0 < length bytes
      → length bytes ≤ rx_slot_bytes
      → IsAttending (history api version c (visit bytes now_ms temperature))
  visit-IsAttending c bytes now_ms temperature a pos small =
      let kept = core-visit api version c bytes now_ms temperature a pos small in
      let popped = push-pop c.rx bytes c.connection_generation now_ms a.drained pos small in
      record {
        drained = subst IsDrained (sym (ap (λ (k : Core D). k.rx) kept)) popped.1;
        connected = ap (λ (k : Core D). k.connected) kept ∙ a.connected;
      }

  pub engine-visit_start :
      (c : Component D) (now_ms : ℕ) (temperature : Encoded)
      → IsAttending c
      → (history api version c (visit start_bytes now_ms temperature)).engine
        ≡ handled api (on_direct_start api c.engine none 0 now_ms).1 now_ms
  unfolding parse_frame run step
  engine-visit_start c now_ms temperature a =
      ap (λ (k : Core D). k.engine)
        (core-visit api version c start_bytes now_ms temperature a (omega arith) (omega arith))

  pub engine-visit_end :
      (c : Component D) (now_ms : ℕ) (temperature : Encoded)
      → IsAttending c
      → (history api version c (visit end_bytes now_ms temperature)).engine
        ≡ handled api (on_direct_end api c.engine none 0 now_ms).1 now_ms
  unfolding parse_frame run step
  engine-visit_end c now_ms temperature a =
      ap (λ (k : Core D). k.engine)
        (core-visit api version c end_bytes now_ms temperature a (omega arith) (omega arith))

  pub engine-visit_data :
      (c : Component D) (chunk : List ℕ) (now_ms : ℕ) (temperature : Encoded)
      → IsAttending c
      → length chunk ≢ 0
      → length chunk + 2 ≤ rx_slot_bytes
      → (history api version c (visit (data_bytes chunk) now_ms temperature)).engine
        ≡ handled api
            (on_direct_data api c.engine
              (some (chunk ++ leftover c (data_bytes chunk)))
              (length chunk)
              now_ms).1
            now_ms
  unfolding run step
  engine-visit_data c chunk now_ms temperature a ne small =
      let junk = leftover c (data_bytes chunk) in
      let size : u16 (suc (suc (length chunk))) ≡ suc (suc (length chunk)) = omega (arith, small) in
      let calls =
        ap₂ (λ bytes n. parsed_calls (parse_frame (some (0 ∷ 113 ∷ (bytes ++ junk))) n) now_ms)
          (take-all chunk) size
        ∙ parsed-data chunk junk now_ms ne in
      ap (λ (k : Core D). k.engine)
        (core-visit api version c (data_bytes chunk) now_ms temperature a (omega arith)
          (omega (arith, small)))
      ∙ ap (λ cs. run api (run api c.engine cs) (served (Call.ticks now_ms))) calls
