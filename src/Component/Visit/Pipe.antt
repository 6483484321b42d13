-- ===== src/Component/Visit/Pipe.antt =====
-- opendisplay.cpp: the packets of a pipe transfer, each in a pass of the loop of its own.
use od_esphome.Base.{
  ℕ, Option, List, length, ◌≡◌, ◌∷◌, ap, ◌≤◌, arith, ◌+◌, some, ◌++◌, u8, u16, suc, ap₂, ◌∙◌,
}
use od_esphome.Backend.{Backend}
use od_esphome.Protocol.Frame.{parse_frame}
use od_esphome.Protocol.Msd.{Encoded}
use od_esphome.Protocol.PipeStart.Request.{request}
use od_esphome.Transport.{rx_slot_bytes}
use od_esphome.Engine.Start.{on_pipe_start}
use od_esphome.Engine.Pipe.{on_pipe_data}
use od_esphome.Engine.Calls.{Call, run, step}
use od_esphome.Component.State.{Component}
use od_esphome.Component.Kept.{Core}
use od_esphome.Component.History.{history, served, parsed_calls}
use od_esphome.Component.Visit.{IsAttending, visit, core-visit}
use od_esphome.Component.Visit.Direct.{handled, leftover, take-all}

abbrev pub pipe_start_bytes : ℕ → ℕ → ℕ → ℕ → List ℕ
pipe_start_bytes window ack_every max_frame size = 0 ∷ 128 ∷ request window ack_every max_frame size

abbrev pub pipe_data_bytes : ℕ → List ℕ → List ℕ
pipe_data_bytes n c = 0 ∷ 129 ∷ u8 n ∷ c

parsed-pipe :
    (seq : ℕ) (c junk : List ℕ) (now_ms : ℕ)
    → parsed_calls
        (parse_frame (some (0 ∷ 129 ∷ seq ∷ (c ++ junk))) (suc (suc (suc (length c)))))
        now_ms
      ≡ served (Call.pipe_data (some (seq ∷ (c ++ junk))) (suc (length c)) now_ms)
unfolding parse_frame
parsed-pipe seq c junk now_ms =
    let parsed : parse_frame (some (0 ∷ 129 ∷ seq ∷ (c ++ junk))) (suc (suc (suc (length c))))
        ≡ some (record {
          opcode = 129;
          payload = some (seq ∷ (c ++ junk));
          payload_len = suc (length c);
        }) =
      ground arith in
    ap (λ o. parsed_calls o now_ms) parsed

module _ {D : Type 0} (api : Backend D) (version : Option (List ℕ)) where
  pub engine-visit_pipe_start :
      (c : Component D) (window ack_every max_frame size now_ms : ℕ) (temperature : Encoded)
      → IsAttending c
      → let bytes = pipe_start_bytes window ack_every max_frame size in
        let p = some (request window ack_every max_frame size ++ leftover c bytes) in
        (history api version c (visit bytes now_ms temperature)).engine
        ≡ handled api (on_pipe_start api c.engine p 10 now_ms).1 now_ms
  unfolding parse_frame run step
  engine-visit_pipe_start c window ack_every max_frame size now_ms temperature a =
      ap (λ (k : Core D). k.engine)
        (core-visit api version c (pipe_start_bytes window ack_every max_frame size) now_ms
          temperature a (omega arith) (omega arith))

  pub engine-visit_pipe_data :
      (c : Component D) (n : ℕ) (chunk : List ℕ) (now_ms : ℕ) (temperature : Encoded)
      → IsAttending c
      → length chunk + 3 ≤ rx_slot_bytes
      → let bytes = pipe_data_bytes n chunk in
        let p = some (u8 n ∷ (chunk ++ leftover c bytes)) in
        (history api version c (visit bytes now_ms temperature)).engine
        ≡ handled api (on_pipe_data api c.engine p (suc (length chunk)) now_ms).1 now_ms
  unfolding run step
  engine-visit_pipe_data c n chunk now_ms temperature a small =
      let junk = leftover c (pipe_data_bytes n chunk) in
      let size : u16 (suc (suc (suc (length chunk)))) ≡ suc (suc (suc (length chunk))) =
        omega (arith, small) in
      let calls =
        ap₂
          (λ bytes k. parsed_calls (parse_frame (some (0 ∷ 129 ∷ u8 n ∷ (bytes ++ junk))) k) now_ms)
          (take-all chunk) size
        ∙ parsed-pipe (u8 n) chunk junk now_ms in
      ap (λ (k : Core D). k.engine)
        (core-visit api version c (pipe_data_bytes n chunk) now_ms temperature a (omega arith)
          (omega (arith, small)))
      ∙ ap (λ cs. run api (run api c.engine cs) (served (Call.ticks now_ms))) calls
