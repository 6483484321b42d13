-- ===== src/Component/Config/Delivered.antt =====
-- opendisplay.cpp: a 0x0040 request, from the packet that asks for the configuration to the client's
-- buffer.
use mathlib.Core.Path.{subst}
use mathlib.Core.Option
use od_esphome.Component.Config.{
  reassemble, chunks_from, length-chunks_from, assemble-reassemble, chunk-none,
  send_chunks-contents, zero_plus, chunk_count, chunk_count-small,
}
use od_esphome.Base.{
  ℕ, List, length, ◌≡◌, ◌++◌, [], ◌∷◌, ◌≤◌, ◌<◌, zero, suc, ◌+◌, ◌^◌, arith, ap, ◌∙◌, true, Option,
  none, some, Bool, ◌&&◌, ◌==◌, if◌then◌else◌, sym, refl, length-append,
}
use od_esphome.Wire.{cmd_config_read, config_blob_max, resp_ack}
use od_esphome.Backend.{Backend}
use od_esphome.Protocol.Frame.{Frame, parse_frame, byte_at, get_u16_le}
use od_esphome.Protocol.Response.{Response}
use od_esphome.Protocol.Msd.{Encoded}
use od_esphome.Protocol.Chunk.{chunk_offset, encode_config_chunk}
use od_esphome.Protocol.Chunk.Delivery.{assemble, chunks_deliver, body}
use od_esphome.Transport.{RxPacket}
use od_esphome.Transport.Tx
use od_esphome.Engine.Tick.{tick}
use od_esphome.Component.State.{Component, on_ble_write}
use od_esphome.Component.Respond.{send_chunks, send_config, drain_tx}
use od_esphome.Component.Dispatch.{
  handle_frame, handle_packet, take_packet, apply_call, count_bulk_rx, update_msd, publish_changes,
}
use od_esphome.Component.History.{history, happen}
use od_esphome.Component.Visit.{IsAttending, visit, written, passed, push-pop}
use od_esphome.Component.Answered.{IsQuiet}
use od_esphome.Component.Answered.Queued.{frames_of}
use od_esphome.Component.Answered.Pass.{rest-IsQuiet}
use od_esphome.Component.Answered.Call.{tick-frames}
use od_esphome.Component.Answered.Packet.{loop-one}

-- A client's reader. It takes notification `i` for chunk `i` if it acknowledges a 0x0040 request and
-- has that number.
abbrev is_chunk : Response → ℕ → Bool
is_chunk r i = byte_at r 0 == resp_ack && (byte_at r 1 == cmd_config_read && get_u16_le r 2 == i)

abbrev pub read_chunks : List Response → ℕ → Option (List ℕ)
read_chunks [] i = some []
read_chunks (r ∷ rs) i =
    let rest = read_chunks rs (i + 1) in
    if is_chunk r i then Option.map (λ b. body r i ++ b) rest else none

abbrev claimed : Response → Option (List ℕ) → Option (List ℕ)
claimed r none = none
claimed r (some b) = if length b == get_u16_le r 4 then some b else none

-- All chunks, and as many bytes as chunk 0 promises.
abbrev pub read_config : List Response → Option (List ℕ)
read_config [] = none
read_config (r ∷ rs) = claimed r (read_chunks (r ∷ rs) 0)

encode-is_chunk :
    (blob : List ℕ) (i : ℕ)
    → chunk_offset i < length blob
    → i < 2 ^ 16
    → is_chunk (encode_config_chunk blob i) i ≡ true
unfolding encode_config_chunk
encode-is_chunk blob i more small = ground (arith, more, small)

encode-total :
    (blob : List ℕ)
    → 0 < length blob
    → length blob < 2 ^ 16
    → get_u16_le (encode_config_chunk blob 0) 4 ≡ length blob
unfolding encode_config_chunk
encode-total blob some_ small = ground (arith, some_, small)

read_chunks-from :
    (n i : ℕ) (blob : List ℕ)
    → i + n ≤ 2 ^ 16
    → ((j : ℕ) → j < n → chunk_offset (i + j) < length blob)
    → read_chunks (chunks_from blob i n) i ≡ some (reassemble (chunks_from blob i n) i)
read_chunks-from zero i blob small more = refl
read_chunks-from (suc n) i blob small more =
    let here : i + 0 ≡ i = omega arith in
    let first =
      encode-is_chunk blob i (subst (λ k. chunk_offset k < length blob) here (more 0 (omega arith)))
        (omega arith) in
    let next : (j : ℕ) → j < n → chunk_offset ((i + 1) + j) < length blob = λ j k.
      let shift : i + suc j ≡ (i + 1) + j = omega arith in
      subst (λ l. chunk_offset l < length blob) shift (more (suc j) (omega arith)) in
    let rest = read_chunks-from n (i + 1) blob (omega arith) next in
    rw first (ap (Option.map (λ b. body (encode_config_chunk blob i) i ++ b)) rest)

read_config-from :
    (n : ℕ) (blob : List ℕ)
    → n ≤ 2
    → length blob ≤ chunk_offset n
    → ((j : ℕ) → j < n → chunk_offset j < length blob)
    → 0 < length blob
    → length blob ≤ config_blob_max
    → read_config (chunks_from blob 0 n) ≡ some blob
unfolding assemble
read_config-from zero blob two last more full small = absurd (omega (arith, last))
read_config-from (suc n) blob two last more full small =
    let first = encode_config_chunk blob 0 in
    let rs = chunks_from blob 0 (suc n) in
    let numbered : (j : ℕ) → j < suc n → chunk_offset (0 + j) < length blob =
      λ j k. subst (λ l. chunk_offset l < length blob) (sym (zero_plus j)) (more j k) in
    let empty =
      chunk-none blob (0 + suc n) (omega (arith, last, ap chunk_offset (zero_plus (suc n)))) in
    let whole : reassemble rs 0 ≡ blob =
      assemble-reassemble (suc n) 0 blob ∙ chunks_deliver blob (0 + suc n) empty in
    let total = encode-total blob full (omega (arith, small)) in
    ap (claimed first) (read_chunks-from (suc n) 0 blob (omega arith) numbered ∙ ap some whole)
    ∙ ground (arith, total)

abbrev pub config_request : List ℕ
config_request = 0 ∷ 64 ∷ []

abbrev request_frame : Frame
request_frame = record { opcode = 64; payload = none; payload_len = 0 }

module _ {D : Type 0} (api : Backend D) (version : Option (List ℕ)) where
  -- The component with the chunks of its configuration queued.
  abbrev chunks_queued : Component D → Component D
  chunks_queued c = record c { tx = send_chunks (suc (length c.config_blob)) c.config_blob c.tx 0 }

  handle_frame-config :
      (c : Component D) (now_ms : ℕ)
      → c.config_valid ≡ true
      → handle_frame api version c request_frame now_ms ≡ chunks_queued c
  unfolding handle_frame send_config
  handle_frame-config c now_ms valid = ground (arith, valid)

  take_packet-config :
      (c : Component D) (pkt : RxPacket) (now_ms : ℕ)
      → pkt.connection_generation ≡ c.connection_generation
      → parse_frame (some pkt.payload) pkt.payload_length ≡ some request_frame
      → c.config_valid ≡ true
      → take_packet api version c pkt now_ms ≡ chunks_queued c
  unfolding take_packet handle_packet
  take_packet-config c pkt now_ms same parsed valid =
      let handled : take_packet api version c pkt now_ms ≡ handle_packet api version c pkt now_ms =
        ground (arith, same) in
      handled
      ∙ ap
          (λ (o : Option Frame). elim o as (λ x. Component D) [
            | none ↦ c
            | some g ↦ handle_frame api version (count_bulk_rx c g.opcode) g now_ms
          ])
          parsed
      ∙ handle_frame-config c now_ms valid

  -- A connected client that has been sent everything writes a 0x0040 request. In the pass of the loop
  -- that follows, at the same time, it is notified of exactly some frames and, behind them, what
  -- `tick` has to say. From those frames a reader that demands the acknowledgement, the opcode, the
  -- numbers of the chunks in their order and as many bytes as chunk 0 promises gets the whole
  -- configuration blob, if that was built and has 1 to 160 bytes. Behind the pass the client has
  -- again been sent everything.
  pub config_read_delivers :
      (c : Component D) (now_ms : ℕ) (temperature : Encoded)
      → IsQuiet c
      → c.config_valid ≡ true
      → 0 < length c.config_blob
      → length c.config_blob ≤ config_blob_max
      → let c' = history api version c (visit config_request now_ms temperature) in
        IsQuiet c'
        × ((rs : List Response) × (c'.notified
              ≡ c.notified ++ (rs ++ frames_of (tick api c.engine now_ms)))
            × (read_config rs ≡ some c.config_blob))
  unfolding history happen on_ble_write parse_frame
  config_read_delivers c now_ms temperature q valid full small =
      let blob = c.config_blob in
      let (n, two, last, more) = chunk_count blob small in
      let c1 = on_ble_write c config_request 2 now_ms in
      let pkt = written c.rx config_request c.connection_generation now_ms in
      let rx = passed c.rx config_request c.connection_generation now_ms in
      let popped =
        push-pop c.rx config_request c.connection_generation now_ms q.attending.drained
          (omega arith) (omega arith) in
      let c2 : Component D = record c1 { rx = rx } in
      let taken = take_packet api version c2 pkt now_ms in
      let taken_is : taken ≡ chunks_queued c2 = take_packet-config c2 pkt now_ms refl refl valid in
      let queued =
        send_chunks-contents n (suc (length blob)) 0 blob c.tx (chunk_count-small blob n two more)
          q.valid (omega (arith, last, ap chunk_offset (zero_plus n)))
          (λ j k. omega (arith, more j k, ap chunk_offset (zero_plus j)))
          (omega (arith, ap length q.sent, two)) in
      let sent : Tx.contents (chunks_queued c2).tx ≡ chunks_from blob 0 n =
        queued.1 ∙ ap (λ l. l ++ chunks_from blob 0 n) q.sent in
      let timed = tick api c.engine now_ms in
      let few : length (Tx.contents (chunks_queued c2).tx ++ frames_of timed) ≤ 4 = omega (
        arith,
        length-append (Tx.contents (chunks_queued c2).tx) (frames_of timed),
        ap length sent,
        length-chunks_from n 0 blob,
        two,
        tick-frames api c.engine now_ms q.no_tail,
      ) in
      let attending : IsAttending (chunks_queued c2) = record {
        drained = popped.1;
        connected = q.attending.connected;
      } in
      let (quiet, engine, said) =
        rest-IsQuiet (chunks_queued c2) timed now_ms temperature attending q.charact queued.0 few in
      let looped =
        loop-one api version c1 now_ms temperature pkt rx q.attending.connected
          (ap (λ o. (o, rx)) popped.0) popped.2 (ap (λ (k : Component D). k.rx) taken_is)
        ∙ ap
            (λ (k : Component D).
              publish_changes (
                drain_tx (update_msd (apply_call k (tick api k.engine now_ms)) now_ms temperature)))
            taken_is in
      let heard = said ∙ ap (λ (l : List Response). c.notified ++ (l ++ frames_of timed)) sent in
      (
        subst IsQuiet (sym looped) quiet,
        (
          chunks_from blob 0 n,
          ap (λ (k : Component D). k.notified) looped ∙ heard,
          read_config-from n blob two last more full small,
        ),
      )
