-- ===== src/Engine/Pipe.antt =====
-- transfer_engine.cpp `on_pipe_data` and `on_pipe_end`.
use od_esphome.Base.{
  ℕ, ◌+◌, ◌-◌, true, not, ◌||◌, ◌&&◌, Option, none, some, List, ltb, leb, ◌==◌, if◌then◌else◌, u8,
  u32, sub32, drop,
}
use od_esphome.Types.{ErrorCode, is_receiving, is_pipe, is_ok}
use od_esphome.Wire.{cmd_pipe_write_end, od_pipe_nack_write_size, od_pipe_nack_protocol}
use od_esphome.Protocol.Frame.{byte_at}
use od_esphome.Protocol.Response.{Response, encode_nack}
use od_esphome.Protocol.Sack.{encode_pipe_sack, encode_pipe_nack, build_inorder_ack_mask}
use od_esphome.Backend.{Backend}
use od_esphome.Engine.State.{
  Engine, EngineResult, Transaction, no_result, answer, fail, count_backend_failure, call, abort,
}
use od_esphome.Engine.Finish.{finish_and_refresh}

-- The SACK of a transaction's position.
abbrev pub sack_of : Transaction → Response
sack_of txn = encode_pipe_sack txn.highest_seen (build_inorder_ack_mask txn.accepted_packets)

module _ {D : Type 0} where
  abbrev pub latch_fatal : Engine D → Engine D
  latch_fatal e = record e { txn = record (e.txn) { pipe_fatal = true } }

  -- `this->pending_tail_sack_ = …; this->has_tail_sack_ = true;` and the count of packets reset.
  abbrev pub stage_tail_sack : Engine D → Engine D
  stage_tail_sack e = record e {
    pending_tail_sack = sack_of e.txn;
    has_tail_sack = true;
    txn = record (e.txn) { accepted_since_ack = 0 };
  }

  -- The accounting of an accepted packet.
  unfoldable pub accept_pipe : Engine D → ℕ → ℕ → ℕ → Engine D
  accept_pipe e seq data_len now_ms = record e {
    txn = record (e.txn) {
      accepted_bytes = u32 (e.txn.accepted_bytes + data_len);
      highest_seen = seq;
      next_pipe_sequence = u8 (seq + 1);
      accepted_packets = u32 (e.txn.accepted_packets + 1);
      accepted_since_ack = u8 (e.txn.accepted_since_ack + 1);
      transfer_deadline_ms = u32 (now_ms + e.transfer_timeout_ms);
    };
    stats = record (e.stats) { pipe_packets = u32 (e.stats.pipe_packets + 1) };
  }

module _ {D : Type 0} (api : Backend D) where
  -- `on_pipe_data` from the auto-complete test on.
  unfoldable pub after_accept : Engine D → ℕ → EngineResult × Engine D
  after_accept e now_ms =
      if leb e.txn.expected_frame_bytes e.txn.accepted_bytes
        && not e.txn.frame.compressed
        && not e.txn.frame.partial
      then finish_and_refresh api (stage_tail_sack e) cmd_pipe_write_end now_ms
      else if leb e.txn.negotiated_ack_every e.txn.accepted_since_ack
      then (answer (sack_of e.txn), record e { txn = record (e.txn) { accepted_since_ack = 0 } })
      else (no_result, e)

  -- A write or size failure. The response reads `highest_seen` after the abort has reset it.
  write_failed : Engine D → ErrorCode → EngineResult × Engine D
  unfolding abort
  write_failed e error =
      let aborted = abort api (latch_fatal e) error in
      (fail (encode_pipe_nack od_pipe_nack_write_size aborted.txn.highest_seen 0), aborted)

  -- `on_pipe_data` past the sequence test, with the packet's data.
  unfoldable pub write_pipe : Engine D → ℕ → List ℕ → ℕ → ℕ → EngineResult × Engine D
  unfolding write_failed accept_pipe
  write_pipe e seq chunk data_len now_ms =
      if ltb (sub32 e.txn.expected_frame_bytes e.txn.accepted_bytes) data_len
      then write_failed e ErrorCode.invalid_size
      else let (r, e') =
          call e (λ d. api.write_contiguous d e.txn.accepted_bytes (some chunk) data_len) in
        if not (is_ok r)
        then write_failed (count_backend_failure e') ErrorCode.backend_write_failed
        else after_accept (accept_pipe e' seq data_len now_ms) now_ms

  malformed_pipe : Engine D → EngineResult × Engine D
  unfolding abort
  malformed_pipe e = (
    fail (encode_pipe_nack od_pipe_nack_protocol 0 0),
    abort api (latch_fatal e) ErrorCode.malformed_packet,
  )

  -- `payload == nullptr || len < 1` is the malformed packet.
  pipe_packet : Engine D → Option (List ℕ) → ℕ → ℕ → EngineResult × Engine D
  unfolding malformed_pipe
  pipe_packet e none len now_ms = malformed_pipe e
  pipe_packet e (some payload) len now_ms =
      if ltb len 1
      then malformed_pipe e
      else if not (byte_at payload 0 == e.txn.next_pipe_sequence)
      then (
        answer (sack_of e.txn),
        record e {
          stats = record (e.stats) { retransmit_requests = u32 (e.stats.retransmit_requests + 1) };
        },
      )
      else write_pipe e (byte_at payload 0) (drop 1 payload) (len - 1) now_ms

  unfoldable pub on_pipe_data : Engine D → Option (List ℕ) → ℕ → ℕ → EngineResult × Engine D
  unfolding pipe_packet
  on_pipe_data e payload len now_ms =
      if e.txn.pipe_fatal
      then (no_result, e)
      else if not (is_receiving e.txn.state) || not (is_pipe e.txn.mode)
      then (
        answer (
            encode_pipe_nack od_pipe_nack_protocol e.txn.highest_seen
              (build_inorder_ack_mask e.txn.accepted_packets)),
        latch_fatal (record e { last_error = ErrorCode.invalid_state }),
      )
      else pipe_packet e payload len now_ms

  unfoldable pub on_pipe_end : Engine D → Option (List ℕ) → ℕ → ℕ → EngineResult × Engine D
  on_pipe_end e payload len now_ms =
      if not (is_receiving e.txn.state) || not (is_pipe e.txn.mode)
      then (
        answer (encode_nack cmd_pipe_write_end),
        record e { last_error = ErrorCode.invalid_state },
      )
      else let flushed = if not (e.txn.accepted_since_ack == 0) then stage_tail_sack e else e in
        finish_and_refresh api flushed cmd_pipe_write_end now_ms
