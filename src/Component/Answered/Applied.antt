-- ===== src/Component/Answered/Applied.antt =====
-- opendisplay.cpp `apply_result_`, part by part: what it puts into the transmit ring.
use mathlib.Core.Path.{subst}
use mathlib.Core.List.{append-nil}
use od_esphome.Base.{
  ℕ, ◌≡◌, ◌∷◌, [], List, length, ◌<◌, ◌≤◌, ◌+◌, Bool, true, false, if◌then◌else◌, arith, ap, ◌∙◌,
  refl, sym, Bool-cases, inl, inr, length-append,
}
use od_esphome.Wire.{resp_direct_write_refresh_success, resp_direct_write_refresh_timeout}
use od_esphome.Protocol.Response.{Response, is_empty, encode_ack}
use od_esphome.Transport.Tx
use od_esphome.Engine.State.{Engine, EngineResult, take_tail_sack}
use od_esphome.Component.State.{Component, notify, Notice}
use od_esphome.Component.Respond.{
  send, send_tail, send_response, apply_result, report_start, report_counts, report_complete,
  report_timeout, report_failure, ends_transfer, report_error,
}
use od_esphome.Component.Dispatch.{apply_call}
use od_esphome.Component.Answered.{success_frame, timeout_frame}
use od_esphome.Component.Answered.Queued.{
  frame_of, tail_of, frames_of, Queued, Queued-then, Queued-same, send-Queued,
}

module _ {D : Type 0} where
  staged_tail :
      (c : Component D)
      → c.engine.has_tail_sack ≡ true
      → send_tail c
        ≡ send
            (record c { engine = record (c.engine) { has_tail_sack = false } })
            c.engine.pending_tail_sack
            true
  unfolding send_tail take_tail_sack
  staged_tail c h = ground (arith, h)

  no_tail : (c : Component D) → c.engine.has_tail_sack ≡ false → send_tail c ≡ c
  unfolding send_tail take_tail_sack
  no_tail c h = ground (arith, h)

  send_tail-Queued :
      (c : Component D)
      → Tx.IsValid c.tx
      → length (Tx.contents c.tx) < 12
      → Queued c (tail_of c.engine) (send_tail c)
  send_tail-Queued c v room = elim (Bool-cases c.engine.has_tail_sack) [
    | inl staged ↦
        let c1 = record c { engine = record (c.engine) { has_tail_sack = false } } in
        let sent =
          Queued-then (Queued-same c c1 v refl refl refl)
            (send-Queued c1 c.engine.pending_tail_sack true v room) in
        let frames : tail_of c.engine ≡ frame_of c.engine.pending_tail_sack = rw staged refl in
        subst (λ (c' : Component D). Queued c (tail_of c.engine) c') (sym (staged_tail c staged))
          (subst (λ fs. Queued c fs (send c1 c.engine.pending_tail_sack true)) (sym frames) sent)
    | inr nothing ↦
        let frames : tail_of c.engine ≡ [] = rw nothing refl in
        subst (λ (c' : Component D). Queued c (tail_of c.engine) c') (sym (no_tail c nothing))
          (subst (λ fs. Queued c fs c) (sym frames) (Queued-same c c v refl refl refl))
  ]

  -- A frame that is sent if a flag is set.
  flagged-Queued :
      (b : Bool) (c c' : Component D) (fs : List Response)
      → Tx.IsValid c.tx
      → Queued c fs c'
      → Queued c (if b then fs else []) (if b then c' else c)
  flagged-Queued true c c' fs v q = q
  flagged-Queued false c c' fs v q = Queued-same c c v refl refl refl

  send_response-Queued :
      (c : Component D) (res : EngineResult)
      → Tx.IsValid c.tx
      → length (Tx.contents c.tx) < 12
      → Queued c (frame_of res.response) (send_response c res)
  send_response-Queued c res v room = elim (Bool-cases (is_empty res.response)) [
    | inl empty ↦ rw empty (Queued-same c c v refl refl refl)
    | inr full ↦
        let sent = send-Queued c res.response (ends_transfer res) v room in
        let frames : frame_of res.response ≡ res.response ∷ [] = rw full refl in
        rw full (subst (λ fs. Queued c fs (send c res.response (ends_transfer res))) frames sent)
  ]

  report_start-Queued :
      (c : Component D) (res : EngineResult) → Tx.IsValid c.tx → Queued c [] (report_start c res)
  unfolding report_start
  report_start-Queued c res v =
      Queued-same c (report_start c res) v (ground arith) (ground arith) (ground arith)

  report_counts-Queued :
      (c : Component D) (res : EngineResult) → Tx.IsValid c.tx → Queued c [] (report_counts c res)
  unfolding report_counts
  report_counts-Queued c res v =
      Queued-same c (report_counts c res) v (ground arith) (ground arith) (ground arith)

  report_failure-Queued :
      (c : Component D) (res : EngineResult) → Tx.IsValid c.tx → Queued c [] (report_failure c res)
  unfolding report_failure
  report_failure-Queued c res v =
      Queued-same c (report_failure c res) v (ground arith) (ground arith) (ground arith)

  -- What is published along with a frame does not touch it.
  noted-Queued :
      (c k : Component D) (r : Response)
      → Tx.IsValid c.tx
      → length (Tx.contents c.tx) < 12
      → k.tx ≡ (send c r true).tx
      → k.notified ≡ (send c r true).notified
      → k.has_characteristic ≡ (send c r true).has_characteristic
      → Queued c (frame_of r) k
  noted-Queued c k r v room tx notified charact =
      let sent = send-Queued c r true v room in
      record {
        valid = subst Tx.IsValid (sym tx) sent.valid;
        contents = ap Tx.contents tx ∙ sent.contents;
        notified = notified ∙ sent.notified;
        charact = charact ∙ sent.charact;
      }

  report_complete-Queued :
      (c : Component D) (res : EngineResult)
      → Tx.IsValid c.tx
      → length (Tx.contents c.tx) < 12
      → Queued c (if res.refresh_complete then success_frame ∷ [] else []) (report_complete c res)
  unfolding report_complete encode_ack
  report_complete-Queued c res v room =
      flagged-Queued res.refresh_complete c
        (notify (send c (encode_ack resp_direct_write_refresh_success) true)
          Notice.refresh_complete)
        (success_frame ∷ []) v (noted-Queued c _ success_frame v room refl refl refl)

  report_timeout-Queued :
      (c : Component D) (res : EngineResult)
      → Tx.IsValid c.tx
      → length (Tx.contents c.tx) < 12
      → Queued c (if res.refresh_timeout then timeout_frame ∷ [] else []) (report_timeout c res)
  unfolding report_timeout encode_ack
  report_timeout-Queued c res v room =
      flagged-Queued res.refresh_timeout c
        (report_error (send c (encode_ack resp_direct_write_refresh_timeout) true))
        (timeout_frame ∷ []) v (noted-Queued c _ timeout_frame v room refl refl refl)

  room-Queued :
      (c c' : Component D) (fs : List Response) (n : ℕ)
      → Queued c fs c'
      → length fs ≤ 1
      → length (Tx.contents c.tx) ≤ n
      → length (Tx.contents c'.tx) ≤ n + 1
  room-Queued c c' fs n q one h =
      omega (arith, ap length q.contents, length-append (Tx.contents c.tx) fs)

  -- `apply_result_` with enough room queues the frames that the staged SACK and the result call for,
  -- in this order.
  pub apply_call-Queued :
      (c : Component D) (called : EngineResult × Engine D)
      → Tx.IsValid c.tx
      → length (Tx.contents c.tx) ≤ 6
      → Queued c (frames_of called) (apply_call c called)
  unfolding apply_call apply_result
  apply_call-Queued c (res, e) v h =
      let c0 : Component D = record c { engine = e } in
      let c1 = send_tail c0 in
      let c2 = send_response c1 res in
      let c3 = report_start c2 res in
      let c4 = report_counts c3 res in
      let c5 = report_complete c4 res in
      let c6 = report_timeout c5 res in
      let success = if res.refresh_complete then success_frame ∷ [] else [] in
      let timeout = if res.refresh_timeout then timeout_frame ∷ [] else [] in
      let q1 = send_tail-Queued c0 v (omega (arith, h)) in
      let h1 = room-Queued c0 c1 (tail_of e) 6 q1 (ground arith) h in
      let q2 = send_response-Queued c1 res q1.valid (omega (arith, h1)) in
      let h2 = room-Queued c1 c2 (frame_of res.response) 7 q2 (ground arith) h1 in
      let q3 = report_start-Queued c2 res q2.valid in
      let h3 = room-Queued c2 c3 [] 8 q3 (omega arith) h2 in
      let q4 = report_counts-Queued c3 res q3.valid in
      let h4 = room-Queued c3 c4 [] 9 q4 (omega arith) h3 in
      let q5 = report_complete-Queued c4 res q4.valid (omega (arith, h4)) in
      let h5 = room-Queued c4 c5 success 10 q5 (ground arith) h4 in
      let q6 = report_timeout-Queued c5 res q5.valid (omega (arith, h5)) in
      let q7 = report_failure-Queued c6 res q6.valid in
      let last =
        subst (λ fs. Queued c5 fs (report_failure c6 res)) (append-nil timeout)
          (Queued-then q6 q7) in
      Queued-then (Queued-same c c0 v refl refl refl)
        (Queued-then q1 (Queued-then q2 (Queued-then q3 (Queued-then q4 (Queued-then q5 last)))))
