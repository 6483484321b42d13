-- ===== src/Component/Answered/Queued.antt =====
-- opendisplay.cpp `apply_result_`: the frames that a result of the engine puts into the transmit
-- ring.
use mathlib.Core.Path.{subst}
use mathlib.Core.List.{append-nil, append_assoc}
use od_esphome.Base.{
  ◌≡◌, ◌++◌, ◌∷◌, [], List, length, ◌<◌, Bool, if◌then◌else◌, arith, ap, ◌∙◌, sym, Bool-cases, inl,
  inr,
}
use od_esphome.Protocol.Response.{Response, is_empty}
use od_esphome.Transport.{TxQueue, tx_push}
use od_esphome.Transport.Tx
use od_esphome.Engine.State.{Engine, EngineResult}
use od_esphome.Component.State.{Component}
use od_esphome.Component.Respond.{send}
use od_esphome.Component.Order.{tx_push-fits}
use od_esphome.Component.Answered.{told}
use od_esphome.Transport.{tx_push}

-- An empty response is not sent.
abbrev pub frame_of : Response → List Response
frame_of r = if is_empty r then [] else r ∷ []

-- What a handler leaves to be sent: the staged tail SACK, its answer, and the end of a refresh.
abbrev pub tail_of : {D : Type 0} → Engine D → List Response
tail_of e = if e.has_tail_sack then frame_of e.pending_tail_sack else []

abbrev pub frames_of : {D : Type 0} → EngineResult × Engine D → List Response
frames_of (res, e) = tail_of e ++ (frame_of res.response ++ told res)

tx_push-frame :
    (q : TxQueue) (r : Response) (terminal : Bool)
    → Tx.IsValid q
    → length (Tx.contents q) < 12
    → Tx.IsValid (tx_push q r terminal).1
      × (Tx.contents (tx_push q r terminal).1 ≡ Tx.contents q ++ frame_of r)
tx_push-frame q r terminal v room = elim (Bool-cases (is_empty r)) [
  | inl empty ↦ unfold tx_push in ground (arith, empty, v, append-nil (Tx.contents q))
  | inr full ↦ let fits = tx_push-fits q r terminal v full room in ground (arith, full, fits)
]

module _ {D : Type 0} where
  -- Some frames more are queued, and nothing is sent yet.
  pub record Queued (c : Component D) (fs : List Response) (c' : Component D) : Type 0 where
    pub valid : Tx.IsValid c'.tx
    pub contents : Tx.contents c'.tx ≡ Tx.contents c.tx ++ fs
    pub notified : c'.notified ≡ c.notified
    pub charact : c'.has_characteristic ≡ c.has_characteristic

  pub Queued-then :
      {c c1 c2 : Component D} {fs gs : List Response}
      → Queued c fs c1
      → Queued c1 gs c2
      → Queued c (fs ++ gs) c2
  Queued-then {c} {fs = fs} {gs} p q = record {
    valid = q.valid;
    contents = q.contents ∙ ap (λ l. l ++ gs) p.contents ∙ append_assoc (Tx.contents c.tx) fs gs;
    notified = q.notified ∙ p.notified;
    charact = q.charact ∙ p.charact;
  }

  -- Nothing of these changes.
  pub Queued-same :
      (c c' : Component D)
      → Tx.IsValid c.tx
      → c'.tx ≡ c.tx
      → c'.notified ≡ c.notified
      → c'.has_characteristic ≡ c.has_characteristic
      → Queued c [] c'
  Queued-same c c' v tx notified charact = record {
    valid = subst Tx.IsValid (sym tx) v;
    contents = ap Tx.contents tx ∙ sym (append-nil (Tx.contents c.tx));
    notified = notified;
    charact = charact;
  }

  pub send-Queued :
      (c : Component D) (r : Response) (terminal : Bool)
      → Tx.IsValid c.tx
      → length (Tx.contents c.tx) < 12
      → Queued c (frame_of r) (send c r terminal)
  unfolding send
  send-Queued c r terminal v room =
      let pushed = tx_push-frame c.tx r terminal v room in
      record {
        valid = pushed.0;
        contents = pushed.1;
        notified = ground arith;
        charact = ground arith;
      }
