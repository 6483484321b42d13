-- ===== src/System/Image/Acknowledged/Session.antt =====
-- What a client hears in a direct transfer, from its START to the end of the refresh.
use mathlib.Core.List.{append_assoc}
use od_esphome.Types.{TransferMode}
use od_esphome.Base.{
  ℕ, List, ◌≡◌, Option, ◌+◌, ◌<◌, some, none, ◌++◌, length, arith, ◌∷◌, [], ◌*◌, ap, ap₂, ◌∙◌, ◌^◌,
  true, false, sym, refl,
}
use od_esphome.Wire.{cmd_direct_write_start}
use od_esphome.Protocol.Frame.{Frame, parse_frame}
use od_esphome.Protocol.Response.{Response, encode_ack}
use od_esphome.Protocol.Msd.{Encoded}
use od_esphome.Backend.{Backend}
use od_esphome.Backend.Driver.{Driver}
use od_esphome.Backend.Epaper.{Epaper, epaper_backend, init}
use od_esphome.Engine.State.{Engine, EngineResult, answer}
use od_esphome.Engine.Calls.{step}
use od_esphome.Engine.Tick.{tick}
use od_esphome.Engine.Invariant.{Inv}
use od_esphome.Engine.Delivery.{length-joined, total, joined}
use od_esphome.Engine.Delivery.Paced.{Underway}
use od_esphome.Component.State.{Component}
use od_esphome.Component.History.{history}
use od_esphome.Component.Visit.{visit}
use od_esphome.Component.Visit.Direct.{start_bytes}
use od_esphome.Component.Answered.{IsQuiet}
use od_esphome.Component.Answered.Queued.{frames_of}
use od_esphome.Component.Answered.Pass.{untail-same, untail}
use od_esphome.Component.Answered.Call.{ticked}
use od_esphome.Component.Answered.Packet.{packet_answered}
use od_esphome.System.Image.{Panel, stride_of}
use od_esphome.System.Image.Beyond.{epaper_ignores}
use od_esphome.System.Image.Client.{chunks_fit}
use od_esphome.System.Image.Epaper.{EpaperReady, EpaperHolds, EpaperShows, epaper-Canvas}
use od_esphome.System.Image.Shown.{init-Ready}
use od_esphome.System.Image.Acknowledged.{data_visits, data_acks, answer_frames}
use od_esphome.System.Image.Acknowledged.Upload.{upload_heard}
use od_esphome.Component.Answered.Living.{Passing, lived, answered_living}
use od_esphome.Backend.Alike.Requests.{epaper_lives}
use od_esphome.Component.Answered.Ended.{StartedRefresh, begun_answered}
use od_esphome.Component.Visit.Direct.{end_bytes}
use od_esphome.Engine.Delivery.Direct.{direct_end-Showing}
use od_esphome.Engine.Delivery.Answers.{end_answer}
use od_esphome.Engine.Direct.{on_direct_end}
use od_esphome.Wire.{cmd_direct_write_end}
use od_esphome.Types.{is_idle}
use od_esphome.Base.{u32}

-- Passes of the loop, each behind a change that the display makes by itself.
abbrev pub display_passes : {P : Type 0} → List (Passing P) → List (Passing (Epaper P))
display_passes [] = []
display_passes ((t, world) ∷ ts) = (t, λ b. epaper_lives b world) ∷ display_passes ts

abbrev end_frame : Frame
end_frame = record { opcode = 114; payload = none; payload_len = 0 }

module _ {P : Type 0} (driver : Driver P) (version : Option (List ℕ)) (width height : ℕ)
    (panel : Panel driver width height) (w : width < 2 ^ 16) (h : height < 2 ^ 16)
    (now_ms timeout : ℕ) (temperature : Encoded) (now_small : now_ms < 2 ^ 32)
    (timeout_fits : (0 < timeout) × (timeout < 2 ^ 31)) where
  abbrev api : Backend (Epaper P)
  api = epaper_backend driver

  abbrev full : ℕ
  full = stride_of width * height

  abbrev Open : Engine (Epaper P) → List ℕ → Type 0
  Open e bs =
      Underway api full (EpaperReady driver width height panel)
        (EpaperHolds driver width height panel) (EpaperShows driver width height panel)
        (epaper-Canvas driver width height panel w h) (epaper_ignores driver) now_ms timeout
        now_small timeout_fits TransferMode.direct e bs

  -- The END of a whole frame is acknowledged by one frame, behind which comes what the refresh
  -- that it starts has to say.
  end_heard :
      (c : Component (Epaper P)) (bs : List ℕ) (d : Epaper P)
      → IsQuiet c
      → Open c.engine bs
      → length bs ≡ full
      → let handled = on_direct_end api c.engine none 0 now_ms in
        let deadline = u32 (now_ms + c.engine.refresh_timeout_ms) in
        handled.1.backend ≡ some d
        → StartedRefresh api version
            (history api version c (visit end_bytes now_ms temperature))
            handled.1
            d
            deadline
            now_ms
            (c.notified ++ (encode_ack cmd_direct_write_end ∷ []))
  unfolding step encode_ack parse_frame
  end_heard c bs d q u whole backend_is =
      let handled = on_direct_end api c.engine none 0 now_ms in
      let (b, same, shows, r) =
        direct_end-Showing api full (EpaperReady driver width height panel)
          (EpaperHolds driver width height panel) (EpaperShows driver width height panel)
          (epaper-Canvas driver width height panel w h) c.engine bs now_ms u.0 whole in
      let (answered_is, tail, deadline_is) =
        end_answer api full (EpaperReady driver width height panel)
          (EpaperHolds driver width height panel) (EpaperShows driver width height panel)
          (epaper-Canvas driver width height panel w h) c.engine bs now_ms u.0 whole in
      let (quiet, engine, said) =
        packet_answered api version c end_bytes end_frame now_ms temperature q (omega arith)
          (omega arith) refl refl in
      let no_tail : handled.1.has_tail_sack ≡ false = tail ∙ q.no_tail in
      let first : frames_of handled ≡ encode_ack cmd_direct_write_end ∷ [] =
        ap (λ (res : EngineResult). frames_of (res, handled.1)) answered_is
        ∙ answer_frames (answer (encode_ack cmd_direct_write_end)) handled.1 refl no_tail in
      let ticks : ticked api handled.1 now_ms ≡ tick api handled.1 now_ms =
        ap (λ e. tick api e now_ms) (untail-same handled.1 no_tail) in
      let later = frames_of (tick api handled.1 now_ms) in
      record {
        quiet = quiet;
        refreshing = record {
          is_backend = backend_is;
          owned = r.owned;
          phase = r.state;
          until = deadline_is;
        };
        no_tail = no_tail;
        engine = engine ∙ ap (λ (k : EngineResult × Engine (Epaper P)). untail k.1) ticks;
        notified =
            said
            ∙ ap₂ (λ (l m : List Response). c.notified ++ (l ++ m)) first (ap frames_of ticks)
            ∙ sym (append_assoc c.notified (encode_ack cmd_direct_write_end ∷ []) later);
      }

  -- The component attends to a connected client that has been sent everything, with an engine in any
  -- state in which the panel is free and that holds no tail SACK, and its epaper_spi backend has
  -- passed `init` with an idle panel of a width and a height below 2 ^ 16. The client writes a direct
  -- START, the chunks of a whole frame, each of 1 to 242 bytes, and an END, and a pass of the loop
  -- follows each write, all at one time; then it writes nothing in some passes at any times, before
  -- each of which the display may change by itself in any way. Then the END leaves a backend that
  -- shows the chunks' image and has started its refresh, and the client is notified of exactly these
  -- frames, in this order: an acknowledgement of the START, one of each chunk, one of the END, and of
  -- the refresh one frame at most, what the passes from that of the END on find in asking that
  -- backend: the success frame, nothing if the refresh has failed, or the timeout frame behind the
  -- deadline. The transaction is idle exactly if one of these passes has found the refresh over. The
  -- driver draws pixels and takes `update` as documented, and the transfer timeout is positive and
  -- below 2 ^ 31.
  pub client_told :
      (c : Component (Epaper P)) (b : Epaper P) (p : P) (cs : List (List ℕ)) (ts : List (Passing P))
      → b.display ≡ some p
      → driver.get_native_width p ≡ width
      → driver.get_native_height p ≡ height
      → driver.is_idle p ≡ true
      → (init driver b).0 ≡ true
      → IsQuiet c
      → Inv c.engine
      → c.engine.backend ≡ some (init driver b).1
      → c.engine.hw_owned ≡ false
      → c.engine.transfer_timeout_ms ≡ timeout
      → chunks_fit cs ≡ true
      → total cs ≡ stride_of width * height
      → let c1 =
          history api version c
            (visit start_bytes now_ms temperature ++ data_visits cs now_ms temperature) in
        let c2 =
          lived api version
            (history api version c1 (visit end_bytes now_ms temperature))
            (display_passes ts)
            temperature in
        let deadline = u32 (now_ms + c1.engine.refresh_timeout_ms) in
        (d : Epaper P) × ((on_direct_end api c1.engine none 0 now_ms).1.backend ≡ some d)
        × EpaperShows driver width height panel d (joined cs)
        × (c2.notified
            ≡ (c.notified ++ (encode_ack cmd_direct_write_start ∷ data_acks cs))
              ++ (encode_ack cmd_direct_write_end
                  ∷ (answered_living api d deadline ((now_ms, λ x. x) ∷ display_passes ts)).0))
        × (is_idle c2.engine.txn.state
            ≡ (answered_living api d deadline ((now_ms, λ x. x) ∷ display_passes ts)).1)
  client_told c b p cs ts shown w_is h_is idle ok q v b_is free same fit whole =
      let ready = init-Ready driver width height panel b p w h shown w_is h_is idle ok in
      let (quiet, opened, said) =
        upload_heard driver version width height panel w h now_ms timeout temperature now_small
          timeout_fits c (init driver b).1 cs q v b_is free same ready fit (omega (arith, whole)) in
      let c1 =
        history api version c
          (visit start_bytes now_ms temperature ++ data_visits cs now_ms temperature) in
      let size : length (joined cs) ≡ full = length-joined cs ∙ whole in
      let last = visit end_bytes now_ms temperature in
      let deadline = u32 (now_ms + c1.engine.refresh_timeout_ms) in
      let (d, d_is, shows, r) =
        direct_end-Showing api full (EpaperReady driver width height panel)
          (EpaperHolds driver width height panel) (EpaperShows driver width height panel)
          (epaper-Canvas driver width height panel w h) c1.engine (joined cs) now_ms opened.0
          size in
      let begun = end_heard c1 (joined cs) d quiet opened size d_is in
      let (heard, over) =
        begun_answered api version (display_passes ts) (history api version c1 last)
          (on_direct_end api c1.engine none 0 now_ms).1 d deadline now_ms
          (c1.notified ++ (encode_ack cmd_direct_write_end ∷ [])) temperature begun in
      let told_later = (answered_living api d deadline ((now_ms, λ x. x) ∷ display_passes ts)).0 in
      (
        d,
        d_is,
        shows,
        heard
            ∙ append_assoc c1.notified (encode_ack cmd_direct_write_end ∷ []) told_later
            ∙ ap (λ (l : List Response). l ++ (encode_ack cmd_direct_write_end ∷ told_later)) said,
        over,
      )
