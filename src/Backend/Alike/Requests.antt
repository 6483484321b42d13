-- ===== src/Backend/Alike/Requests.antt =====
-- The calls of the backend interface, and the replies to some of them.
use od_esphome.Base.{not, ◌&&◌, ℕ, Option, List, Bool, some, true, ◌∷◌, false, [], none, ◌&&◌, not}
use od_esphome.Types.{BackendResult, FrameDescriptor, RefreshRequest, PollResult}
use od_esphome.Backend.{Backend}
use od_esphome.Backend.Epaper.{Epaper}
use od_esphome.Backend.It8951.{It8951}

-- A call of the interface, or something that the display does by itself.
pub data Request (P : Type 0) : Type 0 where
  inits finishes aborts polls : Request P
  takes_scheme takes_ic : ℕ → Request P
  begins : FrameDescriptor → Request P
  writes : ℕ → Option (List ℕ) → ℕ → Request P
  refreshes : RefreshRequest → Request P
  lives : (P → P) → Request P

pub data Reply : Type 0 where
  silent : Reply
  told : Bool → Reply
  answered : BackendResult → Reply
  polled : PollResult → Reply

abbrev pub passes : {P : Type 0} → (P → P) → Option P → Option P
passes f none = none
passes f (some p) = some (f p)

module _ {P D : Type 0} (api : Backend D) (touch : D → (P → P) → D) where
  abbrev pub serve : D → Request P → Reply × D
  serve d Request.inits = let (r, d') = api.init d in (Reply.told r, d')
  serve d Request.finishes = let (r, d') = api.finish_frame d in (Reply.answered r, d')
  serve d Request.polls = let (r, d') = api.poll_refresh d in (Reply.polled r, d')
  serve d Request.aborts = (Reply.silent, api.abort_transfer d)
  serve d (Request.takes_scheme n) = (Reply.silent, api.set_color_scheme d n)
  serve d (Request.takes_ic n) = (Reply.silent, api.set_panel_ic_type d n)
  serve d (Request.begins frame) = let (r, d') = api.begin_frame d frame in (Reply.answered r, d')
  serve d (Request.writes offset bytes len) =
      let (r, d') = api.write_contiguous d offset bytes len in (Reply.answered r, d')
  serve d (Request.refreshes q) = let (r, d') = api.begin_refresh d q in (Reply.answered r, d')
  serve d (Request.lives f) = (Reply.silent, touch d f)

  -- The replies to some requests, in their order.
  abbrev pub replies : D → List (Request P) → List Reply
  replies d [] = []
  replies d (q ∷ qs) = (serve d q).0 ∷ replies (serve d q).1 qs

  abbrev pub served : D → List (Request P) → D
  served d [] = d
  served d (q ∷ qs) = served (serve d q).1 qs

-- Whether a refresh may be in flight behind a request, and whether no request of some asks for the
-- completion of one that may be.
abbrev pub flight : {P : Type 0} → Bool → Request P → Bool
flight b (Request.refreshes q) = true
flight b Request.aborts = false
flight b _ = b

abbrev pub may_ask : {P : Type 0} → Bool → Request P → Bool
may_ask b Request.polls = not b
may_ask b _ = true

abbrev pub never_completed : {P : Type 0} → Bool → List (Request P) → Bool
never_completed b [] = true
never_completed b (q ∷ qs) = may_ask b q && never_completed (flight b q) qs

-- What the display of a backend does by itself.
abbrev pub epaper_lives : {P : Type 0} → Epaper P → (P → P) → Epaper P
epaper_lives b f = record b { display = passes f b.display }

abbrev pub it8951_lives : {P : Type 0} → It8951 P → (P → P) → It8951 P
it8951_lives b f = record b { display = passes f b.display }
