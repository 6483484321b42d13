-- ===== src/Tests/Image.antt =====
-- The image theorems on a small panel.
use od_esphome.Protocol.Msd.{Encoded}
use od_esphome.Transport.Rx.{empty_rx-IsValid}
use od_esphome.Component.State.{Component}
use od_esphome.Component.History.{history}
use od_esphome.Component.Visit.{IsAttending, visit}
use od_esphome.Component.Visit.Direct.{start_bytes, end_bytes}
use od_esphome.Component.Answered.{IsQuiet}
use od_esphome.Transport.Tx.{empty_tx-IsValid}
use od_esphome.Protocol.Response.{encode_ack}
use od_esphome.System.Image.Acknowledged.{data_visits}
use od_esphome.System.Image.Acknowledged.Session.{client_told, display_passes}
use od_esphome.Component.Answered.Living.{Passing, lived, answered_living}
use od_esphome.Engine.State.{deadline_passed}
use od_esphome.Engine.Direct.{on_direct_end}
use od_esphome.Types.{is_idle, full_refresh}
use od_esphome.Component.Visit.Pipe.{pipe_start_bytes}
use od_esphome.System.Image.PipeClient.{pipe_chunk_visits, client_pipe_image_shown}
use od_esphome.System.Image.Client.{image_visits, client_image_shown}
use od_esphome.Tests.Component.{component_over}
use od_esphome.Base.{
  ℕ, List, Bool, ◌∷◌, false, some, none, refl, if◌then◌else◌, ◌≡◌, [], true, ◌==◌, arith, ◌&&◌,
  ◌++◌, u32, ◌+◌,
}
use od_esphome.Backend.Driver.{Driver}
use od_esphome.Backend.Epaper.{
  Epaper, new_epaper, epaper_backend, init, init_panel, begin_refresh, poll_refresh,
}
use od_esphome.Engine.State.{Engine, construct}
use od_esphome.Engine.Invariant.{construct-Inv}
use od_esphome.Engine.Calls.{Call, run}
use od_esphome.Engine.Delivery.Packets.{Sent, sent_calls}
use od_esphome.Protocol.PipeStart.Request.{request}
use od_esphome.System.Image.{Panel}
use od_esphome.System.Image.Epaper.{EpaperShows}
use od_esphome.System.Image.Shown.{shown_pixel, pipe_image_shown}

-- A frame buffer, and whether the panel is idle.
record Glass : Type 0 where
  pixels : ℕ → ℕ → Bool
  resting : Bool

abbrev paint : Glass → ℕ → ℕ → Bool → Glass
paint g x y white = record g {
  pixels = λ x' y'. if x == x' && y == y' then white else g.pixels x' y';
}

-- Twelve columns and two rows.
abbrev glass_driver : Driver Glass
glass_driver = record {
  is_failed = λ g. false;
  is_unrotated = λ g. true;
  get_native_width = λ g. 12;
  get_native_height = λ g. 2;
  is_idle = λ g. g.resting;
  update = λ g. record g { resting = false };
  draw_pixel_at = paint;
  millis = λ g. 0;
}

abbrev glass_panel : Panel glass_driver 12 2
glass_panel = record {
  screen = record {
    pixel = λ g x y. g.pixels x y;
    drawn = λ g x y x' y' white hx hy hx' hy'. refl;
  };
  draws_idle = λ g x y white. refl;
  update_busy = λ g idle. refl;
  update_pixel = λ g x y. refl;
}

abbrev blank : Epaper Glass
blank = new_epaper (some (record { pixels = λ x y. false; resting = true }))

abbrev start : Engine (Epaper Glass)
start = construct (some (init glass_driver blank).1)

-- The second chunk is also sent too early, and the first sequence number comes again.
abbrev parts : List Sent
parts = record { strays = (0, 7 ∷ []) ∷ []; chunk = 255 ∷ 0 ∷ [] } ∷ []

abbrev first_part : Sent
first_part = record { strays = (1, 255 ∷ 0 ∷ []) ∷ []; chunk = 129 ∷ 16 ∷ [] }

pipe_image_shown_example :
    let p = some (request 8 4 244 4) in
    let e =
      run
        (epaper_backend glass_driver)
        start
        (Call.pipe_start p 10 70 ∷ sent_calls 0 (first_part ∷ parts) 70) in
    shown_pixel glass_driver 12 2 glass_panel e 7 1 ≡ some true
unfolding init init_panel construct
pipe_image_shown_example =
    pipe_image_shown glass_driver 12 2 glass_panel blank
      (record { pixels = λ x y. false; resting = true }) (omega arith) (omega arith) refl refl refl
      refl refl start first_part parts 8 4 244 70 7 1
      (construct-Inv (some (init glass_driver blank).1)) refl refl (omega arith, omega arith)
      (omega arith, omega arith) (omega arith) refl refl refl (omega arith) (omega arith)

-- A component that attends to a client, with an engine over the small panel.
abbrev attending : Component (Epaper Glass)
attending = record (component_over {D = Epaper Glass} start) { connected = true }

attending-IsAttending : IsAttending attending
attending-IsAttending = record {
  drained = record { valid = empty_rx-IsValid; empty = refl };
  connected = refl;
}

client_image_shown_example :
    let c =
      history
        (epaper_backend glass_driver)
        none
        attending
        (image_visits ((129 ∷ 16 ∷ 255 ∷ []) ∷ (0 ∷ []) ∷ []) 70 (Encoded.non_negative 130)) in
    shown_pixel glass_driver 12 2 glass_panel c.engine 11 0 ≡ some true
unfolding init init_panel construct
client_image_shown_example =
    client_image_shown glass_driver none 12 2 glass_panel (omega arith) (omega arith) 70 30000
      (Encoded.non_negative 130) (omega arith) (omega arith, omega arith) attending blank
      (record { pixels = λ x y. false; resting = true }) ((129 ∷ 16 ∷ 255 ∷ []) ∷ (0 ∷ []) ∷ []) 11
      0 refl refl refl refl refl attending-IsAttending
      (construct-Inv (some (init glass_driver blank).1)) refl refl refl refl refl (omega arith)
      (omega arith)

client_pipe_image_shown_example :
    let visits =
      visit (pipe_start_bytes 8 4 244 4) 70 (Encoded.non_negative 130)
      ++ pipe_chunk_visits 0
          ((129 ∷ 16 ∷ 255 ∷ []) ∷ (0 ∷ []) ∷ [])
          70
          (Encoded.non_negative 130) in
    let c = history (epaper_backend glass_driver) none attending visits in
    shown_pixel glass_driver 12 2 glass_panel c.engine 11 0 ≡ some true
unfolding init init_panel construct
client_pipe_image_shown_example =
    client_pipe_image_shown glass_driver none 12 2 glass_panel (omega arith) (omega arith) 70 30000
      (Encoded.non_negative 130) (omega arith) (omega arith, omega arith) attending blank
      (record { pixels = λ x y. false; resting = true }) (129 ∷ 16 ∷ 255 ∷ []) ((0 ∷ []) ∷ []) 8 4
      244 11 0 refl refl refl refl refl attending-IsAttending
      (construct-Inv (some (init glass_driver blank).1)) refl refl refl (omega arith, omega arith)
      (omega arith, omega arith) (omega arith) refl refl (omega arith) (omega arith)

attending-IsQuiet : IsQuiet attending
unfolding init init_panel construct
attending-IsQuiet = record {
  attending = attending-IsAttending;
  charact = refl;
  valid = empty_tx-IsValid;
  sent = refl;
  no_tail = refl;
}

abbrev uploaded : Component (Epaper Glass)
uploaded = history (epaper_backend glass_driver) none attending (
    visit start_bytes 70 (Encoded.non_negative 130)
    ++ data_visits ((129 ∷ 16 ∷ 255 ∷ []) ∷ (0 ∷ []) ∷ []) 70 (Encoded.non_negative 130))

-- The display is at work in two passes and at rest before the third.
abbrev awake : List (Passing Glass)
awake = (80, λ g. g) ∷ (90, λ g. record g { resting = true }) ∷ []

abbrev left_refreshing : Epaper Glass
left_refreshing = (begin_refresh glass_driver (init glass_driver blank).1 full_refresh).1

-- So the third of the passes that ask for the refresh tells the client of its success.
awake-told :
    answered_living
      (epaper_backend glass_driver)
      left_refreshing
      180070
      ((70, λ x. x) ∷ display_passes awake)
    ≡ ((0 ∷ 115 ∷ []) ∷ [], true)
unfolding init init_panel begin_refresh poll_refresh encode_ack answered_living deadline_passed
awake-told = refl

client_told_example :
    let api = epaper_backend glass_driver in
    let temperature = Encoded.non_negative 130 in
    let c2 =
      lived api none
        (history api none uploaded (visit end_bytes 70 temperature))
        (display_passes awake)
        temperature in
    let deadline = u32 (70 + uploaded.engine.refresh_timeout_ms) in
    let answers =
      λ (d : Epaper Glass). answered_living api d deadline ((70, λ x. x) ∷ display_passes awake) in
    (d : Epaper Glass) × ((on_direct_end api uploaded.engine none 0 70).1.backend ≡ some d)
    × EpaperShows glass_driver 12 2 glass_panel d (129 ∷ 16 ∷ 255 ∷ 0 ∷ [])
    × (c2.notified
        ≡ ([] ++ ((0 ∷ 112 ∷ []) ∷ (0 ∷ 113 ∷ []) ∷ (0 ∷ 113 ∷ []) ∷ []))
          ++ ((0 ∷ 114 ∷ []) ∷ (answers d).0))
    × (is_idle c2.engine.txn.state ≡ (answers d).1)
unfolding init init_panel construct encode_ack
client_told_example =
    client_told glass_driver none 12 2 glass_panel (omega arith) (omega arith) 70 30000
      (Encoded.non_negative 130) (omega arith) (omega arith, omega arith) attending blank
      (record { pixels = λ x y. false; resting = true }) ((129 ∷ 16 ∷ 255 ∷ []) ∷ (0 ∷ []) ∷ [])
      awake refl refl refl refl refl attending-IsQuiet
      (construct-Inv (some (init glass_driver blank).1)) refl refl refl refl refl
