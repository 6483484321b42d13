-- ===== src/Backend/Alike.antt =====
-- backend_epaper_spi.cpp and backend_it8951.cpp side by side: the replies that they give to some calls.
pub mod Requests
pub mod Loops
use od_esphome.Base.{
  sym, not, ◌&&◌, zero, suc, ◌+◌, ◌-◌, ◌*◌, ◌/◌, ◌%◌, u32, ◌∙◌, leb, if◌then◌else◌, ℕ, ◌≡◌, Option,
  List, Bool, some, true, ◌∷◌, false, [], none, arith, ap, refl, ap₂, Option-cases, inl, inr, ◌&&◌,
  not,
}
use od_esphome.Types.{
  BackendResult, FrameDescriptor, RefreshRequest, DisplayCapabilities, PollResult,
}
use od_esphome.Backend.{Backend}
use od_esphome.Backend.Driver.{Driver}
use od_esphome.Backend.Epaper
use od_esphome.Backend.Epaper.{Epaper, epaper_backend, new_epaper}
use od_esphome.Backend.It8951
use od_esphome.Backend.Pixels
use od_esphome.Backend.Pixels.{is_white}
use od_esphome.Protocol.Frame.{byte_at}
use od_esphome.Backend.It8951.{It8951, it8951_backend, new_it8951}
use od_esphome.Backend.Alike.Requests.{
  Request, Reply, serve, served, replies, epaper_lives, it8951_lives, passes, flight, may_ask,
  never_completed,
}
use od_esphome.Backend.Alike.Loops.{draw_bytes-same}

module _ {P : Type 0} (driver : Driver P)
    (update_busy : (p : P)
      → driver.is_idle p ≡ true
      → driver.is_idle (driver.update p) ≡ false) where
  abbrev Alike : Epaper P → It8951 P → Type 0
  Alike a b = (a.display ≡ b.display) × (a.caps ≡ b.caps)

  init-Alike :
      (a : Epaper P) (b : It8951 P)
      → Alike a b
      → ((Epaper.init driver a).0 ≡ (It8951.init driver b).0)
        × Alike (Epaper.init driver a).1 (It8951.init driver b).1
  unfolding Epaper.init Epaper.init_panel It8951.init It8951.init_panel
  init-Alike a b (d, c) = ground (arith, d, c)

  begin_frame-Alike :
      (a : Epaper P) (b : It8951 P) (frame : FrameDescriptor)
      → Alike a b
      → ((Epaper.begin_frame driver a frame).0 ≡ (It8951.begin_frame driver b frame).0)
        × Alike (Epaper.begin_frame driver a frame).1 (It8951.begin_frame driver b frame).1
  unfolding Epaper.begin_frame It8951.begin_frame
  begin_frame-Alike a b frame (d, c) = ground (arith, d, c)

  write-Alike :
      (a : Epaper P) (b : It8951 P) (offset : ℕ) (bytes : Option (List ℕ)) (len : ℕ)
      → Alike a b
      → let (r, a') = Epaper.write_contiguous driver a offset bytes len in
        let (s, b') = It8951.write_contiguous driver b offset bytes len in (r ≡ s) × Alike a' b'
  unfolding Epaper.write_contiguous Epaper.write_panel It8951.write_contiguous It8951.write_panel
  write-Alike a b offset none len l = (refl, l)
  write-Alike a b offset (some bytes) len (d, c) = elim (Option-cases a.display) [
    | inl none_ ↦ ground (arith, d, c, none_)
    | inr (p, some_) ↦
        let same =
          draw_bytes-same driver len p b.caps.row_stride_bytes b.caps.width offset 0 bytes in
        ground (arith, d, c, some_, same)
  ]

  begin_refresh-Alike :
      (a : Epaper P) (b : It8951 P) (q : RefreshRequest)
      → Alike a b
      → let (r, a') = Epaper.begin_refresh driver a q in
        let (s, b') = It8951.begin_refresh driver b q in (r ≡ s) × Alike a' b'
  unfolding Epaper.begin_refresh It8951.begin_refresh
  begin_refresh-Alike a b q (d, c) = elim (Option-cases a.display) [
    | inl none_ ↦ ground (arith, d, c, none_)
    | inr (p, some_) ↦ ground (arith, d, c, some_, update_busy p)
  ]

  -- Neither has started a refresh, if none may be in flight.
  abbrev Settled : Bool → Epaper P → It8951 P → Type 0
  Settled flying a b =
      flying ≡ false → (a.refresh_started ≡ false) × (b.refresh_settle_deadline_ms ≡ 0)

  poll-Alike :
      (a : Epaper P) (b : It8951 P)
      → Alike a b
      → Settled false a b
      → let (r, a') = Epaper.poll_refresh driver a in
        let (s, b') = It8951.poll_refresh driver b in (r ≡ s) × ((a' ≡ a) × (b' ≡ b))
  unfolding Epaper.poll_refresh It8951.poll_refresh
  poll-Alike a b (d, c) settled =
      let (started, deadline) = settled refl in
      elim (Option-cases a.display) [
        | inl none_ ↦ ground (arith, d, c, none_, started, deadline)
        | inr (p, some_) ↦ ground (arith, d, c, some_, started, deadline)
      ]

  init-Settled :
      (a : Epaper P) (b : It8951 P)
      → Alike a b
      → Settled false a b
      → Settled false (Epaper.init driver a).1 (It8951.init driver b).1
  unfolding Epaper.init Epaper.init_panel It8951.init It8951.init_panel
  init-Settled a b (d, c) settled h =
      let (started, deadline) = settled refl in ground (arith, d, c, started, deadline)

  begin_frame-Settled :
      (a : Epaper P) (b : It8951 P) (frame : FrameDescriptor)
      → Alike a b
      → Settled false a b
      → Settled false (Epaper.begin_frame driver a frame).1 (It8951.begin_frame driver b frame).1
  unfolding Epaper.begin_frame It8951.begin_frame
  begin_frame-Settled a b frame (d, c) settled h =
      let (started, deadline) = settled refl in ground (arith, d, c, started, deadline)

  write-Settled :
      (a : Epaper P) (b : It8951 P) (offset : ℕ) (bytes : Option (List ℕ)) (len : ℕ)
      → Alike a b
      → Settled false a b
      → Settled false
          (Epaper.write_contiguous driver a offset bytes len).1
          (It8951.write_contiguous driver b offset bytes len).1
  unfolding Epaper.write_contiguous Epaper.write_panel It8951.write_contiguous It8951.write_panel
  write-Settled a b offset bytes len (d, c) settled h =
      let (started, deadline) = settled refl in ground (arith, d, c, started, deadline)

  serve-Settled :
      (q : Request P) (flying : Bool) (a : Epaper P) (b : It8951 P)
      → Alike a b
      → Settled flying a b
      → may_ask flying q ≡ true
      → Settled
          (flight flying q)
          (serve (epaper_backend driver) epaper_lives a q).1
          (serve (it8951_backend driver) it8951_lives b q).1
  unfolding Epaper.abort_transfer It8951.abort_transfer Epaper.finish_frame It8951.finish_frame
      Epaper.set_color_scheme It8951.set_color_scheme Epaper.set_panel_ic_type
      It8951.set_panel_ic_type
  serve-Settled Request.inits flying a b l settled asks h = init-Settled a b l (λ e. settled h) refl
  serve-Settled Request.finishes flying a b l settled asks h = settled h
  serve-Settled Request.aborts flying a b l settled asks h = (refl, refl)
  serve-Settled Request.polls flying a b l settled asks h =
      let (same, (a_is, b_is)) = poll-Alike a b l (λ e. settled h) in
      (
        ap (λ (k : Epaper P). k.refresh_started) a_is ∙ (settled h).0,
        ap (λ (k : It8951 P). k.refresh_settle_deadline_ms) b_is ∙ (settled h).1,
      )
  serve-Settled (Request.takes_scheme n) flying a b l settled asks h = settled h
  serve-Settled (Request.takes_ic n) flying a b l settled asks h = settled h
  serve-Settled (Request.begins frame) flying a b l settled asks h =
      begin_frame-Settled a b frame l (λ e. settled h) refl
  serve-Settled (Request.writes offset bytes len) flying a b l settled asks h =
      write-Settled a b offset bytes len l (λ e. settled h) refl
  serve-Settled (Request.refreshes q) flying a b l settled asks h = ground (arith, h)
  serve-Settled (Request.lives f) flying a b l settled asks h = settled h

  serve-Alike :
      (q : Request P) (flying : Bool) (a : Epaper P) (b : It8951 P)
      → Alike a b
      → Settled flying a b
      → may_ask flying q ≡ true
      → let (r, a') = serve (epaper_backend driver) epaper_lives a q in
        let (s, b') = serve (it8951_backend driver) it8951_lives b q in (r ≡ s) × Alike a' b'
  unfolding Epaper.abort_transfer It8951.abort_transfer Epaper.finish_frame It8951.finish_frame
      Epaper.set_color_scheme It8951.set_color_scheme Epaper.set_panel_ic_type
      It8951.set_panel_ic_type
  serve-Alike Request.inits flying a b l settled asks =
      let h = init-Alike a b l in (ap Reply.told h.0, h.1)
  serve-Alike Request.finishes flying a b l settled asks = (refl, l)
  serve-Alike Request.polls flying a b l settled asks =
      let quiet : flying ≡ false = ground (arith, asks) in
      let (same, (a_is, b_is)) = poll-Alike a b l (λ e. settled quiet) in
      (
        ap Reply.polled same,
        (
          ap (λ (k : Epaper P). k.display) a_is ∙ l.0 ∙ sym (ap (λ (k : It8951 P). k.display) b_is),
          ap (λ (k : Epaper P). k.caps) a_is ∙ l.1 ∙ sym (ap (λ (k : It8951 P). k.caps) b_is),
        ),
      )
  serve-Alike Request.aborts flying a b l settled asks = (refl, l)
  serve-Alike (Request.takes_scheme n) flying a b (d, c) settled asks =
      (refl, (d, ap (λ (caps : DisplayCapabilities). record caps { color_scheme = n }) c))
  serve-Alike (Request.takes_ic n) flying a b (d, c) settled asks =
      (refl, (d, ap (λ (caps : DisplayCapabilities). record caps { panel_ic_type = n }) c))
  serve-Alike (Request.begins frame) flying a b l settled asks =
      let h = begin_frame-Alike a b frame l in (ap Reply.answered h.0, h.1)
  serve-Alike (Request.writes offset bytes len) flying a b l settled asks =
      let h = write-Alike a b offset bytes len l in (ap Reply.answered h.0, h.1)
  serve-Alike (Request.refreshes q) flying a b l settled asks =
      let h = begin_refresh-Alike a b q l in (ap Reply.answered h.0, h.1)
  serve-Alike (Request.lives f) flying a b (d, c) settled asks = (refl, (ap (passes f) d, c))

  served-Alike :
      (qs : List (Request P)) (flying : Bool) (a : Epaper P) (b : It8951 P)
      → Alike a b
      → Settled flying a b
      → never_completed flying qs ≡ true
      → (replies (epaper_backend driver) epaper_lives a qs
          ≡ replies (it8951_backend driver) it8951_lives b qs)
        × Alike
            (served (epaper_backend driver) epaper_lives a qs)
            (served (it8951_backend driver) it8951_lives b qs)
  served-Alike [] flying a b l settled never = (refl, l)
  served-Alike (q ∷ qs) flying a b l settled never =
      let asks : may_ask flying q ≡ true = ground (arith, never) in
      let later : never_completed (flight flying q) qs ≡ true = ground (arith, never) in
      let h = serve-Alike q flying a b l settled asks in
      let rest =
        served-Alike qs (flight flying q) (serve (epaper_backend driver) epaper_lives a q).1
          (serve (it8951_backend driver) it8951_lives b q).1 h.1
          (serve-Settled q flying a b l settled asks) later in
      (ap₂ ◌∷◌ h.0 rest.0, rest.1)

  -- With a driver that is at work after an `update` that it takes, a new epaper_spi and a new IT8951
  -- backend of the same display cannot be told apart, as long as the completion of a refresh is not
  -- asked for once one has been requested and not aborted: whatever other calls are made of them and
  -- whatever the display does in between, they give the same answers, and their displays and their
  -- capabilities are the same after it.
  pub backends_agree :
      (display : Option P) (qs : List (Request P))
      → never_completed false qs ≡ true
      → let a = served (epaper_backend driver) epaper_lives (new_epaper display) qs in
        let b = served (it8951_backend driver) it8951_lives (new_it8951 display) qs in
        (replies (epaper_backend driver) epaper_lives (new_epaper display) qs
          ≡ replies (it8951_backend driver) it8951_lives (new_it8951 display) qs)
        × ((a.display ≡ b.display) × (a.caps ≡ b.caps))
  backends_agree display qs never =
      served-Alike qs false (new_epaper display) (new_it8951 display) (refl, refl)
        (λ h. (refl, refl)) never
