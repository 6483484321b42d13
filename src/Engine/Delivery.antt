-- ===== src/Engine/Delivery.antt =====
-- transfer_engine.cpp under a client that sends a whole frame in order: what is relied on of the
-- backend, and the states that a transfer comes through.
pub mod Direct
pub mod Packets
pub mod Accepting
pub mod Starting
pub mod Answers
pub mod Paced
pub mod Pipe
use od_esphome.Base.{
  ℕ, ◌+◌, ◌≡◌, Bool, true, false, not, ◌&&◌, ◌==◌, Option, List, [], ◌∷◌, length, u8, ◌≤◌, arith,
  ap, ◌++◌, some, ◌∙◌, length-append, refl, ◌<◌, ◌^◌,
}
use od_esphome.Types.{
  State, TransferMode, BackendResult, FrameDescriptor, RefreshRequest, full_refresh,
}
use od_esphome.Backend.{Backend}
use od_esphome.Engine.State.{Engine}
use od_esphome.Engine.Invariant.{Inv}

-- The bytes of some chunks, none of them empty.
abbrev pub total : List (List ℕ) → ℕ
total [] = 0
total (c ∷ cs) = length c + total cs

abbrev pub none_empty : List (List ℕ) → Bool
none_empty [] = true
none_empty (c ∷ cs) = not (length c == 0) && none_empty cs

-- A transfer in progress, with `done` bytes of `size` accepted.
pub record IsOpen {D : Type 0} (e : Engine D) (mode : TransferMode) (size done : ℕ) : Type 0 where
  pub inv : Inv e
  pub state : e.txn.state ≡ State.receiving
  pub mode_is : e.txn.mode ≡ mode
  pub size_is : e.txn.expected_frame_bytes ≡ size
  pub done_is : e.txn.accepted_bytes ≡ done

-- A transfer whose frame is whole and being refreshed.
pub record IsRefreshing {D : Type 0} (e : Engine D) (size : ℕ) : Type 0 where
  pub state : e.txn.state ≡ State.refreshing
  pub owned : e.hw_owned ≡ true
  pub whole : e.txn.accepted_bytes ≡ size

-- The image of some chunks.
abbrev pub joined : List (List ℕ) → List ℕ
joined [] = []
joined (c ∷ cs) = c ++ joined cs

pub length-joined : (cs : List (List ℕ)) → length (joined cs) ≡ total cs
length-joined [] = refl
length-joined (c ∷ cs) = omega (arith, length-append c (joined cs), length-joined cs)

-- A backend that takes a frame of `full` bytes and shows it. `Ready` holds of one that a transfer
-- may be started on, `Holds d bs` of one whose open frame starts with the bytes `bs`, and `Shows d
-- bs` of one that refreshes from `bs`.
pub record Canvas {D : Type 0} (api : Backend D) (full : ℕ) (Ready : D → Type 0)
    (Holds Shows : D → List ℕ → Type 0) : Type 0 where
  pub small : full < 2 ^ 32
  pub sized : (d : D) → Ready d → (api.capabilities d).full_frame_bytes ≡ full
  pub aborts : (d : D) → Ready d → Ready (api.abort_transfer d)
  pub begins :
      (d : D) (frame : FrameDescriptor)
      → Ready d
      → frame.compressed ≡ false
      → frame.partial ≡ false
      → frame.color_scheme ≡ (api.capabilities d).color_scheme
      → frame.total_bytes ≡ full
      → ((api.begin_frame d frame).0 ≡ BackendResult.ok) × Holds (api.begin_frame d frame).1 []
  pub writes :
      (d : D) (bs c : List ℕ)
      → Holds d bs
      → length bs + length c ≤ full
      → let (r, d') = api.write_contiguous d (length bs) (some c) (length c) in
        (r ≡ BackendResult.ok) × Holds d' (bs ++ c)
  pub finishes :
      (d : D) (bs : List ℕ)
      → Holds d bs
      → ((api.finish_frame d).0 ≡ BackendResult.ok) × Holds (api.finish_frame d).1 bs
  pub refreshes :
      (d : D) (bs : List ℕ)
      → Holds d bs
      → let (r, d') = api.begin_refresh d full_refresh in (r ≡ BackendResult.ok) × Shows d' bs

-- A transfer in progress over such a backend.
abbrev pub Painting :
    {D : Type 0} → (D → List ℕ → Type 0) → Engine D → TransferMode → ℕ → List ℕ → Type 0
Painting {D} Holds e mode full bs =
    (d : D) × (e.backend ≡ some d) × Holds d bs × IsOpen e mode full (length bs)

-- The refresh of an image.
abbrev pub Showing : {D : Type 0} → (D → List ℕ → Type 0) → Engine D → List ℕ → Type 0
Showing {D} Shows e bs = (d : D) × (e.backend ≡ some d) × Shows d bs × IsRefreshing e (length bs)
