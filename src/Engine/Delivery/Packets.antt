-- ===== src/Engine/Delivery/Packets.antt =====
-- The packets of a pipe transfer, as a client sends them and as they may arrive.
use od_esphome.Base.{
  ℕ, suc, ◌≡◌, true, some, List, [], ◌∷◌, length, u8, refl, Bool, ◌++◌, not, ◌&&◌, ◌==◌, ap,
}
use od_esphome.Engine.Calls.{Call}

-- The DATA packets of some chunks, numbered from `n` modulo 256.
abbrev pub pipe_calls : ℕ → List (List ℕ) → ℕ → List Call
pipe_calls n [] now_ms = []
pipe_calls n (c ∷ cs) now_ms =
    Call.pipe_data (some (u8 n ∷ c)) (suc (length c)) now_ms ∷ pipe_calls (suc n) cs now_ms

-- A chunk, and the packets in front of it that are out of order: duplicates and packets ahead of it,
-- each with its sequence number and its data.
pub record Sent : Type 0 where
  pub strays : List (ℕ × List ℕ)
  pub chunk : List ℕ

abbrev pub stray_calls : List (ℕ × List ℕ) → ℕ → List Call
stray_calls [] now_ms = []
stray_calls ((seq, bytes) ∷ l) now_ms =
    Call.pipe_data (some (seq ∷ bytes)) (suc (length bytes)) now_ms ∷ stray_calls l now_ms

abbrev pub all_stray : ℕ → List (ℕ × List ℕ) → Bool
all_stray n [] = true
all_stray n ((seq, bytes) ∷ l) = not (seq == u8 n) && all_stray n l

-- What a client sends, with the chunks numbered from `n` modulo 256.
abbrev pub sent_calls : ℕ → List Sent → ℕ → List Call
sent_calls n [] now_ms = []
sent_calls n (s ∷ ss) now_ms =
    stray_calls s.strays now_ms
    ++ (Call.pipe_data (some (u8 n ∷ s.chunk)) (suc (length s.chunk)) now_ms
        ∷ sent_calls (suc n) ss now_ms)

abbrev pub strays_are_stray : ℕ → List Sent → Bool
strays_are_stray n [] = true
strays_are_stray n (s ∷ ss) = all_stray n s.strays && strays_are_stray (suc n) ss

abbrev pub chunks : List Sent → List (List ℕ)
chunks [] = []
chunks (s ∷ ss) = s.chunk ∷ chunks ss

abbrev pub unstrayed : List ℕ → Sent
unstrayed c = record { strays = []; chunk = c }

-- The chunks with nothing out of order between them.
abbrev pub quiet : List (List ℕ) → List Sent
quiet [] = []
quiet (c ∷ cs) = unstrayed c ∷ quiet cs

pub chunks-quiet : (cs : List (List ℕ)) → chunks (quiet cs) ≡ cs
chunks-quiet [] = refl
chunks-quiet (c ∷ cs) = ap (◌∷◌ c) (chunks-quiet cs)

pub sent_calls-quiet :
    (cs : List (List ℕ)) (n now_ms : ℕ) → sent_calls n (quiet cs) now_ms ≡ pipe_calls n cs now_ms
sent_calls-quiet [] n now_ms = refl
sent_calls-quiet (c ∷ cs) n now_ms =
    ap (◌∷◌ (Call.pipe_data (some (u8 n ∷ c)) (suc (length c)) now_ms))
      (sent_calls-quiet cs (suc n) now_ms)

pub quiet-stray : (cs : List (List ℕ)) (n : ℕ) → strays_are_stray n (quiet cs) ≡ true
quiet-stray [] n = refl
quiet-stray (c ∷ cs) n = quiet-stray cs (suc n)
