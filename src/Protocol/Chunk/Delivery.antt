-- ===== src/Protocol/Chunk/Delivery.antt =====
-- The chunks of a 0x0040 read put together again.
use Prim.Native.Nat.add
use od_esphome.Protocol.Chunk.{
  chunk_header, chunk_capacity, chunk_offset, chunk_data, encode_config_chunk,
}
use od_esphome.Base.{
  ℕ, List, take, [], drop, ◌≡◌, ◌+◌, suc, zero, ◌++◌, ap, arith, ◌∷◌, refl, ◌∙◌, length, ◌≤◌, ◌==◌,
  false, Bool-cases, ◌-◌, sym, if◌then◌else◌, length-drop, ltb, leb, inl, take-of-le, inr, ap₂,
  length-take,
}
use od_esphome.Wire.{max_response_data_size}

-- What a client keeps of a chunk: the bytes behind its header.
abbrev pub body : List ℕ → ℕ → List ℕ
body response index = drop (chunk_header index) response

-- The client's buffer after the first `n` chunks.
unfoldable pub assemble : List ℕ → ℕ → List ℕ
assemble blob zero = []
assemble blob (suc i) = assemble blob i ++ body (encode_config_chunk blob i) i

take-nil : (n : ℕ) → take {A = ℕ} n [] ≡ []
take-nil zero = refl
take-nil (suc n) = refl

drop-nil : (n : ℕ) → drop {A = ℕ} n [] ≡ []
drop-nil zero = refl
drop-nil (suc n) = refl

drop-of-le : (n : ℕ) (xs : List ℕ) → length xs ≤ n → drop n xs ≡ []
drop-of-le zero [] h = refl
drop-of-le zero (x ∷ xs) h = absurd (omega arith)
drop-of-le (suc n) [] h = refl
drop-of-le (suc n) (x ∷ xs) h = drop-of-le n xs (omega arith)

take-add : (m n : ℕ) (xs : List ℕ) → take (m + n) xs ≡ take m xs ++ take n (drop m xs)
take-add zero n xs = ap (λ k. take k xs) (omega arith)
take-add (suc m) n [] = rw (take-nil n, take-nil (suc m + n))
take-add (suc m) n (x ∷ xs) = ap (λ k. take k (x ∷ xs)) (add.suc m n) ∙ ap (◌∷◌ x) (take-add m n xs)

take-min :
    (rest cap : ℕ) (xs : List ℕ)
    → rest ≡ length xs
    → take (if ltb rest cap then rest else cap) xs ≡ take cap xs
take-min rest cap xs e = elim (Bool-cases (ltb rest cap)) [
  | inl short ↦
      rw short (take-of-le rest xs (omega (arith, e)) ∙ sym (take-of-le cap xs (ground arith)))
  | inr long ↦ rw long
]

chunk_data-take :
    (blob : List ℕ) (i : ℕ)
    → chunk_data blob i ≡ take (chunk_capacity i) (drop (chunk_offset i) blob)
chunk_data-take blob i =
    take-min (length blob - chunk_offset i) (chunk_capacity i) (drop (chunk_offset i) blob)
      (sym (length-drop (chunk_offset i) blob))

suc_ne : (i : ℕ) → (suc i == 0) ≡ false
suc_ne i = ground arith

exhausted :
    (blob : List ℕ) (i : ℕ)
    → length blob ≤ chunk_offset i
    → drop (chunk_header i) [] ≡ take (chunk_capacity i) (drop (chunk_offset i) blob)
exhausted blob i h =
    drop-nil (chunk_header i)
    ∙ sym (
        ap (take (chunk_capacity i)) (drop-of-le (chunk_offset i) blob h)
        ∙ take-nil (chunk_capacity i))

body-encode :
    (blob : List ℕ) (i : ℕ)
    → body (encode_config_chunk blob i) i ≡ take (chunk_capacity i) (drop (chunk_offset i) blob)
unfolding encode_config_chunk
body-encode blob zero = elim (Bool-cases (leb (length blob) (chunk_offset 0))) [
  | inl over ↦ rw over (exhausted blob 0 (ground arith))
  | inr more ↦ rw more (chunk_data-take blob 0)
]
body-encode blob (suc i) = elim (Bool-cases (leb (length blob) (chunk_offset (suc i)))) [
  | inl over ↦ rw over (exhausted blob (suc i) (ground arith))
  | inr more ↦ rw more (ground (arith, chunk_data-take blob (suc i)))
]

chunk_offset-suc : (i : ℕ) → chunk_offset (suc i) ≡ chunk_offset i + chunk_capacity i
chunk_offset-suc zero = ground arith
chunk_offset-suc (suc i) = ground arith

assemble-take : (blob : List ℕ) (n : ℕ) → assemble blob n ≡ take (chunk_offset n) blob
unfolding assemble
assemble-take blob zero = refl
assemble-take blob (suc i) =
    ap₂ ◌++◌ (assemble-take blob i) (body-encode blob i)
    ∙ sym (
        ap (λ k. take k blob) (chunk_offset-suc i)
        ∙ take-add (chunk_offset i) (chunk_capacity i) blob)

-- When a chunk comes empty, the bodies of the chunks before it make up the whole blob.
pub chunks_deliver :
    (blob : List ℕ) (n : ℕ) → encode_config_chunk blob n ≡ [] → assemble blob n ≡ blob
unfolding encode_config_chunk
chunks_deliver blob n h = assemble-take blob n ∙ take-of-le (chunk_offset n) blob (ground arith)

-- The chunk numbered like the blob's length is empty, so a reader that stops at an empty chunk
-- stops.
pub chunks_end : (blob : List ℕ) → encode_config_chunk blob (length blob) ≡ []
unfolding encode_config_chunk
chunks_end blob = ground arith

length-chunk_data : (blob : List ℕ) (i : ℕ) → length (chunk_data blob i) ≤ chunk_capacity i
length-chunk_data blob i = omega (
  arith,
  ap length (chunk_data-take blob i),
  length-take (chunk_capacity i) (drop (chunk_offset i) blob),
)

-- No chunk is longer than a notification frame.
pub length-encode_config_chunk :
    (blob : List ℕ) (i : ℕ) → length (encode_config_chunk blob i) ≤ max_response_data_size
unfolding encode_config_chunk
length-encode_config_chunk blob zero = ground (arith, length-chunk_data blob 0)
length-encode_config_chunk blob (suc i) = ground (arith, length-chunk_data blob (suc i))
