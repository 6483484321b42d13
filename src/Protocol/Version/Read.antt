-- ===== src/Protocol/Version/Read.antt =====
-- A 0x0043 response as a client reads it.
use od_esphome.Base.{
  ℕ, List, Option, take, ◌++◌, ◌≤◌, ◌≡◌, if◌then◌else◌, length, suc, ◌∷◌, some, not, arith, u8,
  ◌==◌, ap, zero, [], ◌||◌, ◌+◌, refl, length-append, none, sym, drop, ◌∙◌,
}
use od_esphome.Wire.{resp_ack, cmd_firmware_version}
use od_esphome.Protocol.Frame.{byte_at}
use od_esphome.Protocol.Response.{Response}
use od_esphome.Protocol.Version.{encode_version, scan_sha, sha_bytes}

pub record Version : Type 0 where
  pub major : ℕ
  pub minor : ℕ
  pub patch : ℕ
  pub sha : List ℕ

-- A client takes the length of the text from byte 4, and the patch level from behind the text.
abbrev pub read_version : Response → Option Version
read_version r =
    let n = byte_at r 4 in
    if not (byte_at r 0 == resp_ack) || not (byte_at r 1 == u8 cmd_firmware_version)
    then none
    else if not (length r == 6 + n)
    then none
    else some (record {
      major = byte_at r 2;
      minor = byte_at r 3;
      patch = byte_at r (5 + n);
      sha = take n (drop 5 r);
    })

scan_sha-lem : (room : ℕ) (sha : List ℕ) → take (scan_sha room sha) sha ≡ take room sha
unfolding scan_sha
scan_sha-lem zero sha = refl
scan_sha-lem (suc room) [] = refl
scan_sha-lem (suc room) (c ∷ sha) = ap (◌∷◌ c) (scan_sha-lem room sha)

length-scan_sha :
    (room : ℕ) (sha : List ℕ) → length (take (scan_sha room sha) sha) ≡ scan_sha room sha
unfolding scan_sha
length-scan_sha zero sha = refl
length-scan_sha (suc room) [] = refl
length-scan_sha (suc room) (c ∷ sha) = ap suc (length-scan_sha room sha)

scan_sha-small : (room : ℕ) (sha : List ℕ) → scan_sha room sha ≤ room
unfolding scan_sha
scan_sha-small zero sha = omega arith
scan_sha-small (suc room) [] = omega arith
scan_sha-small (suc room) (c ∷ sha) = omega (arith, scan_sha-small room sha)

take-length : (xs ys : List ℕ) → take (length xs) (xs ++ ys) ≡ xs
take-length [] ys = refl
take-length (x ∷ xs) ys = ap (◌∷◌ x) (take-length xs ys)

byte_at-length : (xs : List ℕ) (y : ℕ) → byte_at (xs ++ (y ∷ [])) (length xs) ≡ y
byte_at-length [] y = refl
byte_at-length (x ∷ xs) y = byte_at-length xs y

-- The response to 0x0043 is read back as the version numbers and the first 40 bytes of the text.
pub read-encode_version :
    (major minor patch : ℕ) (sha : Option (List ℕ))
    → read_version (encode_version major minor patch sha)
      ≡ some (record { major = major; minor = minor; patch = patch; sha = take 40 (sha_bytes sha) })
unfolding encode_version
read-encode_version major minor patch sha =
    let text = sha_bytes sha in
    let n = scan_sha 40 text in
    let kept = take n text in
    let same = length-scan_sha 40 text in
    let small = scan_sha-small 40 text in
    let fit : u8 n ≡ n = omega (arith, small) in
    let whole : length (kept ++ (patch ∷ [])) ≡ n + 1 =
      omega (arith, length-append kept (patch ∷ []), same) in
    let last : byte_at (kept ++ (patch ∷ [])) n ≡ patch =
      ap (byte_at (kept ++ (patch ∷ []))) (sym same) ∙ byte_at-length kept patch in
    let front : take n (kept ++ (patch ∷ [])) ≡ take 40 text =
      ap (λ k. take k (kept ++ (patch ∷ []))) (sym same)
      ∙ take-length kept (patch ∷ [])
      ∙ scan_sha-lem 40 text in
    ground (arith, fit, whole, last, front)
