-- ===== src/Protocol/Version.antt =====
-- protocol.cpp `encode_version`, the 0x0043 response. `sha` is a C string: the list of its bytes
-- before the terminating zero, `none` for a null pointer.
pub mod Read
use od_esphome.Base.{ℕ, zero, suc, Option, none, some, List, [], ◌∷◌, ◌++◌, take, u8}
use od_esphome.Wire.{resp_ack, cmd_firmware_version}
use od_esphome.Protocol.Response.{Response}

-- The scan stops at the terminator or at 40 bytes.
unfoldable pub scan_sha : ℕ → List ℕ → ℕ
scan_sha zero sha = 0
scan_sha (suc room) [] = 0
scan_sha (suc room) (c ∷ sha) = suc (scan_sha room sha)

abbrev pub sha_bytes : Option (List ℕ) → List ℕ
sha_bytes none = []
sha_bytes (some sha) = sha

unfoldable pub encode_version : ℕ → ℕ → ℕ → Option (List ℕ) → Response
encode_version major minor patch sha =
    let sha_len = scan_sha 40 (sha_bytes sha) in
    resp_ack
    ∷ u8 cmd_firmware_version
    ∷ major
    ∷ minor
    ∷ u8 sha_len
    ∷ (take sha_len (sha_bytes sha) ++ (patch ∷ []))
