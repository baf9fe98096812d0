-- ===== src/Ota/Link/Firmware/Tests.antt =====
-- An upgrade on concrete bytes: the device asks for one block and takes it.
use edu_glasses_host.Base.{ℕ, List, [], ◌∷◌, ◌++◌, arith}
use edu_glasses_host.Base.Bytes.{Bytes}
use edu_glasses_host.Ota.Link.{Link}
use edu_glasses_host.Ota.Link.Firmware.{upgrade}
use edu_glasses_host.Ota.Link.Firmware.Outcome.{IsSettled, upgrade-IsSettled}

-- A checksum to try it with.
abbrev no_crc : Bytes → ℕ
no_crc input = 0

abbrev file : Bytes
file =
    0 ∷ 0 ∷ 0 ∷ 0 ∷ 0 ∷ 0 ∷ 0 ∷ 0 ∷ 0 ∷ 0 ∷ 0 ∷ 0 ∷ 0 ∷ 0 ∷ 0 ∷ 0 ∷ 72 ∷ 0 ∷ 0 ∷ 0 ∷ 1 ∷ 0 ∷ 0 ∷ 0
    ∷ 0 ∷ 0 ∷ 0 ∷ 0 ∷ 0 ∷ 0 ∷ 0 ∷ 0 ∷ 1 ∷ 64 ∷ 0 ∷ 0 ∷ 0 ∷ 8 ∷ 0 ∷ 0 ∷ 0 ∷ 0 ∷ 0 ∷ 0 ∷ 0 ∷ 0 ∷ 0 ∷ 0
    ∷ 0 ∷ 0 ∷ 0 ∷ 0 ∷ 0 ∷ 0 ∷ 0 ∷ 0 ∷ 0 ∷ 0 ∷ 0 ∷ 0 ∷ 0 ∷ 0 ∷ 0 ∷ 0 ∷ 0 ∷ 0 ∷ 0 ∷ 0 ∷ 0 ∷ 0 ∷ 0 ∷ 0
    ∷ []

-- A packet of the device, in one read.
abbrev reply : ℕ → ℕ → Bytes → List Bytes
reply opcode size payload =
    (0x98 ∷ 0xba ∷ 0xdc ∷ 0xfe ∷ opcode ∷ size ∷ 0 ∷ (payload ++ (0x10 ∷ 0x32 ∷ 0x54 ∷ 0x76 ∷ [])))
    ∷ []

-- The device's information, its consent, the block it asks for first, the answer to that block, the
-- verification and the result.
abbrev link : Link
link = record {
  sn = 0;
  buf = [];
  left = [];
  coming =
      reply 1 20
        (1 ∷ 0 ∷ 0 ∷ 0 ∷ 0 ∷ 0 ∷ 0 ∷ 0 ∷ 0 ∷ 0 ∷ 0 ∷ 0 ∷ 0 ∷ 0 ∷ 0 ∷ 0 ∷ 0 ∷ 0 ∷ 80 ∷ 0 ∷ [])
      ∷ reply 2 4 (2 ∷ 0 ∷ 0 ∷ 0 ∷ [])
      ∷ reply 3 11 (3 ∷ 0 ∷ 0 ∷ 0 ∷ 0 ∷ 0 ∷ 0 ∷ 2 ∷ 0 ∷ 0 ∷ 0 ∷ [])
      ∷ reply 4 11 (4 ∷ 0 ∷ 0 ∷ 0 ∷ 0 ∷ 0 ∷ 0 ∷ 0 ∷ 0 ∷ 0 ∷ 0 ∷ [])
      ∷ reply 5 3 (5 ∷ 0 ∷ 0 ∷ [])
      ∷ reply 6 12 (6 ∷ 0 ∷ 0 ∷ 0 ∷ 0 ∷ 0 ∷ 0 ∷ 0 ∷ 0 ∷ 0 ∷ 0 ∷ 1 ∷ [])
      ∷ [];
  written = [];
}

upgrade-IsSettled_example : IsSettled (upgrade no_crc 8 3 7 3 file link).0
upgrade-IsSettled_example = upgrade-IsSettled no_crc 8 3 7 3 file link (omega arith) (omega arith)
