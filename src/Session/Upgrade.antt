-- ===== src/Session/Upgrade.antt =====
-- `ota` of looktech_glasses_sdk/session.py: when an upgrade starts, and that it ends. The upgrade
-- itself is the OTA client's; `pump` lets the callbacks use the session while it runs.
use edu_glasses_host.Base.{ℕ, true, false, not, ◌||◌, Result}
use edu_glasses_host.Base.Bytes.{Bytes}
use edu_glasses_host.Ota.Image.{parse_image, ImageError}
use edu_glasses_host.Session.{
  SessionError, busy_for_ota, ota_unavailable, bad_firmware, require_connected, poll,
}
use edu_glasses_host.Session.State.{Session, Op, ◌>>=◌, ◌>>◌, get, modify, raise_if, given, map_err}

abbrev pub start_ota : Session → Session
start_ota s = record s { ota_running = true }

abbrev pub to_bad : ImageError → SessionError
to_bad e = bad_firmware

module _ (crc32 : Bytes → ℕ) where
  -- The tests before the upgrade, up to `self._ota_running = True`.
  unfoldable pub begin_ota : Bytes → Op SessionError (Unit {0})
  begin_ota file = do
    require_connected
    poll
    s ← get
    raise_if (s.recording || s.photo_pending) busy_for_ota
    raise_if (not s.has_ota) ota_unavailable
    given (map_err to_bad (parse_image crc32 file))
    modify start_ota

-- The last `finally`.
unfoldable pub end_ota : Session → Session
end_ota s = record s { ota_running = false }

abbrev ended : {A : Type 0} → Result SessionError A × Session → Result SessionError A × Session
ended (r, s) = (r, end_ota s)

module _ (crc32 : Bytes → ℕ) {A : Type 0} where
  -- `ota`, with what the OTA client does to the session while it runs.
  unfoldable pub run_ota : Bytes → Op SessionError A → Op SessionError A
  run_ota file upgrade = begin_ota crc32 file >> (λ s. ended (upgrade s))
