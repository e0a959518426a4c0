-- ===== src/Session.antt =====
-- The identity of a session and its anchor in time, in firmware/src/session.cpp. The boot counter in
-- flash is part of the state.
pub mod Clock
use cardiag.Base.{
  Bool, List, false, get_or, if◌then◌else◌, leb, ltb, true, u32, ℕ, ◌&&◌, ◌*◌, ◌+◌, ◌/◌, ◌==◌,
}

-- `enum SessionTimeSource`
abbrev pub time_none : ℕ
time_none = 0

abbrev pub time_rtc : ℕ
time_rtc = 1

abbrev pub time_ntp : ℕ
time_ntp = 2

abbrev pub time_gps : ℕ
time_gps = 3

-- The variables of the file, and the counter "boot" in flash.
pub record Session : Type 0 where
  pub stored_boot : ℕ
  pub boot_id : ℕ
  pub device_id : ℕ
  pub anchor_valid : Bool
  pub anchor_epoch : ℕ
  pub anchor_uptime : ℕ
  pub time_source : ℕ
  pub last_millis : ℕ

-- The answers of the key-value store to `nextBootId`: whether `getUInt` reads the counter, and
-- whether `putUInt` stores it.
pub record Flash : Type 0 where
  pub read : Bool
  pub stored : Bool

-- `nextBootId`: the new id, from the fallback 0 where the counter is not read.
abbrev pub next_boot_id : Session → Flash → ℕ
next_boot_id s f = u32 ((if f.read then s.stored_boot else 0) + 1)

-- What it leaves in flash; the result of the write is not looked at.
abbrev pub next_stored : Session → Flash → ℕ
next_stored s f = if f.stored then next_boot_id s f else s.stored_boot

-- The device id of a MAC address: its last four bytes, the low one first.
abbrev pub device_id_of : List ℕ → ℕ
device_id_of mac =
    get_or mac 2 0 + get_or mac 3 0 * 256 + get_or mac 4 0 * 65536 + get_or mac 5 0 * 16777216

-- A reset: the variables are cleared, the counter in flash stays.
abbrev pub after_reset : Session → Session
after_reset s = record {
  stored_boot = s.stored_boot;
  boot_id = 0;
  device_id = 0;
  anchor_valid = false;
  anchor_epoch = 0;
  anchor_uptime = 0;
  time_source = time_none;
  last_millis = 0;
}

-- `sessionBegin`
unfoldable pub session_begin : Session → Flash → List ℕ → ℕ → Session
session_begin s f mac now = record s {
  stored_boot = next_stored s f;
  boot_id = next_boot_id s f;
  device_id = device_id_of mac;
  last_millis = now;
}

-- `sessionSetAnchor`: whether the anchor was taken, and the state.
unfoldable pub session_set_anchor : Session → ℕ → ℕ → ℕ → Bool × Session
session_set_anchor s epoch_ms source now =
    if source == time_none
    then (false, s)
    else if s.anchor_valid && ltb source s.time_source
    then (false, s)
    else (
      true,
      record s {
        anchor_epoch = epoch_ms;
        anchor_uptime = now;
        time_source = source;
        anchor_valid = true;
      },
    )

-- `sessionTick`: whether the clock wrapped, and the state.
unfoldable pub session_tick : Session → Flash → ℕ → Bool × Session
session_tick s f now = if leb s.last_millis now then (false, record s { last_millis = now }) else (
  true,
  record s {
    stored_boot = next_stored s f;
    boot_id = next_boot_id s f;
    anchor_valid = false;
    time_source = time_none;
    anchor_epoch = 0;
    anchor_uptime = 0;
    last_millis = now;
  },
)

-- `sessionSnapshotBytesPerSec` and `sessionSnapshotSeconds`; the bytes that can be used are an
-- argument.
abbrev pub session_snapshot_bytes_per_sec : ℕ → ℕ
session_snapshot_bytes_per_sec id_count = u32 (4 + 2 + id_count * 13)

abbrev pub session_snapshot_seconds : ℕ → ℕ → ℕ
session_snapshot_seconds usable id_count =
    if session_snapshot_bytes_per_sec id_count == 0
    then 0
    else u32 (usable / session_snapshot_bytes_per_sec id_count)
