-- ===== src/IsoTp.antt =====
-- firmware/src/bookend.cpp and firmware/include/bookend.h: ISO-TP reception. The buffer is the list
-- of the bytes received so far, so its length is the field `len`; a frame is a list of bytes with
-- its `dlc` beside it, and the halves of a byte are its quotient and its remainder by 16.
pub mod Roundtrip
use cardiag.Base.{
  Bool, List, [], drop, false, get_or, if◌then◌else◌, leb, length, ltb, min, not, take, true, ℕ,
  ◌%◌, ◌*◌, ◌++◌, ◌+◌, ◌-◌, ◌/◌, ◌==◌, ◌||◌,
}

abbrev pub iso_tp_max : ℕ
iso_tp_max = 160

-- `enum IsoTpEv`
pub data IsoTpEv : Type 0 where
  iso_none iso_done iso_need_fc iso_error : IsoTpEv

-- `struct IsoTpRx`
pub record IsoTpRx : Type 0 where
  pub active : Bool
  pub total : ℕ
  pub next_sn : ℕ
  pub buf : List ℕ

abbrev pub idle_rx : IsoTpRx
idle_rx = record { active = false; total = 0; next_sn = 0; buf = [] }

abbrev pub stopped : IsoTpRx → IsoTpRx
stopped r = record r { active = false }

-- A single frame.
unfoldable pub feed_single : IsoTpRx → List ℕ → ℕ → IsoTpEv × IsoTpRx
feed_single r d dlc =
    let len = get_or d 0 0 % 16 in
    if len == 0 || (ltb 7 len || ltb dlc (len + 1))
    then (iso_error, stopped r)
    else (iso_done, record r { active = false; buf = take len (drop 1 d) })

-- The first frame of a longer message.
unfoldable pub feed_first : IsoTpRx → List ℕ → ℕ → IsoTpEv × IsoTpRx
feed_first r d dlc =
    let total = get_or d 0 0 % 16 * 256 + get_or d 1 0 in
    if ltb dlc 8 || (ltb total 8 || ltb iso_tp_max total) then (iso_error, stopped r) else (
      iso_need_fc,
      record r { buf = take 6 (drop 2 d); total = total; next_sn = 1; active = true },
    )

-- A consecutive frame.
unfoldable pub feed_consecutive : IsoTpRx → List ℕ → ℕ → IsoTpEv × IsoTpRx
feed_consecutive r d dlc =
    let n = min (min (r.total - length r.buf) 7) (dlc - 1) in
    let buf = r.buf ++ take n (drop 1 d) in
    if not r.active
    then (iso_none, r)
    else if not (get_or d 0 0 % 16 == r.next_sn)
    then (iso_error, stopped r)
    else (
      if leb r.total (length r.buf + n) then iso_done else iso_none,
      record r {
        buf = buf;
        next_sn = (r.next_sn + 1) % 16;
        active = not (leb r.total (length r.buf + n));
      },
    )

-- `isoTpFeed`
unfoldable pub iso_tp_feed : IsoTpRx → List ℕ → ℕ → IsoTpEv × IsoTpRx
unfolding feed_single feed_first feed_consecutive
iso_tp_feed r d dlc =
    let kind = get_or d 0 0 / 16 in
    if ltb dlc 1
    then (iso_none, r)
    else if kind == 0
    then feed_single r d dlc
    else if kind == 1
    then feed_first r d dlc
    else if kind == 2
    then feed_consecutive r d dlc
    else (iso_none, r)
