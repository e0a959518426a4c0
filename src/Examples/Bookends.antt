-- ===== src/Examples/Bookends.antt =====
-- A message in frames, and a bookend from its start to its end.
use cardiag.Base.{All, List, [], arith, false, refl, true, ℕ, ◌<◌, ◌∷◌, ◌≡◌}
use cardiag.IsoTp.{idle_rx, iso_done, iso_need_fc}
use cardiag.IsoTp.Roundtrip.{reports, segments, feed_all, feed_all-segments}
use cardiag.Bookend.{kind_end}
use cardiag.Bookend.Seq.{BookendTiming, seq_start}
use cardiag.Bookend.Seq.Runs.{Op, poll, frame, send_failed}
use cardiag.Bookend.Seq.Deadline.{PastDeadline, Timed, owed, polls, polls_past}

-- A reply with four stored codes.
abbrev reply : List ℕ
reply = 0x43 ∷ 4 ∷ 1 ∷ 0x71 ∷ 3 ∷ 0x02 ∷ 4 ∷ 0x20 ∷ 0x11 ∷ 0x33 ∷ []

-- The sender fills its last frame with 0xAA.
abbrev fill : List ℕ
fill = 0xAA ∷ 0xAA ∷ 0xAA ∷ 0xAA ∷ 0xAA ∷ 0xAA ∷ []

feed_all-segments_example :
    ((feed_all idle_rx (segments fill reply)).0 ≡ iso_need_fc ∷ reports 10 4)
    × ((feed_all idle_rx (segments fill reply)).1.buf ≡ reply)
    × ((feed_all idle_rx (segments fill reply)).1.active ≡ false)
feed_all-segments_example = feed_all-segments idle_rx reply fill (omega arith) (omega arith)

one_report : reports 10 4 ≡ iso_done ∷ []
unfolding reports
one_report = refl

abbrev timing : BookendTiming
timing = record { quiet_ms = 80; req_max_ms = 600; min_start_ms = 100 }

abbrev trip : List Op
trip =
    poll 1000
    ∷ frame 0x7E8 (6 ∷ 0x41 ∷ 1 ∷ 0x81 ∷ 7 ∷ 0xE5 ∷ 0 ∷ 0 ∷ []) 8 1020
    ∷ poll 1200
    ∷ frame 0x7E8 (2 ∷ 0x43 ∷ 0 ∷ []) 8 1210
    ∷ poll 1300
    ∷ send_failed
    ∷ poll 1400
    ∷ []

start-Timed : Timed (seq_start kind_end 1000 500 timing)
unfolding seq_start
start-Timed = record { deadline = omega arith; some_start = omega arith; small_start = omega arith }

start-owed : owed (seq_start kind_end 1000 500 timing).fc_pending < 1
unfolding seq_start owed
start-owed = omega arith

start-past : All (PastDeadline (seq_start kind_end 1000 500 timing)) (1500 ∷ [])
unfolding seq_start
start-past = ((omega arith, refl), tt)

polls_past_example : (polls (seq_start kind_end 1000 500 timing) (1500 ∷ [])).finished ≡ true
polls_past_example =
    polls_past (seq_start kind_end 1000 500 timing) (1500 ∷ []) start-Timed start-past start-owed
