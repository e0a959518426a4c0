-- ===== src/Examples/Records.antt =====
-- A download of the raw ring, and a session that is reset.
use cardiag.Base.{
  Bool, List, [], ap, arith, false, length, none, refl, replicate, some, true, ℕ, ◌++◌, ◌+◌, ◌∷◌,
  ◌≡◌, codes, All,
}
use cardiag.PollPlan.Hash.{decimal_loop}
use cardiag.Recorder.{Rec, TwaiMessage, recorder_begin, raw_stored, raw_row}
use cardiag.Recorder.Raw.Last.{Offer, frame, freeze, offers, kept, last_of}
use cardiag.Recorder.Csv.{columns, emit_row, raw_header, raw_csv_chunk}
use cardiag.Recorder.Csv.Whole.{download}
use cardiag.Recorder.Csv.Frames.{raw_lines, raw_csv-offers}
use cardiag.Session.{
  Flash, time_none, time_rtc, time_gps, Session, session_begin, session_set_anchor, session_tick,
}
use cardiag.Session.Clock.{Works, Op, perform_all, Later, perform_all-Later, boot, anchor, pass}

abbrev blank : Rec
blank = record { ms = 0; id = 0; dlc = 0; flags = 0; bytes = replicate 8 0 }

abbrev message : ℕ → Bool → TwaiMessage
message id rtr = record {
  identifier = id;
  extd = false;
  rtr = rtr;
  data_length_code = 2;
  bytes = 0x12 ∷ 0xAB ∷ 0 ∷ 0 ∷ 0 ∷ 0 ∷ 0 ∷ 0 ∷ [];
}

abbrev seen : List Offer
seen =
    frame (message 0x1D0 false) 100 true
    ∷ frame (message 0x1D0 true) 110 true
    ∷ frame (message 0x158 false) 120 false
    ∷ frame (message 0x17C false) 130 true
    ∷ freeze true
    ∷ frame (message 0x191 false) 140 true
    ∷ []

seen-kept :
    kept false seen ≡ raw_row (message 0x1D0 false) 100 ∷ raw_row (message 0x17C false) 130 ∷ []
unfolding kept
seen-kept = refl

-- The line of a frame with two bytes.
line : emit_row (raw_row (message 0x17C false) 130) none ≡ codes "130,17C,0,2,12,AB,,,,,,\n"
unfolding emit_row columns decimal_loop
line = refl

raw_csv-offers_example :
    download
      (raw_csv_chunk
        (offers (recorder_begin true true true (λ i. blank) (λ i. (blank, 0))) seen)
        2048)
      (raw_stored (offers (recorder_begin true true true (λ i. blank) (λ i. (blank, 0))) seen) + 2)
      (record { row = 0; header_done = false })
    ≡ some (
        raw_header
        ++ raw_lines (
            last_of
              (recorder_begin true true true (λ i. blank) (λ i. (blank, 0))).raw_cap
              (kept false seen)))
raw_csv-offers_example =
    raw_csv-offers true true (λ i. blank) (λ i. (blank, 0)) seen 2048
      (let n = ap length seen-kept in omega (arith, n)) (omega arith)

-- A board that was started four times.
abbrev fourth : Session
fourth = record {
  stored_boot = 4;
  boot_id = 4;
  device_id = 7;
  anchor_valid = false;
  anchor_epoch = 0;
  anchor_uptime = 0;
  time_source = time_none;
  last_millis = 90;
}

abbrev works : Flash
works = record { read = true; stored = true }

abbrev life : List Op
life =
    pass works 1000
    ∷ anchor 1700000000000 time_gps 1200
    ∷ anchor 1600000000000 time_rtc 1300
    ∷ pass works 2000
    ∷ pass works 500
    ∷ boot works (1 ∷ 2 ∷ 3 ∷ 4 ∷ 5 ∷ 6 ∷ []) 40
    ∷ []

-- The wrap of the clock and the reset each start a session.
life-ids : (perform_all fourth life).boot_id ≡ 6
unfolding perform_all session_set_anchor session_tick session_begin
life-ids = refl

life-Works : All Works life
life-Works = ((refl, refl), (tt, (tt, ((refl, refl), ((refl, refl), ((refl, refl), tt))))))

perform_all-Later_example : Later fourth (perform_all fourth life)
perform_all-Later_example =
    perform_all-Later fourth life life-Works (omega arith)
      (record { stored = refl; unanchored = λ h. refl })

-- A write that fails: the next reset gives the same id again.
write_fails :
    (perform_all fourth (boot (record { read = true; stored = false }) [] 40 ∷ [])).boot_id
    ≡ (perform_all fourth
        (boot (record { read = true; stored = false }) [] 40 ∷ boot works [] 40 ∷ [])).boot_id
unfolding perform_all session_begin
write_fails = refl
