-- ===== src/Bookend/Seq/Runs.antt =====
-- The flags of a record over a whole run of polls, frames and failed sends.
use cardiag.Base.{
  List, [], arith, false, get_or, if_both, if_split, inl, inr, leb, length, ltb, not, refl, set,
  true, u8, ℕ, ◌&&◌, ◌+◌, ◌-◌, ◌==◌, ◌||◌, ◌∙◌, ◌∷◌, ◌≡◌, Bool,
}
use cardiag.IsoTp.{IsoTpEv, idle_rx, iso_tp_feed, iso_none, iso_done, iso_need_fc, iso_error}
use cardiag.Bookend.{Kind, BookendData, bookend_init}
use cardiag.Bookend.Parse.{at, parse_pid01, parse_stored, parse_pending, parse_m06_results}
use cardiag.Bookend.Seq.{
  BookendTiming, BookendStep, BookendSeq, seq_start, seq_poll, handle_at, handle_message, on_iso_tp,
  seq_on_frame, seq_tx_failed, step_pid01, step_m03, step_m07, step_m06_support, step_m06_mid,
  step_end,
}
use cardiag.Bookend.Seq.Flags.{Open, Honest, finish-Closed}

-- A parser keeps the two flags that only the end of a sequence sets.
record Kept (d e : BookendData) : Type 0 where
  complete : e.complete ≡ d.complete
  no_response : e.no_response ≡ d.no_response

kept : (d : BookendData) → Kept d d
kept d = record { complete = refl; no_response = refl }

parse_pid01-Kept : (d : BookendData) (p : List ℕ) → Kept d (parse_pid01 d p).1
unfolding parse_pid01
parse_pid01-Kept d p = ground arith

parse_stored-Kept : (d : BookendData) (ecu : ℕ) (p : List ℕ) → Kept d (parse_stored d ecu p).1
unfolding parse_stored
parse_stored-Kept d ecu p = ground arith

parse_pending-Kept : (d : BookendData) (ecu : ℕ) (p : List ℕ) → Kept d (parse_pending d ecu p).1
unfolding parse_pending
parse_pending-Kept d ecu p = ground arith

parse_m06_results-Kept :
    (d : BookendData) (ecu : ℕ) (p : List ℕ) → Kept d (parse_m06_results d ecu p).1
unfolding parse_m06_results
parse_m06_results-Kept d ecu p = ground arith

-- What a frame changes leaves a running sequence running, at its step.
data_Open : (s : BookendSeq) (d : BookendData) → Kept s.d d → Open s → Open (record s { d = d })
data_Open s d k o = record {
  running = o.running;
  incomplete = k.complete ∙ o.incomplete;
  responding = k.no_response ∙ o.responding;
  steps = o.steps;
}

handle_at-Open :
    (x : BookendStep) (s : BookendSeq) (ecu : ℕ) (p : List ℕ) → Open s → Open (handle_at x s ecu p)
unfolding handle_at
handle_at-Open step_pid01 s ecu p o = if_both Open _ o (
    data_Open (record s { pid01_ecu0 = true }) (parse_pid01 s.d p).1 (parse_pid01-Kept s.d p)
      (ground arith))
handle_at-Open step_m03 s ecu p o = data_Open s _ (parse_stored-Kept s.d ecu p) o
handle_at-Open step_m07 s ecu p o = data_Open s _ (parse_pending-Kept s.d ecu p) o
handle_at-Open step_m06_support s ecu p o = ground arith
handle_at-Open step_m06_mid s ecu p o =
    if_both Open (leb 2 (length p) && at p 1 == s.req_pid)
      (data_Open s _ (parse_m06_results-Kept s.d ecu p) o) o
handle_at-Open step_end s ecu p o = o

handle_message-Open :
    (s : BookendSeq) (ecu : ℕ) (p : List ℕ) → Open s → Open (handle_message s ecu p)
unfolding handle_message
handle_message-Open s ecu p o =
    if_both Open (ltb (length p) 1 || not (at p 0 == u8 (s.req_mode + 0x40))) o
      (handle_at-Open s.step (record s { any = true }) ecu p (ground arith))

on_iso_tp-Open :
    (ev : IsoTpEv) (s : BookendSeq) (i : ℕ) (buf : List ℕ) → Open s → Open (on_iso_tp ev s i buf)
unfolding on_iso_tp
on_iso_tp-Open iso_need_fc s i buf o = ground arith
on_iso_tp-Open iso_done s i buf o = handle_message-Open s i buf o
on_iso_tp-Open iso_none s i buf o = o
on_iso_tp-Open iso_error s i buf o = o

pub seq_on_frame-Honest :
    (s : BookendSeq) (id : ℕ) (bytes : List ℕ) (dlc now : ℕ)
    → Honest s
    → Honest (seq_on_frame s id bytes dlc now)
unfolding seq_on_frame
seq_on_frame-Honest s id bytes dlc now (inl o) =
    let i = id - 0x7E8 in
    let (ev, r) = iso_tp_feed (get_or s.rx i idle_rx) bytes dlc in
    if_both Honest (not s.inflight || (s.finished || (ltb id 0x7E8 || ltb 0x7EF id))) (inl o) (
      inl (
        on_iso_tp-Open ev (record s { last_rx_ms = now; rx = set s.rx i r }) i r.buf
          (ground arith)))
seq_on_frame-Honest s id bytes dlc now (inr c) =
    if_split Honest (not s.inflight || (s.finished || (ltb id 0x7E8 || ltb 0x7EF id))) (λ h. inr c)
      (λ h. let o = c.over in absurd (ground arith))

pub seq_tx_failed-Honest : (s : BookendSeq) → Honest s → Honest (seq_tx_failed s)
unfolding seq_tx_failed
seq_tx_failed-Honest s (inl o) =
    if_both Honest s.finished (inl o)
      (inr (finish-Closed (record s { inflight = false; tx_failed = true }) (ground arith)))
seq_tx_failed-Honest s (inr c) = if_split Honest s.finished (λ f. inr c) (λ f. let o = c.over in cc)

-- What the firmware does to a sequence.
pub data Op : Type 0 where
  poll : ℕ → Op
  frame : ℕ → List ℕ → ℕ → ℕ → Op
  send_failed : Op

unfoldable pub perform : BookendSeq → Op → BookendSeq
perform s (poll now) = (seq_poll s now).1
perform s (frame id bytes dlc now) = seq_on_frame s id bytes dlc now
perform s send_failed = seq_tx_failed s

unfoldable pub perform_all : BookendSeq → List Op → BookendSeq
perform_all s [] = s
perform_all s (o ∷ os) = perform_all (perform s o) os

pub seq_start-Honest :
    (kind : Kind) (now budget_ms : ℕ) (t : BookendTiming) → Honest (seq_start kind now budget_ms t)
unfolding seq_start bookend_init
seq_start-Honest kind now budget_ms t =
    inl (record { running = refl; incomplete = refl; responding = refl; steps = refl })

-- Whether a frame of the engine's controller was received.
abbrev pub from_engine : Op → Bool
from_engine (poll now) = false
from_engine (frame id bytes dlc now) = id == 0x7E8
from_engine send_failed = false

unfoldable pub heard : List Op → Bool
heard [] = false
heard (o ∷ os) = from_engine o || heard os
