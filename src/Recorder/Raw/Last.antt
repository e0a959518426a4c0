-- ===== src/Recorder/Raw/Last.antt =====
-- The raw ring holds the last frames, oldest first.
use mathlib.Core.Path.{subst}
use cardiag.Base.{
  Bool, Bool-cases, List, [], ap, append-nil, append_assoc, arith, drop, false, if◌then◌else◌, inl,
  inr, length, length-append, ltb, ltb→lt, not, refl, suc, sym, true, u32, zero, ℕ, ◌++◌, ◌+◌, ◌-◌,
  ◌<◌, ◌==◌, ◌^◌, ◌||◌, ◌∙◌, ◌∷◌, ◌≡◌, ◌≤◌,
}
use cardiag.Recorder.{
  Rec, TwaiMessage, Recorder, recorder_begin, raw_stored, raw_row, note_raw, freeze_raw, raw_base,
  raw_at, raw_rows,
}
use cardiag.Recorder.Raw.{
  IsValid, written, written-IsValid, raw_contents, contents-written_free, contents-written_full,
}

-- What happens to the raw ring: a frame with its time and whether the lock was free, or a freeze.
pub data Offer : Type 0 where
  frame : TwaiMessage → ℕ → Bool → Offer
  freeze : Bool → Offer

abbrev pub offer : Recorder → Offer → Recorder
offer r (frame m ms free) = note_raw r m ms free
offer r (freeze b) = freeze_raw r b

unfoldable pub offers : Recorder → List Offer → Recorder
offers r [] = r
offers r (o ∷ os) = offers (offer r o) os

-- The frames to be kept: those that are not remote requests, come while the ring is not frozen and
-- find the lock free.
unfoldable pub kept : Bool → List Offer → List Rec
kept frozen [] = []
kept frozen (frame m ms free ∷ os) =
    let rest = kept frozen os in if frozen || (m.rtr || not free) then rest else raw_row m ms ∷ rest
kept frozen (freeze b ∷ os) = kept b os

-- The last `n` of a list.
abbrev pub last_of {ℓ} : {A : Type ℓ} → ℕ → List A → List A
last_of n l = drop (length l - n) l

drop-append_short {ℓ} :
    {A : Type ℓ} (n : ℕ) (l m : List A) → n ≤ length l → drop n (l ++ m) ≡ drop n l ++ m
drop-append_short zero l m h = refl
drop-append_short (suc n) [] m h = absurd (omega arith)
drop-append_short (suc n) (x ∷ xs) m h = drop-append_short n xs m (omega arith)

drop-suc {ℓ} : {A : Type ℓ} (n : ℕ) (l : List A) → drop (suc n) l ≡ drop 1 (drop n l)
drop-suc zero l = refl
drop-suc (suc n) [] = refl
drop-suc (suc n) (x ∷ xs) = drop-suc n xs

record Holds (r : Recorder) (q : List Rec) : Type 0 where
  valid : IsValid r
  total : r.raw_total ≡ length q
  rows : raw_contents r ≡ last_of r.raw_cap q

written-Holds :
    (r : Recorder) (q : List Rec) (x : Rec)
    → length q + 1 < 2 ^ 32
    → Holds r q
    → Holds (written r x) (q ++ (x ∷ []))
written-Holds r q x l h =
    let t = h.total in
    let n = length-append q (x ∷ []) in
    let small : r.raw_total + 1 < 2 ^ 32 = omega arith in
    record {
      valid = written-IsValid r x small h.valid;
      total = omega (arith, n, t, small);
      rows = elim (Bool-cases (ltb r.raw_total r.raw_cap)) [
        | inl b ↦
            let free = ltb→lt _ _ b in
            let z : length q - r.raw_cap ≡ 0 = omega arith in
            let y : length (q ++ (x ∷ [])) - r.raw_cap ≡ 0 = omega (arith, n) in
            contents-written_free r x h.valid small free
            ∙ ap (λ c. c ++ (x ∷ [])) (h.rows ∙ ap (λ k. drop k q) z)
            ∙ ap (λ k. drop k (q ++ (x ∷ []))) (sym y)
        | inr b ↦
            let full : r.raw_cap ≤ r.raw_total = ground arith in
            let y : length (q ++ (x ∷ [])) - r.raw_cap ≡ suc (length q - r.raw_cap) =
              omega (arith, n) in
            let s = h.valid.some_slot in
            contents-written_full r x h.valid small full
            ∙ ap (λ c. drop 1 c ++ (x ∷ [])) h.rows
            ∙ ap (λ c. c ++ (x ∷ [])) (sym (drop-suc (length q - r.raw_cap) q))
            ∙ sym (drop-append_short (suc (length q - r.raw_cap)) q (x ∷ []) (omega arith))
            ∙ ap (λ k. drop k (q ++ (x ∷ []))) (sym y)
      ];
    }

same_rows :
    (r : Recorder) (busy : ℕ) (b : Bool) (i n : ℕ)
    → raw_rows (record r { raw_busy = busy; frozen = b }) i n ≡ raw_rows r i n
unfolding raw_base
same_rows r busy b i zero = refl
same_rows r busy b i (suc n) = ap (◌∷◌ (raw_at r i)) (same_rows r busy b (i + 1) n)

-- Nothing about the ring changes.
same-Holds :
    (r : Recorder) (q : List Rec) (busy : ℕ) (b : Bool)
    → Holds r q
    → Holds (record r { raw_busy = busy; frozen = b }) q
same-Holds r q busy b h = record {
  valid = record {
    some_slot = h.valid.some_slot;
    small = h.valid.small;
    head = h.valid.head;
    start = h.valid.start;
    wrapped = h.valid.wrapped;
  };
  total = h.total;
  rows = same_rows r busy b 0 (raw_stored r) ∙ h.rows;
}

-- The frames that a step adds to those kept so far.
abbrev added : Bool → Offer → List Rec
added frozen (frame m ms free) = if frozen || (m.rtr || not free) then [] else raw_row m ms ∷ []
added frozen (freeze b) = []

abbrev frozen_by : Bool → Offer → Bool
frozen_by frozen (frame m ms free) = frozen
frozen_by frozen (freeze b) = b

kept-added :
    (frozen : Bool) (o : Offer) (os : List Offer)
    → kept frozen (o ∷ os) ≡ added frozen o ++ kept (frozen_by frozen o) os
unfolding kept
kept-added frozen (freeze b) os = refl
kept-added frozen (frame m ms free) os =
    let rest = kept frozen os in
    let x = raw_row m ms in
    elim (frozen || (m.rtr || not free))
      as (λ b. (if b then rest else x ∷ rest) ≡ (if b then [] else x ∷ []) ++ rest) [
        | true ↦ refl
        | false ↦ refl
      ]

-- The tests of `recorderNoteRaw`, one by one.
abbrev noted : Recorder → Rec → Bool → Bool → Bool → Recorder
noted r x f rtr free =
    if f || rtr
    then r
    else if not free
    then record r { raw_busy = u32 (r.raw_busy + 1) }
    else written r x

noted-Holds :
    (r : Recorder) (q : List Rec) (x : Rec) (f rtr free : Bool)
    → length q + 1 < 2 ^ 32
    → Holds r q
    → Holds (noted r x f rtr free) (q ++ (if f || (rtr || not free) then [] else x ∷ []))
noted-Holds r q x true rtr free l h = subst (Holds r) (sym (append-nil q)) h
noted-Holds r q x false true free l h = subst (Holds r) (sym (append-nil q)) h
noted-Holds r q x false false false l h =
    let s = record r { raw_busy = u32 (r.raw_busy + 1) } in
    subst (Holds s) (sym (append-nil q)) (same-Holds r q (u32 (r.raw_busy + 1)) r.frozen h)
noted-Holds r q x false false true l h = written-Holds r q x l h

offer-Holds :
    (r : Recorder) (o : Offer) (q : List Rec)
    → length q + 1 < 2 ^ 32
    → Holds r q
    → Holds (offer r o) (q ++ added r.frozen o)
unfolding note_raw
offer-Holds r (freeze b) q l h =
    subst (Holds (freeze_raw r b)) (sym (append-nil q)) (same-Holds r q r.raw_busy b h)
offer-Holds r (frame m ms free) q l h =
    let s = h.valid.some_slot in
    let z : (r.raw_cap == 0) ≡ false = ground arith in
    rw z (noted-Holds r q (raw_row m ms) r.frozen m.rtr free l h)

offer_kept :
    (r : Recorder) (o : Offer)
    → ((offer r o).frozen ≡ frozen_by r.frozen o) × ((offer r o).raw_cap ≡ r.raw_cap)
unfolding note_raw
offer_kept r (freeze b) = (refl, refl)
offer_kept r (frame m ms free) = ground arith

length-kept :
    (frozen : Bool) (os : List Offer) (o : Offer)
    → length (kept frozen (o ∷ os))
      ≡ length (added frozen o) + length (kept (frozen_by frozen o) os)
length-kept frozen os o =
    ap length (kept-added frozen o os)
    ∙ length-append (added frozen o) (kept (frozen_by frozen o) os)

offers-Holds :
    (r : Recorder) (os : List Offer) (q : List Rec)
    → length q + length (kept r.frozen os) + 1 < 2 ^ 32
    → Holds r q
    → Holds (offers r os) (q ++ kept r.frozen os)
unfolding offers kept
offers-Holds r [] q l h = subst (Holds r) (sym (append-nil q)) h
offers-Holds r (o ∷ os) q l h =
    let s = offer r o in
    let a = added r.frozen o in
    let (f, c) = offer_kept r o in
    let n = length-kept r.frozen os o in
    let same : kept s.frozen os ≡ kept (frozen_by r.frozen o) os = ap (λ b. kept b os) f in
    let k = ap length same in
    let m = length-append q a in
    let w =
      offers-Holds s os (q ++ a) (omega (arith, n, k, m, l))
        (offer-Holds r o q (omega (arith, l)) h) in
    let e : q ++ a ++ kept s.frozen os ≡ q ++ kept r.frozen (o ∷ os) =
      append_assoc q a (kept s.frozen os)
      ∙ ap (λ y. q ++ y) (ap (λ y. a ++ y) same ∙ sym (kept-added r.frozen o os)) in
    subst (Holds (offers s os)) e w

-- A recorder that starts with memory for the raw ring.
begin-Holds :
    (psram chg_ok : Bool) (raw : ℕ → Rec) (chg : ℕ → Rec × ℕ)
    → Holds (recorder_begin psram true chg_ok raw chg) []
unfolding recorder_begin
begin-Holds true chg_ok raw chg = record {
  valid = record {
    some_slot = omega arith;
    small = omega arith;
    head = omega arith;
    start = λ e. refl;
    wrapped = λ e. refl;
  };
  total = refl;
  rows = refl;
}
begin-Holds false chg_ok raw chg = record {
  valid = record {
    some_slot = omega arith;
    small = omega arith;
    head = omega arith;
    start = λ e. refl;
    wrapped = λ e. refl;
  };
  total = refl;
  rows = refl;
}

pub offers_cap : (r : Recorder) (os : List Offer) → (offers r os).raw_cap ≡ r.raw_cap
unfolding offers
offers_cap r [] = refl
offers_cap r (o ∷ os) = offers_cap (offer r o) os ∙ (offer_kept r o).1

-- From the start with memory for the raw ring, after any frames and freezes in which fewer than
-- 2^32 - 1 frames were kept, the ring holds the last of them, oldest first, as many as it has slots.
-- The frames kept are those that are no remote requests, came while the ring was not frozen and
-- found the lock free.
pub raw_contents-offers :
    (psram chg_ok : Bool) (raw : ℕ → Rec) (chg : ℕ → Rec × ℕ) (os : List Offer)
    → length (kept false os) + 1 < 2 ^ 32
    → raw_contents (offers (recorder_begin psram true chg_ok raw chg) os)
      ≡ last_of (recorder_begin psram true chg_ok raw chg).raw_cap (kept false os)
unfolding recorder_begin
raw_contents-offers psram chg_ok raw chg os l =
    let r = recorder_begin psram true chg_ok raw chg in
    let h = offers-Holds r os [] (omega arith) (begin-Holds psram chg_ok raw chg) in
    h.rows ∙ ap (λ n. last_of n (kept false os)) (offers_cap r os)
