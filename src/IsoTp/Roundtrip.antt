-- ===== src/IsoTp/Roundtrip.antt =====
-- A message cut into frames by the sender comes out whole.
use mathlib.Core.Path.{subst}
use cardiag.Base.{
  append_assoc, Bool, Bool-cases, List, [], ap, arith, drop, false, get_or, inl, inr, leb, leb→le,
  length, length-append, length-drop, length-take, ltb, min, not, refl, suc, sym, take,
  take-append-drop, true, zero, ℕ, ◌%◌, ◌*◌, ◌++◌, ◌+◌, ◌-◌, ◌/◌, ◌<◌, ◌==◌, ◌||◌, ◌∙◌, ◌∷◌, ◌≡◌,
  ◌≤◌, if◌then◌else◌,
}
use cardiag.IsoTp.{IsoTpRx, IsoTpEv, iso_none, iso_done, iso_need_fc, feed_consecutive, iso_tp_feed}

-- The consecutive frames of ISO 15765-2 for the rest of a message, numbered from `sn` on; the last
-- one ends in as much of the padding as it has room for.
unfoldable pub consecutive : List ℕ → ℕ → ℕ → List ℕ → List (List ℕ)
consecutive pad zero sn rest = []
consecutive pad (suc fuel) sn [] = []
consecutive pad (suc fuel) sn (x ∷ xs) =
    let c = take 7 (x ∷ xs) in
    ((32 + sn % 16) ∷ (c ++ take (7 - length c) pad))
    ∷ consecutive pad fuel (sn + 1) (drop 7 (x ∷ xs))

-- All frames of a message of 8 bytes or more.
abbrev pub segments : List ℕ → List ℕ → List (List ℕ)
segments pad m =
    ((16 + length m / 256) ∷ (length m % 256) ∷ take 6 m) ∷ consecutive pad (length m) 1 (drop 6 m)

-- The receiver over a list of frames: what it reports of each, and its state at the end.
unfoldable pub feed_all : IsoTpRx → List (List ℕ) → List IsoTpEv × IsoTpRx
feed_all r [] = ([], r)
feed_all r (f ∷ fs) =
    let (ev, r') = iso_tp_feed r f (length f) in
    let (evs, last) = feed_all r' fs in (ev ∷ evs, last)

-- What a receiver reports of the consecutive frames that carry `left` bytes: the message is done
-- with the last one, and only then.
unfoldable pub reports : ℕ → ℕ → List IsoTpEv
reports zero left = []
reports (suc fuel) left =
    let more = reports fuel (left - 7) in if leb left 7 then iso_done ∷ [] else iso_none ∷ more

take_all : (n : ℕ) (xs : List ℕ) → n ≡ length xs → take n xs ≡ xs
take_all zero [] h = refl
take_all zero (x ∷ xs) h = absurd (omega arith)
take_all (suc n) [] h = refl
take_all (suc n) (x ∷ xs) h = ap (◌∷◌ x) (take_all n xs (omega arith))

taken : IsoTpRx → List ℕ → ℕ → ℕ
taken r d dlc = min (min (r.total - length r.buf) 7) (dlc - 1)

feed_in_order :
    (r : IsoTpRx) (d : List ℕ) (dlc : ℕ)
    → r.active ≡ true
    → (get_or d 0 0 % 16 == r.next_sn) ≡ true
    → feed_consecutive r d dlc ≡ (
      if leb r.total (length r.buf + taken r d dlc) then iso_done else iso_none,
      record r {
        buf = r.buf ++ take (taken r d dlc) (drop 1 d);
        next_sn = (r.next_sn + 1) % 16;
        active = not (leb r.total (length r.buf + taken r d dlc));
      },
    )
unfolding feed_consecutive taken
feed_in_order r d dlc a e = simp (a, e)

take_front : (n : ℕ) (xs ys : List ℕ) → n ≡ length xs → take n (xs ++ ys) ≡ xs
take_front zero [] ys h = refl
take_front zero (x ∷ xs) ys h = absurd (omega arith)
take_front (suc n) [] ys h = absurd (omega arith)
take_front (suc n) (x ∷ xs) ys h = ap (◌∷◌ x) (take_front n xs ys (omega arith))

-- What the receiver reports and is after a consecutive frame, of which `left` bytes were left.
abbrev after_chunk : IsoTpRx → ℕ → List ℕ → ℕ → IsoTpEv × IsoTpRx
after_chunk r sn c left = (
  if leb left 7 then iso_done else iso_none,
  record r { buf = r.buf ++ c; next_sn = (sn + 1) % 16; active = not (leb left 7) },
)

-- A consecutive frame that carries `c`, the next bytes of a message of which `left` are left, and
-- some padding.
feed_chunk :
    (r : IsoTpRx) (sn left : ℕ) (c pads : List ℕ)
    → r.active ≡ true
    → r.next_sn ≡ sn % 16
    → r.total ≡ length r.buf + left
    → length c ≡ min 7 left
    → feed_consecutive r ((32 + sn % 16) ∷ (c ++ pads)) (suc (length (c ++ pads)))
      ≡ after_chunk r sn c left
unfolding taken
feed_chunk r sn left c pads a n t l =
    let d = (32 + sn % 16) ∷ (c ++ pads) in
    let room = length-append c pads in
    let k = taken r d (suc (length (c ++ pads))) in
    let size : k ≡ length c = omega arith in
    let last : leb r.total (length r.buf + k) ≡ leb left 7 = ground arith in
    let same : ((32 + sn % 16) % 16 == r.next_sn) ≡ true = ground arith in
    let sn' : (r.next_sn + 1) % 16 ≡ (sn + 1) % 16 = omega arith in
    let make : List ℕ → ℕ → Bool → IsoTpEv × IsoTpRx = λ b m x.
      (if x then iso_done else iso_none, record r { buf = b; next_sn = m; active = not x }) in
    feed_in_order r d (suc (length (c ++ pads))) a same
    ∙ ap (λ b. make (r.buf ++ b) ((r.next_sn + 1) % 16) (leb r.total (length r.buf + k)))
        (take_front k c pads size)
    ∙ ap (λ m. make (r.buf ++ c) m (leb r.total (length r.buf + k))) sn'
    ∙ ap (λ x. make (r.buf ++ c) ((sn + 1) % 16) x) last

feed_kind :
    (r : IsoTpRx) (d : List ℕ) (dlc : ℕ)
    → get_or d 0 0 / 16 ≡ 2
    → 1 ≤ dlc
    → iso_tp_feed r d dlc ≡ feed_consecutive r d dlc
unfolding iso_tp_feed
feed_kind r d dlc k l = ground arith

empty_of : (xs : List ℕ) → length xs ≡ 0 → xs ≡ []
empty_of [] h = refl
empty_of (x ∷ xs) h = absurd (omega arith)

take_short : (n : ℕ) (xs : List ℕ) → length xs ≤ n → take n xs ≡ xs
take_short zero [] h = refl
take_short zero (x ∷ xs) h = absurd (omega arith)
take_short (suc n) [] h = refl
take_short (suc n) (x ∷ xs) h = ap (◌∷◌ x) (take_short n xs (omega arith))

no_consecutive : (pad : List ℕ) (fuel sn : ℕ) → consecutive pad fuel sn [] ≡ []
unfolding consecutive
no_consecutive pad zero sn = refl
no_consecutive pad (suc fuel) sn = refl

-- What a run of the receiver reports and holds when a message has come out whole.
abbrev Delivers : List IsoTpEv → List ℕ → List IsoTpEv × IsoTpRx → Type 0
Delivers evs m o = (o.0 ≡ evs) × (o.1.buf ≡ m) × (o.1.active ≡ false)

-- The rest of a run, after a frame.
abbrev go_on : IsoTpEv × IsoTpRx → List (List ℕ) → List IsoTpEv × IsoTpRx
go_on q fs = (q.0 ∷ (feed_all q.1 fs).0, (feed_all q.1 fs).1)

-- The receiver over the rest of the message, from any point within it.
feed_all-consecutive :
    (pad : List ℕ) (fuel : ℕ) (r : IsoTpRx) (sn : ℕ) (rest : List ℕ)
    → length rest ≤ fuel
    → 0 < length rest
    → r.active ≡ true
    → r.next_sn ≡ sn % 16
    → r.total ≡ length r.buf + length rest
    → Delivers
        (reports fuel (length rest))
        (r.buf ++ rest)
        (feed_all r (consecutive pad fuel sn rest))
unfolding feed_all consecutive reports
feed_all-consecutive pad zero r sn rest h pos a n t = absurd (omega arith)
feed_all-consecutive pad (suc fuel) r sn [] h pos a n t = absurd (omega arith)
feed_all-consecutive pad (suc fuel) r sn (x ∷ xs) h pos a n t =
    let rest = x ∷ xs in
    let c = take 7 rest in
    let pads = take (7 - length c) pad in
    let lc = length-take 7 rest in
    let ld = length-drop 7 rest in
    let f = (32 + sn % 16) ∷ (c ++ pads) in
    let r' = (after_chunk r sn c (length rest)).1 in
    let step : iso_tp_feed r f (length f) ≡ after_chunk r sn c (length rest) =
      feed_kind r f (length f) (omega arith) (omega arith)
      ∙ feed_chunk r sn (length rest) c pads a n t lc in
    let more = consecutive pad fuel (sn + 1) (drop 7 rest) in
    let whole : c ++ drop 7 rest ≡ rest = take-append-drop 7 rest in
    subst (λ q. Delivers (reports (suc fuel) (length rest)) (r.buf ++ rest) (go_on q more))
      (sym step)
      (elim (Bool-cases (leb (length rest) 7)) [
        | inl e ↦
            let short = leb→le (length rest) 7 e in
            let none_left : more ≡ [] =
              ap (consecutive pad fuel (sn + 1)) (empty_of (drop 7 rest) (omega arith))
              ∙ no_consecutive pad fuel (sn + 1) in
            rw (none_left, e) (refl, ap (◌++◌ r.buf) (take_short 7 rest short), refl)
        | inr e ↦
            let long : 7 < length rest = ground arith in
            let size = length-append r.buf c in
            let (v, b, off) =
              feed_all-consecutive pad fuel r' (sn + 1) (drop 7 rest) (omega arith) (omega arith)
                (ap not e) refl (omega arith) in
            let left : length (drop 7 rest) ≡ length rest - 7 = omega arith in
            (
              v_of e (v ∙ ap (reports fuel) left),
              b ∙ append_assoc r.buf c (drop 7 rest) ∙ ap (◌++◌ r.buf) whole,
              off,
            )
      ])
  where
    v_of :
        {l : List IsoTpEv}
        → leb (length (x ∷ xs)) 7 ≡ false
        → l ≡ reports fuel (length (x ∷ xs) - 7)
        → (if leb (length (x ∷ xs)) 7 then iso_done else iso_none) ∷ l
          ≡ reports (suc fuel) (length (x ∷ xs))
    v_of e v = rw (e, v) refl

feed_first_frame :
    (r : IsoTpRx) (m : List ℕ)
    → 8 ≤ length m
    → length m ≤ 160
    → iso_tp_feed r ((16 + length m / 256) ∷ (length m % 256) ∷ take 6 m) 8
      ≡ (iso_need_fc, record { active = true; total = length m; next_sn = 1; buf = take 6 m })
unfolding iso_tp_feed
feed_first_frame r m h k =
    let d = (16 + length m / 256) ∷ (length m % 256) ∷ take 6 m in
    let total : (16 + length m / 256) % 16 * 256 + length m % 256 ≡ length m = omega arith in
    let fits : (ltb (length m) 8 || ltb 160 (length m)) ≡ false = ground arith in
    let kind0 : ((16 + length m / 256) / 16 == 0) ≡ false = ground arith in
    let kind1 : ((16 + length m / 256) / 16 == 1) ≡ true = ground arith in
    let lt = length-take 6 m in
    let b = take_short 6 (take 6 m) (omega arith) in simp (kind0, kind1, total, fits, b)

-- A message of 8 to 160 bytes that a sender cuts into a first frame and consecutive frames, the last
-- of which it may pad, is received whole, whatever the receiver was doing before: it asks for a flow
-- control once, after the first frame, and reports the message once, after the last one.
pub feed_all-segments :
    (r : IsoTpRx) (m pad : List ℕ)
    → 8 ≤ length m
    → length m ≤ 160
    → ((feed_all r (segments pad m)).0 ≡ iso_need_fc ∷ reports (length m) (length m - 6))
      × ((feed_all r (segments pad m)).1.buf ≡ m)
      × ((feed_all r (segments pad m)).1.active ≡ false)
unfolding feed_all
feed_all-segments r m pad h k =
    let lt = length-take 6 m in
    let ld = length-drop 6 m in
    let r' : IsoTpRx = record { active = true; total = length m; next_sn = 1; buf = take 6 m } in
    let eight : suc (suc (length (take 6 m))) ≡ 8 = omega arith in
    let f = (16 + length m / 256) ∷ (length m % 256) ∷ take 6 m in
    let first : iso_tp_feed r f (suc (suc (length (take 6 m)))) ≡ (iso_need_fc, r') =
      ap (iso_tp_feed r f) eight ∙ feed_first_frame r m h k in
    let (v, b, off) =
      feed_all-consecutive pad (length m) r' 1 (drop 6 m) (omega arith) (omega arith) refl refl
        (omega arith) in
    let more = consecutive pad (length m) 1 (drop 6 m) in
    let left : length (drop 6 m) ≡ length m - 6 = omega arith in
    subst (λ q. Delivers (iso_need_fc ∷ reports (length m) (length m - 6)) m (go_on q more))
      (sym first)
      (ap (◌∷◌ iso_need_fc) (v ∙ ap (reports (length m)) left), b ∙ take-append-drop 6 m, off)
