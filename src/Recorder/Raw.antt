-- ===== src/Recorder/Raw.antt =====
-- What a frame written to the raw ring does to the frames in it.
pub mod Last
use native.Mathlib.Nat.{mod-add-mod, mod-eq_of_lt, mod-lt, mod_self, add-mod_right}
use cardiag.Base.{
  ==_iff, Bool-cases, List, [], ap, arith, drop, inl, inr, refl, suc, sym, u32, zero, ℕ, ◌%◌, ◌++◌,
  ◌+◌, ◌-◌, ◌<◌, ◌==◌, ◌^◌, ◌∙◌, ◌∷◌, ◌≡◌, ◌≢◌, ◌≤◌,
}
use cardiag.SpscRing.Queue.{fill, other, mod_other}
use cardiag.Recorder.{Rec, Recorder, raw_stored, raw_base, raw_at, raw_rows}

-- Where the head is, by the number of frames.
pub record IsValid (r : Recorder) : Type 0 where
  pub some_slot : 0 < r.raw_cap
  pub small : r.raw_cap < 2 ^ 32
  pub head : r.raw_head < r.raw_cap
  pub start : r.raw_total < r.raw_cap → r.raw_head ≡ r.raw_total
  pub wrapped : r.raw_total ≡ r.raw_cap → r.raw_head ≡ 0

abbrev pub written : Recorder → Rec → Recorder
written r x = record r {
  raw = fill r.raw r.raw_head x;
  raw_head = (r.raw_head + 1) % r.raw_cap;
  raw_total = u32 (r.raw_total + 1);
}

pub written-IsValid :
    (r : Recorder) (x : Rec) → r.raw_total + 1 < 2 ^ 32 → IsValid r → IsValid (written r x)
written-IsValid r x l v =
    let s = v.some_slot in
    let h = v.head in
    record {
      some_slot = v.some_slot;
      small = v.small;
      head = mod-lt (r.raw_head + 1) (omega arith);
      start = λ k.
          let e = v.start (omega arith) in
          let m : (r.raw_head + 1) % r.raw_cap ≡ r.raw_head + 1 = mod-eq_of_lt (omega arith) in
          omega arith;
      wrapped = λ k.
          let e = v.start (omega arith) in
          let n : r.raw_head + 1 ≡ r.raw_cap = omega arith in
          ap (λ x. x % r.raw_cap) n ∙ mod_self r.raw_cap;
    }

-- The frames that the ring holds, as the download reads them.
abbrev pub raw_contents : Recorder → List Rec
raw_contents r = raw_rows r 0 (raw_stored r)

raw_rows_last :
    (r : Recorder) (i n : ℕ) → raw_rows r i (suc n) ≡ raw_rows r i n ++ (raw_at r (i + n) ∷ [])
raw_rows_last r i zero = let e : i ≡ i + 0 = omega arith in ap (λ j. raw_at r j ∷ []) e
raw_rows_last r i (suc n) =
    let e : i + 1 + n ≡ i + suc n = omega arith in
    ap (◌∷◌ (raw_at r i))
      (raw_rows_last r (i + 1) n ∙ ap (λ j. raw_rows r (i + 1) n ++ (raw_at r j ∷ [])) e)

-- Rows that agree one by one.
raw_rows_same :
    (r s : Recorder) (d i n : ℕ)
    → ((j : ℕ) → j < i + n → raw_at r j ≡ raw_at s (j + d))
    → raw_rows r i n ≡ raw_rows s (i + d) n
raw_rows_same r s d i zero h = refl
raw_rows_same r s d i (suc n) h =
    let e : i + 1 + d ≡ i + d + 1 = omega arith in
    rw (h i (omega arith)) (
      ap (◌∷◌ (raw_at s (i + d)))
        (raw_rows_same r s d (i + 1) n (λ j l. h j (omega arith)) ∙ ap (λ k. raw_rows s k n) e))

with_last :
    (r : Recorder) (n : ℕ) (q : List Rec) (x : Rec)
    → raw_rows r 0 n ≡ q
    → raw_at r (0 + n) ≡ x
    → raw_rows r 0 (suc n) ≡ q ++ (x ∷ [])
with_last r n q x e h =
    raw_rows_last r 0 n ∙ ap (λ l. l ++ (raw_at r (0 + n) ∷ [])) e ∙ ap (λ y. q ++ (y ∷ [])) h

-- A frame written to a ring with a free slot comes after the others.
module _ (r : Recorder) (x : Rec) (v : IsValid r) (l : r.raw_total + 1 < 2 ^ 32) where
  at_head : (i : ℕ) → i % r.raw_cap ≡ r.raw_head → fill r.raw r.raw_head x (i % r.raw_cap) ≡ x
  at_head i e = let t = (==_iff (i % r.raw_cap) r.raw_head).1 e in rw t refl

  beside_head :
      (i : ℕ)
      → i % r.raw_cap ≢ r.raw_head
      → fill r.raw r.raw_head x (i % r.raw_cap) ≡ r.raw (i % r.raw_cap)
  beside_head i e = let t = other (i % r.raw_cap) r.raw_head e in rw t refl

  pub contents-written_free :
      r.raw_total < r.raw_cap → raw_contents (written r x) ≡ raw_contents r ++ (x ∷ [])
  unfolding raw_base
  contents-written_free f =
      let w = written r x in
      let t = r.raw_total in
      let stored_w : raw_stored w ≡ suc t = ground arith in
      let stored_r : raw_stored r ≡ t = ground arith in
      let base_w : raw_base w ≡ 0 = ground arith in
      let base_r : raw_base r ≡ 0 = ground arith in
      let head = v.start f in
      let same = λ (j : ℕ) (k : j < 0 + t).
        let m : (0 + j) % r.raw_cap ≡ 0 + j = mod-eq_of_lt (omega arith) in
        let z : j ≡ j + 0 = omega arith in
        ap (λ b. fill r.raw r.raw_head x ((b + j) % r.raw_cap)) base_w
        ∙ beside_head (0 + j) (λ e. absurd (omega arith))
        ∙ ap (λ b. r.raw ((b + j) % r.raw_cap)) (sym base_r)
        ∙ ap (raw_at r) z in
      let last_at : (0 + (0 + t)) % r.raw_cap ≡ 0 + (0 + t) = mod-eq_of_lt (omega arith) in
      let last =
        ap (λ b. fill r.raw r.raw_head x ((b + (0 + t)) % r.raw_cap)) base_w
        ∙ at_head (0 + (0 + t)) (omega arith) in
      ap (raw_rows w 0) stored_w
      ∙ with_last w t (raw_contents r) x
          (raw_rows_same w r 0 0 t same ∙ ap (raw_rows r 0) (sym stored_r)) last

  pub contents-written_full :
      r.raw_cap ≤ r.raw_total → raw_contents (written r x) ≡ drop 1 (raw_contents r) ++ (x ∷ [])
  unfolding raw_base
  contents-written_full f =
      let w = written r x in
      let c = r.raw_cap - 1 in
      let some = v.some_slot in
      let in_it = v.head in
      let cap : r.raw_cap ≡ suc c = omega arith in
      let stored_w : raw_stored w ≡ suc c = ground arith in
      let stored_r : raw_stored r ≡ suc c = ground arith in
      let base_w : raw_base w ≡ (r.raw_head + 1) % r.raw_cap = ground arith in
      let base_r : raw_base r ≡ r.raw_head = elim (Bool-cases (r.raw_total == r.raw_cap)) [
        | inl e ↦ let z = v.wrapped ((==_iff _ _).0 e) in ground arith
        | inr e ↦ ground arith
      ] in
      let head : r.raw_head % r.raw_cap ≡ r.raw_head = mod-eq_of_lt in_it in
      let same = λ (j : ℕ) (k : j < 0 + c).
        let m : ((r.raw_head + 1) % r.raw_cap + j) % r.raw_cap
            ≡ (r.raw_head + (j + 1)) % r.raw_cap =
          mod-add-mod (r.raw_head + 1) r.raw_cap j
          ∙ (let z : r.raw_head + 1 + j ≡ r.raw_head + (j + 1) = omega arith in
              ap (λ i. i % r.raw_cap) z) in
        let far = mod_other r.raw_head (j + 1) r.raw_cap (omega arith) (omega arith) in
        ap (λ b. fill r.raw r.raw_head x ((b + j) % r.raw_cap)) base_w
        ∙ ap (fill r.raw r.raw_head x) m
        ∙ beside_head (r.raw_head + (j + 1)) (λ e. far (head ∙ sym e))
        ∙ ap (λ b. r.raw ((b + (j + 1)) % r.raw_cap)) (sym base_r) in
      let round : ((r.raw_head + 1) % r.raw_cap + (0 + c)) % r.raw_cap ≡ r.raw_head =
        mod-add-mod (r.raw_head + 1) r.raw_cap (0 + c)
        ∙ (let z : r.raw_head + 1 + (0 + c) ≡ r.raw_head + r.raw_cap = omega arith in
            ap (λ i. i % r.raw_cap) z)
        ∙ add-mod_right r.raw_head r.raw_cap
        ∙ head in
      let last =
        ap (λ b. fill r.raw r.raw_head x ((b + (0 + c)) % r.raw_cap)) base_w
        ∙ at_head ((r.raw_head + 1) % r.raw_cap + (0 + c)) round in
      ap (raw_rows w 0) stored_w
      ∙ with_last w c (drop 1 (raw_contents r)) x
          (raw_rows_same w r 1 0 c same ∙ ap (λ n. drop 1 (raw_rows r 0 n)) (sym stored_r)) last
