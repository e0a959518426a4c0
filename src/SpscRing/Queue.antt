-- ===== src/SpscRing/Queue.antt =====
-- The ring with its rows is a bounded queue.
use Prim.Native.Nat.{◌∣◌}
use native.Mathlib.Nat.{mod-mod_of_dvd, mod-add-mod, mod-eq_of_lt, mod-eq-sub-mod, mod-lt}
use cardiag.Base.{
  ==_iff, Bool-cases, List, [], ap, arith, drop, false, if◌then◌else◌, inl, inr, ltb, ltb→lt, refl,
  sub32, suc, sym, true, u32, zero, ℕ, ◌%◌, ◌++◌, ◌+◌, ◌-◌, ◌<◌, ◌==◌, ◌^◌, ◌∙◌, ◌∷◌, ◌≡◌, ◌≢◌, ◌≤◌,
}
use cardiag.SpscRing.{SpscRing, spsc_publish, spsc_count, spsc_slot}

-- A ring whose capacity is a power of two, with no more rows than it has slots.
pub record IsValid (r : SpscRing) : Type 0 where
  pub divides : r.cap ∣ 2 ^ 32
  pub some_slot : 0 < r.cap
  pub small : r.cap < 2 ^ 32
  pub head_word : r.head < 2 ^ 32
  pub tail_word : r.tail < 2 ^ 32
  pub fits : spsc_count r ≤ r.cap

pub mod_other : (x d c : ℕ) → 0 < d → d < c → x % c ≢ (x + d) % c
mod_other x d c p l e =
    let r : x % c < c = mod-lt x (omega arith) in
    let s : (x % c + d) % c ≡ (x + d) % c = mod-add-mod x c d in
    let w : (x % c + d) % c ≡ x % c = s ∙ sym e in
    elim (Bool-cases (ltb (x % c + d) c)) [
      | inl b ↦
          let k : (x % c + d) % c ≡ x % c + d = mod-eq_of_lt (ltb→lt _ _ b) in absurd (omega arith)
      | inr b ↦
          let ge : c ≤ x % c + d = ground arith in
          let k : (x % c + d) % c ≡ (x % c + d - c) % c = mod-eq-sub-mod ge in
          let less : x % c + d - c < c = omega arith in
          let j : (x % c + d - c) % c ≡ x % c + d - c = mod-eq_of_lt less in absurd (omega arith)
    ]

pub other : (a b : ℕ) → a ≢ b → (a == b) ≡ false
other a b n = ground (arith, n)

-- The wrap of an index does not show in its slot.
slot_lem : (r : SpscRing) (i : ℕ) → IsValid r → spsc_slot r i ≡ (r.tail + i) % r.cap
slot_lem r i v = mod-mod_of_dvd r.cap (r.tail + i) v.divides

head_slot : (r : SpscRing) → IsValid r → r.head % r.cap ≡ spsc_slot r (spsc_count r)
head_slot r v =
    let h = v.head_word in
    let t = v.tail_word in
    let e : u32 (r.tail + spsc_count r) ≡ r.head = omega arith in ap (λ x. x % r.cap) (sym e)

module _ {ℓ} {A : Type ℓ} where
  -- `n` rows from the `i`-th unconsumed one on.
  abbrev pub rows_from : SpscRing → (ℕ → A) → ℕ → ℕ → List A
  rows_from r rows i zero = []
  rows_from r rows i (suc n) = rows (spsc_slot r i) ∷ rows_from r rows (i + 1) n

  -- The rows that are not consumed, the oldest first.
  abbrev pub contents : SpscRing → (ℕ → A) → List A
  contents r rows = rows_from r rows 0 (spsc_count r)

  -- What the producer does with the slot that it got.
  abbrev pub fill : (ℕ → A) → ℕ → A → ℕ → A
  fill rows slot x i = if i == slot then x else rows i

  filled_keeps :
      (r : SpscRing) (rows : ℕ → A) (x : A) (i n : ℕ)
      → IsValid r
      → spsc_count r < r.cap
      → i + n ≤ spsc_count r
      → rows_from r (fill rows (r.head % r.cap) x) i n ≡ rows_from r rows i n
  filled_keeps r rows x i zero v f l = refl
  filled_keeps r rows x i (suc n) v f l =
      let h = head_slot r v in
      let a = slot_lem r i v in
      let b = slot_lem r (spsc_count r) v in
      let d = mod_other (r.tail + i) (spsc_count r - i) r.cap (omega arith) (omega arith) in
      let e : r.tail + i + (spsc_count r - i) ≡ r.tail + spsc_count r = omega arith in
      let o : (spsc_slot r i == r.head % r.cap) ≡ false =
        other _ _ (λ z. d (sym a ∙ z ∙ h ∙ b ∙ ap (λ y. y % r.cap) (sym e))) in
      rw o (ap (◌∷◌ (rows (spsc_slot r i))) (filled_keeps r rows x (i + 1) n v f (omega arith)))

  rows_from-publish :
      (r : SpscRing) (rows : ℕ → A) (i n : ℕ)
      → rows_from (spsc_publish r) rows i n ≡ rows_from r rows i n
  unfolding spsc_publish
  rows_from-publish r rows i zero = refl
  rows_from-publish r rows i (suc n) =
      ap (◌∷◌ (rows (spsc_slot r i))) (rows_from-publish r rows (i + 1) n)

  rows_from_last :
      (r : SpscRing) (rows : ℕ → A) (i n : ℕ)
      → rows_from r rows i (suc n) ≡ rows_from r rows i n ++ (rows (spsc_slot r (i + n)) ∷ [])
  rows_from_last r rows i zero =
      let e : i ≡ i + 0 = omega arith in ap (λ j. rows (spsc_slot r j) ∷ []) e
  rows_from_last r rows i (suc n) =
      let e : i + 1 + n ≡ i + suc n = omega arith in
      ap (◌∷◌ (rows (spsc_slot r i))) (
        rows_from_last r rows (i + 1) n
        ∙ ap (λ j. rows_from r rows (i + 1) n ++ (rows (spsc_slot r j) ∷ [])) e)

  drop-rows_from :
      (r : SpscRing) (rows : ℕ → A) (i k n : ℕ)
      → k ≤ n
      → drop k (rows_from r rows i n) ≡ rows_from r rows (i + k) (n - k)
  drop-rows_from r rows i zero n l =
      let e : i ≡ i + 0 = omega arith in
      let m : n ≡ n - 0 = omega arith in
      ap (λ j. rows_from r rows j n) e ∙ ap (λ w. rows_from r rows (i + 0) w) m
  drop-rows_from r rows i (suc k) zero l = absurd (omega arith)
  drop-rows_from r rows i (suc k) (suc n) l =
      let e : i + 1 + k ≡ i + suc k = omega arith in
      let m : n - k ≡ suc n - suc k = omega arith in
      drop-rows_from r rows (i + 1) k n (omega arith)
      ∙ ap (λ j. rows_from r rows j (n - k)) e
      ∙ ap (λ w. rows_from r rows (i + suc k) w) m

  rows_from-moved :
      (r : SpscRing) (rows : ℕ → A) (k i n : ℕ)
      → rows_from (record r { tail = u32 (r.tail + k) }) rows i n ≡ rows_from r rows (k + i) n
  rows_from-moved r rows k i zero = refl
  rows_from-moved r rows k i (suc n) =
      let s : u32 (u32 (r.tail + k) + i) ≡ u32 (r.tail + (k + i)) = omega arith in
      let e : k + (i + 1) ≡ k + i + 1 = omega arith in
      rw s (
        ap (◌∷◌ (rows (spsc_slot r (k + i))))
          (rows_from-moved r rows k (i + 1) n ∙ ap (λ j. rows_from r rows j n) e))

  -- The rows after the oldest `n` are given back are those behind them.
  pub contents-spsc_consume :
      (r : SpscRing) (rows : ℕ → A) (k : ℕ)
      → IsValid r
      → k ≤ spsc_count r
      → contents (record r { tail = u32 (r.tail + k) }) rows ≡ drop k (contents r rows)
  contents-spsc_consume r rows k v l =
      let h = v.head_word in
      let t = v.tail_word in
      let c : sub32 r.head (u32 (r.tail + k)) ≡ spsc_count r - k = omega arith in
      let e : k + 0 ≡ 0 + k = omega arith in
      rows_from-moved r rows k 0 (sub32 r.head (u32 (r.tail + k)))
      ∙ ap (λ n. rows_from r rows (k + 0) n) c
      ∙ ap (λ j. rows_from r rows j (spsc_count r - k)) e
      ∙ sym (drop-rows_from r rows 0 k (spsc_count r) l)

  -- A row that the producer writes and publishes is the youngest one, and changes no other.
  pub contents-spsc_publish :
      (r : SpscRing) (rows : ℕ → A) (x : A)
      → IsValid r
      → spsc_count r < r.cap
      → contents (spsc_publish r) (fill rows (r.head % r.cap) x) ≡ contents r rows ++ (x ∷ [])
  unfolding spsc_publish
  contents-spsc_publish r rows x v f =
      let h = v.head_word in
      let t = v.tail_word in
      let s = v.small in
      let c : sub32 (u32 (r.head + 1)) r.tail ≡ suc (spsc_count r) = omega arith in
      let new = fill rows (r.head % r.cap) x in
      let own : (r.head % r.cap == r.head % r.cap) ≡ true = (==_iff _ _).1 refl in
      let z : 0 + spsc_count r ≡ spsc_count r = omega arith in
      let at : r.head % r.cap ≡ spsc_slot r (0 + spsc_count r) =
        head_slot r v ∙ ap (spsc_slot r) (sym z) in
      let last : new (spsc_slot r (0 + spsc_count r)) ≡ x =
        ap new (sym at) ∙ ap (λ b. if b then x else rows (r.head % r.cap)) own in
      rows_from-publish r new 0 (sub32 (u32 (r.head + 1)) r.tail)
      ∙ ap (λ n. rows_from r new 0 n) c
      ∙ rows_from_last r new 0 (spsc_count r)
      ∙ ap (λ y. rows_from r new 0 (spsc_count r) ++ (y ∷ [])) last
      ∙ ap (λ l. l ++ (x ∷ [])) (filled_keeps r rows x 0 (spsc_count r) v f (omega arith))
