-- ===== src/SpscRing/Refine.antt =====
-- The ring refines a bounded queue: what does not fit is dropped, and the oldest rows leave first.
use mathlib.Core.Path.{subst}
use cardiag.Base.{
  Bool-cases, List, Option, [], ap, arith, drop, if_split, if◌then◌else◌, inl, inr, leb, length,
  ltb, none, refl, some, suc, sym, u32, zero, ℕ, ◌%◌, ◌++◌, ◌+◌, ◌<◌, ◌∙◌, ◌∷◌, ◌≡◌, ◌≤◌,
}
use cardiag.SpscRing.{SpscRing, spsc_reserve, spsc_publish, spsc_count, spsc_consume}
use cardiag.SpscRing.Queue.{
  IsValid, rows_from, contents, fill, contents-spsc_consume, contents-spsc_publish,
}

drop_past {ℓ} : {A : Type ℓ} (n : ℕ) (xs : List A) → length xs ≤ n → drop n xs ≡ drop (length xs) xs
drop_past zero [] h = refl
drop_past zero (x ∷ xs) h = absurd (omega arith)
drop_past (suc n) [] h = refl
drop_past (suc n) (x ∷ xs) h = drop_past n xs (omega arith)

publish-IsValid : (r : SpscRing) → IsValid r → spsc_count r < r.cap → IsValid (spsc_publish r)
unfolding spsc_publish
publish-IsValid r v f =
    let h = v.head_word in
    let t = v.tail_word in
    let s = v.small in
    record {
      divides = v.divides;
      some_slot = v.some_slot;
      small = v.small;
      head_word = omega arith;
      tail_word = v.tail_word;
      fits = omega arith;
    }

reserve_full : (r : SpscRing) → IsValid r → r.cap ≤ spsc_count r → spsc_reserve r ≡ none
unfolding spsc_reserve
reserve_full r v f = ground arith

reserve_free :
    (r : SpscRing) → IsValid r → spsc_count r < r.cap → spsc_reserve r ≡ some (r.head % r.cap)
unfolding spsc_reserve
reserve_free r v f = let s = v.some_slot in ground arith

publish_cap : (r : SpscRing) → (spsc_publish r).cap ≡ r.cap
unfolding spsc_publish
publish_cap r = refl

moved-IsValid :
    (r : SpscRing) (k : ℕ)
    → IsValid r
    → k ≤ spsc_count r
    → IsValid (record r { tail = u32 (r.tail + k) })
moved-IsValid r k v l =
    let h = v.head_word in
    let t = v.tail_word in
    let f = v.fits in
    record {
      divides = v.divides;
      some_slot = v.some_slot;
      small = v.small;
      head_word = v.head_word;
      tail_word = omega arith;
      fits = omega arith;
    }

-- The ring with its rows.
pub record Log {ℓ} (A : Type ℓ) : Type ℓ where
  pub ring : SpscRing
  pub rows : ℕ → A

-- What the two sides do: the producer reserves, writes and publishes a row, or drops it; the
-- consumer gives rows back.
pub data Op {ℓ} (A : Type ℓ) : Type ℓ where
  append : A → Op A
  consume : ℕ → Op A

module _ {ℓ} {A : Type ℓ} where
  abbrev pub append_at : Log A → A → Option ℕ → Log A
  append_at l x none = l
  append_at l x (some slot) = record { ring = spsc_publish l.ring; rows = fill l.rows slot x }

  unfoldable pub perform : Log A → Op A → Log A
  perform l (append x) = append_at l x (spsc_reserve l.ring)
  perform l (consume n) = record l { ring = spsc_consume l.ring n }

  unfoldable pub perform_all : Log A → List (Op A) → Log A
  perform_all l [] = l
  perform_all l (o ∷ os) = perform_all (perform l o) os

  -- The queue of at most `cap` rows.
  abbrev pub queued : ℕ → List A → Op A → List A
  queued cap q (append x) = if leb cap (length q) then q else q ++ (x ∷ [])
  queued cap q (consume n) = drop n q

  unfoldable pub queued_all : ℕ → List A → List (Op A) → List A
  queued_all cap q [] = q
  queued_all cap q (o ∷ os) = queued_all cap (queued cap q o) os

  abbrev pub rows_of : Log A → List A
  rows_of l = contents l.ring l.rows

  length-rows_from : (r : SpscRing) (rows : ℕ → A) (i n : ℕ) → length (rows_from r rows i n) ≡ n
  length-rows_from r rows i zero = refl
  length-rows_from r rows i (suc n) = ap suc (length-rows_from r rows (i + 1) n)

  -- What a step keeps, and what it does to the rows.
  record Refines (l : Log A) (o : Op A) (l' : Log A) : Type ℓ where
    valid : IsValid l'.ring
    same_cap : l'.ring.cap ≡ l.ring.cap
    rows : rows_of l' ≡ queued l.ring.cap (rows_of l) o

  append-Refines :
      (l : Log A) (x : A) → IsValid l.ring → Refines l (append x) (perform l (append x))
  unfolding perform
  append-Refines l x v =
      let q = rows_of l in
      let n : length q ≡ spsc_count l.ring = length-rows_from l.ring l.rows 0 (spsc_count l.ring) in
      let s = v.some_slot in
      let Does = λ (o : Option ℕ). Refines l (append x) (append_at l x o) in
      elim (Bool-cases (leb l.ring.cap (length q))) [
        | inl full ↦ subst Does (sym (reserve_full l.ring v (ground arith))) (record {
          valid = v;
          same_cap = refl;
          rows = ap (λ b. if b then q else q ++ (x ∷ [])) (sym full);
        })
        | inr free ↦
            let room : spsc_count l.ring < l.ring.cap = ground arith in
            subst Does (sym (reserve_free l.ring v room)) (record {
              valid = publish-IsValid l.ring v room;
              same_cap = publish_cap l.ring;
              rows =
                  contents-spsc_publish l.ring l.rows x v room
                  ∙ ap (λ b. if b then q else q ++ (x ∷ [])) (sym free);
            })
      ]

  consume-Refines :
      (l : Log A) (k : ℕ) → IsValid l.ring → Refines l (consume k) (perform l (consume k))
  unfolding perform spsc_consume
  consume-Refines l k v =
      let c = spsc_count l.ring in
      let n : length (rows_of l) ≡ c = length-rows_from l.ring l.rows 0 c in
      let Does = λ (m : ℕ).
        Refines l (consume k)
          (record l { ring = record l.ring { tail = u32 (l.ring.tail + m) } }) in
      if_split Does (ltb c k)
        (λ more.
          let past : length (rows_of l) ≤ k = ground arith in
          record {
            valid = moved-IsValid l.ring c v (omega arith);
            same_cap = refl;
            rows =
                contents-spsc_consume l.ring l.rows c v (omega arith)
                ∙ ap (λ m. drop m (rows_of l)) (sym n)
                ∙ sym (drop_past k (rows_of l) past);
          })
        (λ some_left.
          let in_it : k ≤ c = ground arith in
          record {
            valid = moved-IsValid l.ring k v in_it;
            same_cap = refl;
            rows = contents-spsc_consume l.ring l.rows k v in_it;
          })

  perform-Refines : (l : Log A) (o : Op A) → IsValid l.ring → Refines l o (perform l o)
  perform-Refines l (append x) v = append-Refines l x v
  perform-Refines l (consume k) v = consume-Refines l k v

  -- Whatever the producer and the consumer of a valid ring do, in any order, its rows are those of
  -- a queue of at most `cap` rows: a row is dropped when and only when the queue is full, rows leave
  -- oldest first, and none is lost, doubled or overwritten, across the wrap of the indexes too.
  pub perform_all-queued_all :
      (l : Log A) (os : List (Op A))
      → IsValid l.ring
      → rows_of (perform_all l os) ≡ queued_all l.ring.cap (rows_of l) os
  unfolding perform_all queued_all
  perform_all-queued_all l [] v = refl
  perform_all-queued_all l (o ∷ os) v =
      let w = perform-Refines l o v in
      perform_all-queued_all (perform l o) os w.valid
      ∙ ap (λ c. queued_all c (rows_of (perform l o)) os) w.same_cap
      ∙ ap (λ q. queued_all l.ring.cap q os) w.rows
