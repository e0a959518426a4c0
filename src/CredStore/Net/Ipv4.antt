-- ===== src/CredStore/Net/Ipv4.antt =====
-- The addresses of firmware/src/credstore.cpp are exactly the canonical dotted quads.
use mathlib.Core.Path.{subst}
use cardiag.Base.{
  append_assoc, Option, some, none, bind_some, All, replicate, ◌≢◌, All, Bool, List, Option, [], ap,
  arith, bind_some, false, if_split, if◌then◌else◌, length, ltb, ltb→lt, none, not, refl, replicate,
  some, suc, sym, true, zero, ℕ, ◌%◌, ◌*◌, ◌++◌, ◌+◌, ◌/◌, ◌<◌, ◌∙◌, ◌∷◌, ◌≡◌, ◌≢◌, ◌↔◌, append-nil,
  ◌>>=◌,
}
use cardiag.CredStore.Net.{is_digit, octet_loop, octet, dot, parts, be32, cred_parse_ipv4, usable}

-- The text of a number below 256.
abbrev pub octet_text : ℕ → List ℕ
octet_text n =
    if ltb n 10
    then (b'0' + n) ∷ []
    else if ltb n 100
    then (b'0' + n / 10) ∷ (b'0' + n % 10) ∷ []
    else (b'0' + n / 100) ∷ (b'0' + n / 10 % 10) ∷ (b'0' + n % 10) ∷ []

octet_sound :
    (s : List ℕ) (n : ℕ) (rest : List ℕ)
    → octet s ≡ some (n, rest)
    → (n < 256) × (s ≡ octet_text n ++ rest)
unfolding octet octet_loop
octet_sound [] n rest h = absurd (ground arith)
octet_sound (c ∷ []) n rest h = ground arith
octet_sound (c ∷ d ∷ []) n rest h = ground arith
octet_sound (c ∷ d ∷ e ∷ s) n rest h = ground arith

-- A text that does not begin with a digit.
abbrev pub no_digit : List ℕ → Bool
no_digit [] = true
no_digit (c ∷ s) = not (is_digit c)

octet_one :
    (a : ℕ) (rest : List ℕ)
    → a < 10
    → no_digit rest ≡ true
    → octet ((b'0' + a) ∷ rest) ≡ some (a, rest)
unfolding octet octet_loop
octet_one a [] h k = ground arith
octet_one a (c ∷ rest) h k = ground arith

octet_two :
    (a b n : ℕ) (rest : List ℕ)
    → 0 < a
    → a < 10
    → b < 10
    → n ≡ a * 10 + b
    → no_digit rest ≡ true
    → octet ((b'0' + a) ∷ (b'0' + b) ∷ rest) ≡ some (n, rest)
unfolding octet octet_loop
octet_two a b n [] p h k e r = ground arith
octet_two a b n (c ∷ rest) p h k e r = ground arith

octet_three :
    (a b c n : ℕ) (rest : List ℕ)
    → 0 < a
    → a < 10
    → b < 10
    → c < 10
    → n ≡ a * 100 + b * 10 + c
    → n < 256
    → octet ((b'0' + a) ∷ (b'0' + b) ∷ (b'0' + c) ∷ rest) ≡ some (n, rest)
unfolding octet octet_loop
octet_three a b c n rest p h k l e r = ground arith

octet_complete :
    (n : ℕ) (rest : List ℕ)
    → n < 256
    → no_digit rest ≡ true
    → octet (octet_text n ++ rest) ≡ some (n, rest)
octet_complete n rest h k =
    let Reads = λ (s : List ℕ). octet (s ++ rest) ≡ some (n, rest) in
    if_split Reads (ltb n 10) (λ l. octet_one n rest (ltb→lt _ _ l) k)
      (λ l.
        if_split Reads (ltb n 100)
          (λ m.
            octet_two (n / 10) (n % 10) n rest (ground arith) (ground arith) (omega arith)
              (omega arith) k)
          (λ m.
            octet_three (n / 100) (n / 10 % 10) (n % 10) n rest (ground arith) (omega arith)
              (omega arith) (omega arith) (omega arith) h))

abbrev pub lead : Bool → List ℕ
lead true = []
lead false = b'.' ∷ []

-- The dotted text of the parts.
unfoldable pub quad_text : Bool → List ℕ → List ℕ
quad_text first [] = []
quad_text first (a ∷ out) = lead first ++ (octet_text a ++ quad_text false out)

abbrev pub Byte : ℕ → Type 0
Byte n = n < 256

-- Four bytes that are neither all zeros nor all ones.
pub record Quad (out : List ℕ) : Type 0 where
  pub four : length out ≡ 4
  pub bytes : All Byte out
  pub some_one : out ≢ replicate 4 0
  pub some_zero : out ≢ replicate 4 255

dot_sound : (s r : List ℕ) → dot s ≡ some r → s ≡ b'.' ∷ r
unfolding dot
dot_sound [] r h = ground arith
dot_sound (c ∷ s) r h = ground arith

lead_sound :
    (first : Bool) (s q : List ℕ) → (if first then some s else dot s) ≡ some q → s ≡ lead first ++ q
lead_sound true s q h = ground arith
lead_sound false s q h = dot_sound s q h

-- What `parts` has read when it succeeds.
record Read (n : ℕ) (first : Bool) (s out rest : List ℕ) : Type 0 where
  count : length out ≡ n
  small : All Byte out
  text : s ≡ quad_text first out ++ rest

Read-step :
    (n : ℕ) (first : Bool) (s q : List ℕ) (a : ℕ) (r out rest : List ℕ)
    → s ≡ lead first ++ q
    → a < 256
    → q ≡ octet_text a ++ r
    → Read n false r out rest
    → Read (suc n) first s (a ∷ out) rest
unfolding quad_text
Read-step n first s q a r out rest e l f w = record {
  count = ap suc w.count;
  small = (l, w.small);
  text =
      e
      ∙ ap (λ x. lead first ++ x)
          (f
            ∙ ap (λ x. octet_text a ++ x) w.text
            ∙ sym (append_assoc (octet_text a) (quad_text false out) rest))
      ∙ sym (append_assoc (lead first) (octet_text a ++ quad_text false out) rest);
}

parts_sound :
    (n : ℕ) (first : Bool) (s out rest : List ℕ)
    → parts n first s ≡ some (out, rest)
    → Read n first s out rest
unfolding parts quad_text
parts_sound zero first s out rest h =
    let x : out ≡ [] = ground arith in
    let y : s ≡ rest = ground arith in
    subst (λ o. Read 0 first s o rest) (sym x) (record { count = refl; small = tt; text = y })
parts_sound (suc n) first s out rest h =
    let (q, e, h1) = bind_some (if first then some s else dot s) _ _ h in
    let ((a, r), e2, h2) = bind_some (octet q) _ _ h1 in
    let ((out', rest'), e3, h3) = bind_some (parts n false r) _ _ h2 in
    let (l, f) = octet_sound q a r e2 in
    let w =
      Read-step n first s q a r out' rest' (lead_sound first s q e) l f
        (parts_sound n false r out' rest' e3) in
    subst
      (λ (o : Option (List ℕ × List ℕ)). elim o [
        | none ↦ Unit
        | some p ↦ Read (suc n) first s p.0 p.1
      ])
      h3 w

dot_lem : (s : List ℕ) → dot (b'.' ∷ s) ≡ some s
unfolding dot
dot_lem s = refl

lead_complete :
    (first : Bool) (q : List ℕ)
    → (if first then some (lead first ++ q) else dot (lead first ++ q)) ≡ some q
lead_complete true q = refl
lead_complete false q = dot_lem q

no_digit-quad_text :
    (out rest : List ℕ) → no_digit rest ≡ true → no_digit (quad_text false out ++ rest) ≡ true
unfolding quad_text
no_digit-quad_text [] rest h = h
no_digit-quad_text (a ∷ out) rest h = refl

parts_complete :
    (first : Bool) (out rest : List ℕ)
    → All Byte out
    → no_digit rest ≡ true
    → parts (length out) first (quad_text first out ++ rest) ≡ some (out, rest)
unfolding parts quad_text
parts_complete first [] rest l h = refl
parts_complete first (a ∷ out) rest l h =
    let tail = quad_text false out ++ rest in
    let e =
      append_assoc (lead first) (octet_text a ++ quad_text false out) rest
      ∙ ap (λ x. lead first ++ x) (append_assoc (octet_text a) (quad_text false out) rest) in
    rw e (
      rw (lead_complete first (octet_text a ++ tail)) (
        rw (octet_complete a tail l.0 (no_digit-quad_text out rest h))
          (rw (parts_complete false out rest l.1 h) refl)))

zeros : (out : List ℕ) → length out ≡ 4 → be32 0 out ≡ 0 → out ≡ replicate 4 0
zeros (a ∷ b ∷ c ∷ d ∷ []) l h = ground arith
zeros _ l h = absurd (ground arith)

ones :
    (out : List ℕ) → length out ≡ 4 → All Byte out → be32 0 out ≡ 0xFFFFFFFF → out ≡ replicate 4 255
ones (a ∷ b ∷ c ∷ d ∷ []) l s h = ground arith
ones _ l s h = absurd (ground arith)

usable_sound :
    (v out out' rest : List ℕ)
    → Read 4 true v out' rest
    → usable out' rest ≡ some out
    → Quad out × (v ≡ quad_text true out)
unfolding usable
usable_sound v out out' (c ∷ rest) w h = absurd (ground arith)
usable_sound v out out' [] w h =
    let e : out' ≡ out = ground arith in
    let n : 0 < be32 0 out' = ground arith in
    let m : be32 0 out' ≢ 0xFFFFFFFF = λ z. absurd (ground arith) in
    let q : Quad out' = record {
      four = w.count;
      bytes = w.small;
      some_one = λ z. let y : be32 0 out' ≡ 0 = ap (be32 0) z in absurd (omega arith);
      some_zero = λ z. m (ap (be32 0) z);
    } in
    subst (λ o. Quad o × (v ≡ quad_text true o)) e (q, w.text ∙ append-nil (quad_text true out'))

usable_complete : (out : List ℕ) → Quad out → usable out [] ≡ some out
unfolding usable
usable_complete out q =
    let n : be32 0 out ≢ 0 = λ z. q.some_one (zeros out q.four z) in
    let m : be32 0 out ≢ 0xFFFFFFFF = λ z. q.some_zero (ones out q.four q.bytes z) in ground arith

-- The parser accepts exactly the canonical dotted quads, and gives their four bytes: each part is
-- below 256 and has no leading zero, nothing follows, and 0.0.0.0 and 255.255.255.255 are refused.
pub cred_parse_ipv4_iff :
    (v out : List ℕ) → (cred_parse_ipv4 v ≡ some out) ↔ (Quad out × (v ≡ quad_text true out))
unfolding cred_parse_ipv4
cred_parse_ipv4_iff v out = (
  λ h.
      let ((out', rest), e, k) = bind_some (parts 4 true v) _ _ h in
      usable_sound v out out' rest (parts_sound 4 true v out' rest e) k,
  λ (q, e).
      let x = parts_complete true out [] q.bytes refl in
      rw (e ∙ sym (append-nil (quad_text true out))) (
        subst (λ n. (parts n true (quad_text true out ++ []) >>= λ p. usable p.0 p.1) ≡ some out)
          q.four (rw x (usable_complete out q))),
)
