-- ===== src/CredStore/Pem.antt =====
-- `credPemToDer` of firmware/src/credstore.cpp.
use cardiag.Base.{
  Bool, List, Option, [], drop, get_or, if◌then◌else◌, leb, length, ltb, none, not, some, take,
  true, u8, ℕ, ◌%◌, ◌&&◌, ◌*◌, ◌++◌, ◌+◌, ◌-◌, ◌/◌, ◌==◌, ◌>>=◌, ◌^◌, ◌||◌, ◌∷◌, codes, same,
}

abbrev pub pem_begin : List ℕ
pem_begin = codes "-----BEGIN CERTIFICATE-----"

abbrev pub pem_end : List ℕ
pem_end = codes "-----END CERTIFICATE-----"

-- `findIn`: what comes before the first match, and what comes after it.
unfoldable pub find_in : List ℕ → List ℕ → Option (List ℕ × List ℕ)
find_in needle [] = if same [] needle then some ([], []) else none
find_in needle (c ∷ h) =
    let rest = find_in needle h in
    if same (take (length needle) (c ∷ h)) needle
    then some ([], drop (length needle) (c ∷ h))
    else (rest >>= λ p. some (c ∷ p.0, p.1))

-- `b64val`; -1 is `none`.
unfoldable pub b64val : ℕ → Option ℕ
b64val c =
    if leb b'A' c && leb c b'Z'
    then some (c - b'A')
    else if leb b'a' c && leb c b'z'
    then some (c - b'a' + 26)
    else if leb b'0' c && leb c b'9'
    then some (c - b'0' + 52)
    else if c == b'+'
    then some 62
    else if c == b'/'
    then some 63
    else none

abbrev pub is_blank : ℕ → Bool
is_blank c = c == b' ' || (c == 13 || (c == 10 || c == 9))

abbrev pub all_blank : List ℕ → Bool
all_blank [] = true
all_blank (c ∷ s) = is_blank c && all_blank s

-- The state of the decoding loop.
pub record Decode : Type 0 where
  pub acc : ℕ
  pub bits : ℕ
  pub pad : ℕ
  pub chars : ℕ
  pub out : List ℕ

-- What one sextet does.
unfoldable pub put_sextet : ℕ → Decode → ℕ → Option Decode
put_sextet cap s v =
    let acc = (s.acc * 64) % 2 ^ 32 + v in
    let next = record s { acc = acc; chars = s.chars + 1 } in
    if ltb (s.bits + 6) 8
    then some (record next { bits = s.bits + 6 })
    else if leb cap (length s.out)
    then none
    else some (record next { bits = s.bits - 2; out = s.out ++ (u8 (acc / 2 ^ (s.bits - 2)) ∷ []) })

-- What one character does.
unfoldable pub decode_char : ℕ → Decode → ℕ → Option Decode
decode_char cap s c =
    if is_blank c
    then some s
    else if c == b'='
    then some (record s { pad = s.pad + 1; chars = s.chars + 1 })
    else if ltb 0 s.pad
    then none
    else (b64val c >>= λ v. put_sextet cap s v)

unfoldable pub decode_loop : ℕ → Decode → List ℕ → Option Decode
decode_loop cap s [] = some s
decode_loop cap s (c ∷ body) = do s' ← decode_char cap s c; decode_loop cap s' body

-- The tests after the loop; a certificate is a SEQUENCE.
unfoldable pub decoded : Decode → Option (List ℕ)
decoded s =
    if s.chars == 0 || (not (s.chars % 4 == 0) || ltb 2 s.pad)
    then none
    else if ltb (length s.out) 2 || not (get_or s.out 0 0 == 0x30)
    then none
    else some s.out

abbrev pub decode_start : Decode
decode_start = record { acc = 0; bits = 0; pad = 0; chars = 0; out = [] }

-- `credPemToDer`
unfoldable pub cred_pem_to_der : List ℕ → ℕ → Option (List ℕ)
cred_pem_to_der pem cap = if ltb 2048 (length pem) then none else do
  (before, block) ← find_in pem_begin pem
  (body, after) ← find_in pem_end block
  s ← decode_loop cap decode_start body
  if not (all_blank before) || not (all_blank after) then none else decoded s
