-- ===== src/CredStore/Line.antt =====
-- The console line parser of firmware/src/credstore.cpp.
use cardiag.Base.{
  All, ◌⊎◌, ◌≢◌, Bool, List, Option, [], false, if◌then◌else◌, none, some, true, ℕ, ◌++◌, ◌==◌,
  ◌||◌, ◌∷◌, same, codes, not, ◌≡◌, arith, ◌&&◌, refl, ap, ◌∙◌,
}
use cardiag.CredStore.{
  cred_ssid, cred_pass, cred_mqtt_user, cred_mqtt_pass, cred_token, cred_hub_addr, cred_hub_name,
  cred_logger_name, CredField, cred_field_name, cred_field_from_name, cred_ca, name_in,
}

-- `enum CredCmd`
pub data CredCmd : Type 0 where
  cmd_none cmd_bad cmd_help cmd_show cmd_set cmd_ca : CredCmd
  cmd_clear cmd_import cmd_commit cmd_abort : CredCmd

-- `struct CredParsed`
pub record CredParsed : Type 0 where
  pub cmd : CredCmd
  pub field : Option CredField
  pub all : Bool
  pub value : List ℕ

-- The two loops of `nextWord`.
unfoldable pub skip_spaces : List ℕ → List ℕ
skip_spaces [] = []
skip_spaces (c ∷ s) = let rest = skip_spaces s in if c == b' ' then rest else c ∷ s

-- A word, and what is left after the one space that ends it.
unfoldable pub word : List ℕ → List ℕ × List ℕ
word [] = ([], [])
word (c ∷ s) = let rest = word s in if c == b' ' then ([], s) else (c ∷ rest.0, rest.1)

-- `nextWord`: none at the end of the line.
unfoldable pub next_word : List ℕ → Option (List ℕ × List ℕ)
next_word s = elim (skip_spaces s) [ [] ↦ none | c ∷ t ↦ some (word (c ∷ t)) ]

-- The line without the CR and LF at its end.
abbrev pub is_eol : ℕ → Bool
is_eol c = c == 13 || c == 10

unfoldable pub chop : List ℕ → List ℕ
chop [] = []
chop (c ∷ s) = elim (chop s) [ [] ↦ if is_eol c then [] else c ∷ [] | d ∷ t ↦ c ∷ d ∷ t ]

abbrev pub result : CredCmd → CredParsed
result cmd = record { cmd = cmd; field = none; all = false; value = [] }

-- The commands that have a word of their own and no argument.
abbrev pub bare : List ℕ → CredParsed
bare w =
    if same w (codes "help")
    then result cmd_help
    else if same w (codes "show")
    then result cmd_show
    else if same w (codes "ca")
    then result cmd_ca
    else if same w (codes "import")
    then result cmd_import
    else if same w (codes "commit")
    then result cmd_commit
    else if same w (codes "abort")
    then result cmd_abort
    else result cmd_bad

-- `cred clear`, with its argument and the rest of the line.
abbrev pub clear_of : List ℕ → List ℕ → CredParsed
clear_of w p = elim (next_word p) [
  | some junk ↦ result cmd_bad
  | none ↦
      if same w (codes "all")
      then record (result cmd_clear) { all = true }
      else elim (cred_field_from_name w) [
        | none ↦ result cmd_bad
        | some f ↦ record (result cmd_clear) { field = some f }
      ]
]

abbrev pub is_ca : CredField → Bool
is_ca cred_ca = true
is_ca _ = false

-- `cred set`; the value is what is left of the line.
abbrev pub set_of : List ℕ → List ℕ → CredParsed
set_of w p = elim (cred_field_from_name w) [
  | none ↦ result cmd_bad
  | some f ↦
      if is_ca f
      then result cmd_bad
      else record { cmd = cmd_set; field = some f; all = false; value = p }
]

-- The commands with an argument.
abbrev pub with_arg : List ℕ → List ℕ → List ℕ → CredParsed
with_arg w w2 p =
    if same w (codes "clear")
    then clear_of w2 p
    else if same w (codes "set")
    then set_of w2 p
    else result cmd_bad

-- The part of `credParseLine` after the word `cred`.
unfoldable pub parse_command : List ℕ → CredParsed
parse_command p = elim (next_word p) [
  | none ↦ result cmd_help
  | some (w, p2) ↦ elim (next_word p2) [ none ↦ bare w | some (w2, p3) ↦ with_arg w w2 p3 ]
]

-- `credParseLine`, once the end of the line is cut.
unfoldable pub parse_chopped : List ℕ → CredParsed
parse_chopped line = elim (next_word line) [
  | none ↦ result cmd_none
  | some (w, p) ↦ if same w (codes "cred") then parse_command p else result cmd_none
]

-- `credParseLine`
unfoldable pub cred_parse_line : List ℕ → CredParsed
cred_parse_line line = parse_chopped (chop line)

-- The line that sets a field.
abbrev pub set_line : CredField → List ℕ → List ℕ
set_line f v = codes "cred set " ++ cred_field_name f ++ codes " " ++ v

no_eol : List ℕ → Bool
no_eol [] = true
no_eol (c ∷ s) = not (is_eol c) && no_eol s

chop-keep : (p v : List ℕ) → no_eol p ≡ true → chop (p ++ v) ≡ p ++ chop v
unfolding chop no_eol
chop-keep [] v h = refl
chop-keep (c ∷ p) v h = rw (chop-keep p v (ground arith)) (keep (p ++ chop v))
  where
    keep :
        (t : List ℕ) → (elim t [ [] ↦ if is_eol c then [] else c ∷ [] | d ∷ u ↦ c ∷ d ∷ u ]) ≡ c ∷ t
    keep [] = ground arith
    keep (d ∷ u) = refl

head_text : CredField → List ℕ
head_text f = (codes "cred set " ++ cred_field_name f) ++ codes " "

chop-set_line : (f : CredField) (v : List ℕ) → chop (set_line f v) ≡ set_line f (chop v)
unfolding no_eol head_text
chop-set_line cred_ssid v = chop-keep (head_text cred_ssid) v refl
chop-set_line cred_pass v = chop-keep (head_text cred_pass) v refl
chop-set_line cred_mqtt_user v = chop-keep (head_text cred_mqtt_user) v refl
chop-set_line cred_mqtt_pass v = chop-keep (head_text cred_mqtt_pass) v refl
chop-set_line cred_token v = chop-keep (head_text cred_token) v refl
chop-set_line cred_hub_addr v = chop-keep (head_text cred_hub_addr) v refl
chop-set_line cred_hub_name v = chop-keep (head_text cred_hub_name) v refl
chop-set_line cred_logger_name v = chop-keep (head_text cred_logger_name) v refl
chop-set_line cred_ca v = chop-keep (head_text cred_ca) v refl

-- The literal reading of a line that is not chopped.
read_set :
    (f : CredField) (v : List ℕ)
    → parse_chopped (set_line f v) ≡ (
        if is_ca f
        then result cmd_bad
        else record { cmd = cmd_set; field = some f; all = false; value = v })
unfolding parse_chopped next_word skip_spaces word parse_command name_in
read_set cred_ssid v = refl
read_set cred_pass v = refl
read_set cred_mqtt_user v = refl
read_set cred_mqtt_pass v = refl
read_set cred_token v = refl
read_set cred_hub_addr v = refl
read_set cred_hub_name v = refl
read_set cred_logger_name v = refl
read_set cred_ca v = refl

read_set_line :
    (f : CredField) (v : List ℕ)
    → cred_parse_line (set_line f v) ≡ (
        if is_ca f
        then result cmd_bad
        else record { cmd = cmd_set; field = some f; all = false; value = chop v })
unfolding cred_parse_line
read_set_line f v = ap parse_chopped (chop-set_line f v) ∙ read_set f (chop v)

-- A text whose last character, if there is one, is neither CR nor LF.
abbrev pub CleanEnd : List ℕ → Type 0
CleanEnd [] = Unit
CleanEnd (c ∷ []) = (c ≢ 13) × (c ≢ 10)
CleanEnd (c ∷ d ∷ v) = CleanEnd (d ∷ v)

-- A run of CR and LF.
abbrev pub LineEnd : List ℕ → Type 0
LineEnd eols = All (λ c. (c ≡ 13) ⊎ (c ≡ 10)) eols

chop-LineEnd : (eols : List ℕ) → LineEnd eols → chop eols ≡ []
unfolding chop
chop-LineEnd [] h = refl
chop-LineEnd (c ∷ eols) h =
    let e : is_eol c ≡ true = ground (arith, h.0) in rw (chop-LineEnd eols h.1, e) refl

chop-CleanEnd : (w eols : List ℕ) → CleanEnd w → LineEnd eols → chop (w ++ eols) ≡ w
unfolding chop
chop-CleanEnd [] eols c h = chop-LineEnd eols h
chop-CleanEnd (x ∷ []) eols c h =
    let e : is_eol x ≡ false = ground (arith, c) in rw (chop-LineEnd eols h, e) refl
chop-CleanEnd (x ∷ y ∷ w) eols c h = rw (chop-CleanEnd (y ∷ w) eols c h) refl

-- A line that sets a field is read back literally: the value is every byte after the one space
-- behind the field's name, spaces and tabs included, less the carriage returns and line feeds at the
-- end of the line. The certificate cannot be set that way.
pub cred_parse_line-set_line :
    (f : CredField) (v eols : List ℕ)
    → CleanEnd v
    → LineEnd eols
    → cred_parse_line (set_line f (v ++ eols)) ≡ (
        if is_ca f
        then result cmd_bad
        else record { cmd = cmd_set; field = some f; all = false; value = v })
cred_parse_line-set_line f v eols c h =
    read_set_line f (v ++ eols)
    ∙ ap
        (λ w.
          if is_ca f
          then result cmd_bad
          else record { cmd = cmd_set; field = some f; all = false; value = w })
        (chop-CleanEnd v eols c h)
