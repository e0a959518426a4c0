-- ===== src/CredStore/Fit.antt =====
-- The values that the validation of firmware/src/credstore.cpp lets through, described without it.
use cardiag.Base.{
  All, Bool, Bool-cases, List, Option-cases, [], ap, arith, false, get_or, inl, inr, length, refl,
  some, sym, true, ℕ, ◌-◌, ◌<◌, ◌==◌, ◌↔◌, ◌∙◌, ◌∷◌, ◌≡◌, ◌≢◌, ◌≤◌, ◌⊎◌, codes, same, same_refl,
  same→eq,
}
use cardiag.CredStore.{
  CredField, cred_field_max, cred_ssid, cred_pass, cred_mqtt_user, cred_mqtt_pass, cred_token,
  cred_hub_addr, cred_hub_name, cred_logger_name, cred_ca, cred_ok,
}
use cardiag.CredStore.Net.{cred_parse_ipv4, label_char, all_chars, cred_valid_host_label}
use cardiag.CredStore.Net.Ipv4.{quad_text, Quad, cred_parse_ipv4_iff}
use cardiag.CredStore.Pem.{cred_pem_to_der}
use cardiag.CredStore.Validate.{
  cred_is_placeholder, printable, all_printable, is_hex, graphic, or_charset, or_placeholder,
  validate_field, cred_validate,
}

-- A character that is no control code.
abbrev pub Visible : ℕ → Type 0
Visible c = (0x20 ≤ c) × (c ≢ 0x7F)

-- A visible character other than the space.
abbrev pub Solid : ℕ → Type 0
Solid c = (0x20 < c) × (c ≢ 0x7F)

abbrev pub Ascii : ℕ → Type 0
Ascii c = (0x20 ≤ c) × (c < 0x7F)

abbrev pub Hex : ℕ → Type 0
Hex c = ((b'0' ≤ c) × (c ≤ b'9')) ⊎ (((b'a' ≤ c) × (c ≤ b'f')) ⊎ ((b'A' ≤ c) × (c ≤ b'F')))

abbrev pub Label : ℕ → Type 0
Label c = ((b'a' ≤ c) × (c ≤ b'z')) ⊎ (((b'0' ≤ c) × (c ≤ b'9')) ⊎ (c ≡ b'-'))

-- None of the texts that stand in the example files.
abbrev pub Own : List ℕ → Type 0
Own v =
    (v ≢ codes "changeme123")
    × (v ≢ codes "cardiag-default")
    × (v ≢ codes "carhub-default")
    × (v ≢ codes "change-me")

-- A name of letters, digits and inner dashes.
abbrev pub HostLabel : List ℕ → Type 0
HostLabel v =
    (1 ≤ length v)
    × (length v ≤ 32)
    × (get_or v 0 0 ≢ b'-')
    × (get_or v (length v - 1) 0 ≢ b'-')
    × All Label v

-- What each field asks of a value, beside its length.
abbrev pub FitsField : Bool → CredField → List ℕ → Type 0
FitsField heap cred_ssid v = All Visible v
FitsField heap cred_pass v =
    (8 ≤ length v) × (((length v ≡ 64) × All Hex v) ⊎ ((length v ≢ 64) × All Ascii v × Own v))
FitsField heap cred_mqtt_user v = All Solid v
FitsField heap cred_mqtt_pass v = All Visible v × Own v
FitsField heap cred_token v = (8 ≤ length v) × All Solid v × Own v
FitsField heap cred_hub_addr v = (q : List ℕ) × Quad q × (v ≡ quad_text true q)
FitsField heap cred_hub_name v = HostLabel v
FitsField heap cred_logger_name v = HostLabel v
FitsField heap cred_ca v = (heap ≡ true) × ((der : List ℕ) × (cred_pem_to_der v 2048 ≡ some der))

-- A value that fits its field.
abbrev pub Fit : Bool → CredField → List ℕ → Type 0
Fit heap f v = (v ≢ []) × (length v ≤ cred_field_max f) × FitsField heap f v

module _ (p : ℕ → Bool) (P : ℕ → Type 0) (same_test : (c : ℕ) → (p c ≡ true) ↔ P c) where
  all_chars-All : (v : List ℕ) → all_chars p v ≡ true → All P v
  unfolding all_chars
  all_chars-All [] h = tt
  all_chars-All (c ∷ v) h = ((same_test c).0 (ground arith), all_chars-All v (ground arith))

  All-all_chars : (v : List ℕ) → All P v → all_chars p v ≡ true
  unfolding all_chars
  All-all_chars [] h = refl
  All-all_chars (c ∷ v) h =
      let a = (same_test c).1 h.0 in let b = All-all_chars v h.1 in ground arith

printable-Visible : (c : ℕ) → (printable true c ≡ true) ↔ Visible c
printable-Visible c = (λ h. ground arith, λ h. ground arith)

printable-Solid : (c : ℕ) → (printable false c ≡ true) ↔ Solid c
printable-Solid c = (λ h. ground arith, λ h. ground arith)

graphic-Ascii : (c : ℕ) → (graphic c ≡ true) ↔ Ascii c
graphic-Ascii c = (λ h. ground arith, λ h. ground arith)

is_hex-Hex : (c : ℕ) → (is_hex c ≡ true) ↔ Hex c
is_hex-Hex c = (λ h. ground arith, λ h. ground arith)

label_char-Label : (c : ℕ) → (label_char c ≡ true) ↔ Label c
label_char-Label c = (λ h. ground arith, λ h. ground arith)

same-not : (xs v : List ℕ) → (same xs v ≡ false) ↔ (v ≢ xs)
same-not xs v = (
  λ h e. let k : same xs v ≡ true = ap (same xs) e ∙ same_refl xs in absurd (ground arith),
  λ n. elim (Bool-cases (same xs v)) [ inr e ↦ e | inl e ↦ absurd (n (sym (same→eq xs v e))) ],
)

cred_is_placeholder-Own : (v : List ℕ) → (cred_is_placeholder v ≡ false) ↔ Own v
unfolding cred_is_placeholder
cred_is_placeholder-Own v =
    let a = same-not (codes "changeme123") v in
    let b = same-not (codes "cardiag-default") v in
    let c = same-not (codes "carhub-default") v in
    let d = same-not (codes "change-me") v in
    (
      λ h. (a.0 (ground arith), b.0 (ground arith), c.0 (ground arith), d.0 (ground arith)),
      λ o.
          let a' = a.1 o.0 in
          let b' = b.1 o.1 in let c' = c.1 o.2 in let d' = d.1 o.3 in ground arith,
    )

or_charset-ok : (b : Bool) → (or_charset b ≡ cred_ok) ↔ (b ≡ true)
or_charset-ok b = (λ h. ground arith, λ h. ground arith)

or_placeholder-Own : (v : List ℕ) → (or_placeholder v ≡ cred_ok) ↔ Own v
or_placeholder-Own v =
    let o = cred_is_placeholder-Own v in
    (λ h. o.0 (ground arith), λ k. let x = o.1 k in ground arith)

cred_valid_host_label-HostLabel : (v : List ℕ) → (cred_valid_host_label v ≡ true) ↔ HostLabel v
unfolding cred_valid_host_label
cred_valid_host_label-HostLabel v = (
  λ h. (
    ground arith,
    ground arith,
    ground arith,
    ground arith,
    all_chars-All label_char Label label_char-Label v (ground arith),
  ),
  λ k.
      let (a, b, c, d, l) = k in
      let e = All-all_chars label_char Label label_char-Label v l in ground arith,
)

-- The two shapes of a password: the key itself in hex, or a passphrase.
pass-Fits :
    (heap : Bool) (v : List ℕ)
    → (validate_field heap cred_pass v ≡ cred_ok) ↔ FitsField heap cred_pass v
unfolding validate_field
pass-Fits heap v = (
  λ h. (
    ground arith,
    elim (Bool-cases (length v == 64)) [
      | inl e ↦ inl (ground arith, all_chars-All is_hex Hex is_hex-Hex v (ground arith))
      | inr e ↦ inr (
        ground arith,
        all_chars-All graphic Ascii graphic-Ascii v (ground arith),
        (or_placeholder-Own v).0 (ground arith),
      )
    ],
  ),
  λ k. elim k.1 [
    | inl (n, x) ↦ let a = All-all_chars is_hex Hex is_hex-Hex v x in let m = k.0 in ground arith
    | inr (n, x, o) ↦
        let a = All-all_chars graphic Ascii graphic-Ascii v x in
        let b = (or_placeholder-Own v).1 o in let m = k.0 in ground arith
  ],
)

hub_addr-Fits :
    (heap : Bool) (v : List ℕ)
    → (validate_field heap cred_hub_addr v ≡ cred_ok) ↔ FitsField heap cred_hub_addr v
unfolding validate_field
hub_addr-Fits heap v = (
  λ h. elim (Option-cases (cred_parse_ipv4 v)) [
    | inl e ↦ absurd (ground arith)
    | inr (q, e) ↦ (let w = (cred_parse_ipv4_iff v q).0 e in (q, w.0, w.1))
  ],
  λ k. let e = (cred_parse_ipv4_iff v k.0).1 (k.1, k.2) in ground arith,
)

ca-Fits :
    (heap : Bool) (v : List ℕ)
    → (validate_field heap cred_ca v ≡ cred_ok) ↔ FitsField heap cred_ca v
unfolding validate_field
ca-Fits heap v = (
  λ h. (
    ground arith,
    elim (Option-cases (cred_pem_to_der v 2048)) [
      | inl e ↦ absurd (ground arith)
      | inr (d, e) ↦ (d, e)
    ],
  ),
  λ k. let a = k.0 in let e = k.1.1 in ground arith,
)

validate_field-Fits :
    (heap : Bool) (f : CredField) (v : List ℕ)
    → (validate_field heap f v ≡ cred_ok) ↔ FitsField heap f v
unfolding validate_field all_printable
validate_field-Fits heap cred_ssid v = (
  λ h. all_chars-All (printable true) Visible printable-Visible v ((or_charset-ok _).0 h),
  λ k. (or_charset-ok _).1 (All-all_chars (printable true) Visible printable-Visible v k),
)
validate_field-Fits heap cred_pass v = pass-Fits heap v
validate_field-Fits heap cred_mqtt_user v = (
  λ h. all_chars-All (printable false) Solid printable-Solid v ((or_charset-ok _).0 h),
  λ k. (or_charset-ok _).1 (All-all_chars (printable false) Solid printable-Solid v k),
)
validate_field-Fits heap cred_mqtt_pass v = (
  λ h. (
    all_chars-All (printable true) Visible printable-Visible v (ground arith),
    (or_placeholder-Own v).0 (ground arith),
  ),
  λ k.
      let a = All-all_chars (printable true) Visible printable-Visible v k.0 in
      let b = (or_placeholder-Own v).1 k.1 in ground arith,
)
validate_field-Fits heap cred_token v = (
  λ h. (
    ground arith,
    all_chars-All (printable false) Solid printable-Solid v (ground arith),
    (or_placeholder-Own v).0 (ground arith),
  ),
  λ k.
      let (n, x, o) = k in
      let a = All-all_chars (printable false) Solid printable-Solid v x in
      let b = (or_placeholder-Own v).1 o in ground arith,
)
validate_field-Fits heap cred_hub_addr v = hub_addr-Fits heap v
validate_field-Fits heap cred_hub_name v = (
  λ h. (cred_valid_host_label-HostLabel v).0 ((or_charset-ok _).0 h),
  λ k. (or_charset-ok _).1 ((cred_valid_host_label-HostLabel v).1 k),
)
validate_field-Fits heap cred_logger_name v = (
  λ h. (cred_valid_host_label-HostLabel v).0 ((or_charset-ok _).0 h),
  λ k. (or_charset-ok _).1 ((cred_valid_host_label-HostLabel v).1 k),
)
validate_field-Fits heap cred_ca v = ca-Fits heap v

-- A value is accepted exactly when it is not empty, is no longer than its field allows and fits its
-- field. A network name holds no control character, nor does the broker's password, which is no
-- placeholder either. A password has 8 characters or more: 64 are hex digits, any other number of
-- them plain ASCII that is no placeholder. The broker's user and the token hold no space either; the
-- token has 8 characters or more and is no placeholder. The hub's address is the canonical text of a
-- usable quad, a name is made of small letters, digits and inner dashes, and the certificate is
-- decoded, for which there must be memory.
pub cred_validate-Fit :
    (heap : Bool) (f : CredField) (v : List ℕ) → (cred_validate heap f v ≡ cred_ok) ↔ Fit heap f v
unfolding cred_validate
cred_validate-Fit heap f v = (
  λ h. (λ e. absurd (ground arith), ground arith, (validate_field-Fits heap f v).0 (ground arith)),
  λ k.
      let (n, l, x) = k in
      let a = (validate_field-Fits heap f v).1 x in
      let some_text : length v ≢ 0 = λ e. n (empty_of v e) in ground arith,
)
  where
    empty_of : (xs : List ℕ) → length xs ≡ 0 → xs ≡ []
    empty_of [] h = refl
    empty_of (x ∷ xs) h = absurd (omega arith)
