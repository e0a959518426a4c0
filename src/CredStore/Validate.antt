-- ===== src/CredStore/Validate.antt =====
-- `credValidate` of firmware/src/credstore.cpp.
use cardiag.Base.{
  Bool, List, false, if◌then◌else◌, leb, length, ltb, none, not, some, true, ℕ, ◌&&◌, ◌==◌, ◌||◌,
  same, codes,
}
use cardiag.CredStore.{
  CredField, CredErr, cred_field_max, cred_ssid, cred_pass, cred_mqtt_user, cred_mqtt_pass,
  cred_token, cred_hub_addr, cred_hub_name, cred_logger_name, cred_ca, cred_ok, cred_e_empty,
  cred_e_short, cred_e_long, cred_e_charset, cred_e_placeholder, cred_e_pem, cred_e_nomem,
}
use cardiag.CredStore.Net.{cred_parse_ipv4, all_chars, cred_valid_host_label}
use cardiag.CredStore.Pem.{cred_pem_to_der}

-- `credIsPlaceholder`
unfoldable pub cred_is_placeholder : List ℕ → Bool
cred_is_placeholder v =
    same (codes "changeme123") v
    || (same (codes "cardiag-default") v
        || (same (codes "carhub-default") v || same (codes "change-me") v))

-- `allPrintable`
abbrev pub printable : Bool → ℕ → Bool
printable space_ok c = leb 0x20 c && (not (c == 0x7F) && (space_ok || not (c == b' ')))

unfoldable pub all_printable : List ℕ → Bool → Bool
unfolding all_chars
all_printable v space_ok = all_chars (printable space_ok) v

-- `isHex`
abbrev pub is_hex : ℕ → Bool
is_hex c = (leb b'0' c && leb c b'9') || ((leb b'a' c && leb c b'f') || (leb b'A' c && leb c b'F'))

abbrev pub graphic : ℕ → Bool
graphic c = leb 0x20 c && leb c 0x7E

abbrev pub or_charset : Bool → CredErr
or_charset ok = if ok then cred_ok else cred_e_charset

abbrev pub or_placeholder : List ℕ → CredErr
or_placeholder v = if cred_is_placeholder v then cred_e_placeholder else cred_ok

-- The switch of `credValidate`; `heap` says whether there is memory for the certificate.
unfoldable pub validate_field : Bool → CredField → List ℕ → CredErr
validate_field heap cred_ssid v = or_charset (all_printable v true)
validate_field heap cred_pass v =
    if ltb (length v) 8
    then cred_e_short
    else if length v == 64
    then or_charset (all_chars is_hex v)
    else if not (all_chars graphic v)
    then cred_e_charset
    else or_placeholder v
validate_field heap cred_mqtt_user v = or_charset (all_printable v false)
validate_field heap cred_mqtt_pass v =
    if not (all_printable v true) then cred_e_charset else or_placeholder v
validate_field heap cred_token v =
    if ltb (length v) 8
    then cred_e_short
    else if not (all_printable v false)
    then cred_e_charset
    else or_placeholder v
validate_field heap cred_hub_addr v =
    or_charset (elim (cred_parse_ipv4 v) [ none ↦ false | some q ↦ true ])
validate_field heap cred_hub_name v = or_charset (cred_valid_host_label v)
validate_field heap cred_logger_name v = or_charset (cred_valid_host_label v)
validate_field heap cred_ca v =
    if not heap
    then cred_e_nomem
    else elim (cred_pem_to_der v 2048) [ none ↦ cred_e_pem | some der ↦ cred_ok ]

-- `credValidate`
unfoldable pub cred_validate : Bool → CredField → List ℕ → CredErr
cred_validate heap f v =
    if length v == 0
    then cred_e_empty
    else if ltb (cred_field_max f) (length v)
    then cred_e_long
    else validate_field heap f v
