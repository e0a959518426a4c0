-- ===== src/Examples/Creds.antt =====
-- Credentials on concrete inputs.
use cardiag.Base.{
  arith, inl, inr, List, [], false, if◌then◌else◌, refl, some, true, ℕ, ◌++◌, ◌↔◌, ◌∷◌, ◌≡◌, ◌≢◌,
  codes,
}
use cardiag.CredStore.{cred_pass, cred_token, cred_ok}
use cardiag.CredStore.Net.{cred_parse_ipv4, all_chars}
use cardiag.CredStore.Net.Ipv4.{quad_text, Quad, cred_parse_ipv4_iff}
use cardiag.CredStore.Token.{cred_token_equal, cred_token_equal_iff}
use cardiag.CredStore.Validate.{cred_is_placeholder, all_printable, validate_field, cred_validate}
use cardiag.CredStore.Fit.{Fit, cred_validate-Fit}
use cardiag.CredStore.Pem.{
  find_in, b64val, put_sextet, decode_char, decode_loop, decoded, cred_pem_to_der,
}
use cardiag.CredStore.Line.{
  result, is_ca, cred_parse_line, set_line, cred_parse_line-set_line, cmd_bad, cmd_set,
}

abbrev token : List ℕ
token = codes "s3cret-token"

cred_token_equal_iff_example :
    (cred_token_equal token token ≡ true) ↔ ((token ≢ []) × (token ≡ token))
cred_token_equal_iff_example = cred_token_equal_iff token token

cred_parse_ipv4_iff_example :
    (cred_parse_ipv4 (codes "192.168.4.1") ≡ some (192 ∷ 168 ∷ 4 ∷ 1 ∷ [])) ↔ (
      Quad (192 ∷ 168 ∷ 4 ∷ 1 ∷ [])
      × (codes "192.168.4.1" ≡ quad_text true (192 ∷ 168 ∷ 4 ∷ 1 ∷ [])))
cred_parse_ipv4_iff_example = cred_parse_ipv4_iff (codes "192.168.4.1") (192 ∷ 168 ∷ 4 ∷ 1 ∷ [])

token-accepted : cred_validate true cred_token token ≡ cred_ok
unfolding cred_validate validate_field all_printable all_chars cred_is_placeholder
token-accepted = refl

cred_validate-Fit_example :
    (cred_validate true cred_token token ≡ cred_ok) ↔ Fit true cred_token token
cred_validate-Fit_example = cred_validate-Fit true cred_token token

cred_parse_line-set_line_example :
    cred_parse_line (set_line cred_pass (codes " a b " ++ (13 ∷ 10 ∷ []))) ≡ (
      if is_ca cred_pass
      then result cmd_bad
      else record { cmd = cmd_set; field = some cred_pass; all = false; value = codes " a b " })
cred_parse_line-set_line_example =
    cred_parse_line-set_line cred_pass (codes " a b ") (13 ∷ 10 ∷ []) (omega arith, omega arith)
      (inl refl, (inr refl, tt))

-- The decoder on a certificate of three bytes.
tiny_pem :
    cred_pem_to_der
      (codes "-----BEGIN CERTIFICATE-----"
        ++ (10 ∷ [])
        ++ codes "MAEA"
        ++ (10 ∷ [])
        ++ codes "-----END CERTIFICATE-----")
      2048
    ≡ some (0x30 ∷ 1 ∷ 0 ∷ [])
unfolding cred_pem_to_der find_in decode_loop decode_char put_sextet b64val decoded
tiny_pem = refl
