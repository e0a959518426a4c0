-- ===== src/CredStore.antt =====
-- firmware/include/credstore.h and firmware/src/credstore.cpp: the pure half of the hub
-- credentials. A value with its length is the list of its bytes.
pub mod Net
pub mod Token
pub mod Sha256
pub mod Pem
pub mod Validate
pub mod Fit
pub mod Line
use Prim.Native.Nat.{bit_or, bit_xor}
use cardiag.Base.{
  Bool, List, Option, [], false, iff, if◌then◌else◌, none, not, refl, some, true, ℕ, ◌&&◌, ◌-◌,
  ◌==◌, ◌∷◌, ◌≡◌, codes, same,
}

-- `enum CredField`; `CRED_NONE` is the `none` of an option.
pub data CredField : Type 0 where
  cred_ssid cred_pass cred_mqtt_user cred_mqtt_pass cred_token : CredField
  cred_hub_addr cred_hub_name cred_logger_name cred_ca : CredField

-- `enum CredErr`
pub data CredErr : Type 0 where
  cred_ok cred_e_empty cred_e_short cred_e_long cred_e_charset : CredErr
  cred_e_placeholder cred_e_pem cred_e_pair cred_e_nomem : CredErr

-- `credFieldName`
abbrev pub cred_field_name : CredField → List ℕ
cred_field_name cred_ssid = codes "ssid"
cred_field_name cred_pass = codes "pass"
cred_field_name cred_mqtt_user = codes "mqtt_user"
cred_field_name cred_mqtt_pass = codes "mqtt_pass"
cred_field_name cred_token = codes "token"
cred_field_name cred_hub_addr = codes "hub_addr"
cred_field_name cred_hub_name = codes "hub_name"
cred_field_name cred_logger_name = codes "logger_name"
cred_field_name cred_ca = codes "ca"

-- `credFieldMax`
abbrev pub cred_field_max : CredField → ℕ
cred_field_max cred_ssid = 32
cred_field_max cred_pass = 64
cred_field_max cred_mqtt_user = 64
cred_field_max cred_mqtt_pass = 128
cred_field_max cred_token = 128
cred_field_max cred_hub_addr = 15
cred_field_max cred_hub_name = 32
cred_field_max cred_logger_name = 32
cred_field_max cred_ca = 2048

-- The order of `kFields`.
abbrev pub all_fields : List CredField
all_fields =
    cred_ssid ∷ cred_pass ∷ cred_mqtt_user ∷ cred_mqtt_pass ∷ cred_token ∷ cred_hub_addr
    ∷ cred_hub_name ∷ cred_logger_name ∷ cred_ca ∷ []

-- `credFieldFromName`
unfoldable pub name_in : List CredField → List ℕ → Option CredField
name_in [] s = none
name_in (f ∷ fs) s = let rest = name_in fs s in if same (cred_field_name f) s then some f else rest

abbrev pub cred_field_from_name : List ℕ → Option CredField
cred_field_from_name s = name_in all_fields s

-- `credIsSecret`
abbrev pub cred_is_secret : CredField → Bool
cred_is_secret cred_pass = true
cred_is_secret cred_mqtt_pass = true
cred_is_secret cred_token = true
cred_is_secret _ = false

-- `credCheckSet`: the error and the field whose partner is missing.
unfoldable pub cred_check_set : (CredField → Bool) → CredErr × Option CredField
cred_check_set present =
    if not (iff (present cred_ssid) (present cred_pass))
    then (cred_e_pair, some (if present cred_ssid then cred_pass else cred_ssid))
    else if not (iff (present cred_mqtt_user) (present cred_mqtt_pass))
    then (cred_e_pair, some (if present cred_mqtt_user then cred_mqtt_pass else cred_mqtt_user))
    else (cred_ok, none)

-- `enum CredCommitState`
pub data CredCommitState : Type 0 where
  cred_commit_none cred_commit_incomplete cred_commit_complete : CredCommitState

-- `credCommitState`
unfoldable pub cred_commit_state : Bool → ℕ → Bool → CredCommitState
cred_commit_state flag_present flag any_field =
    if flag_present && flag == 1
    then cred_commit_complete
    else if not flag_present && not any_field
    then cred_commit_none
    else cred_commit_incomplete

-- A table row is found by its own name.
pub from_name-field_name : (f : CredField) → cred_field_from_name (cred_field_name f) ≡ some f
unfolding name_in
from_name-field_name cred_ssid = refl
from_name-field_name cred_pass = refl
from_name-field_name cred_mqtt_user = refl
from_name-field_name cred_mqtt_pass = refl
from_name-field_name cred_token = refl
from_name-field_name cred_hub_addr = refl
from_name-field_name cred_hub_name = refl
from_name-field_name cred_logger_name = refl
from_name-field_name cred_ca = refl
