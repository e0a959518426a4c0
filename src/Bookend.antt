-- ===== src/Bookend.antt =====
-- firmware/include/bookend.h and firmware/src/bookend.cpp: the record of a trip's start or end. An
-- array with its count is a list, and the flag byte is its three bits.
pub mod Parse
pub mod Encode
pub mod Seq
use cardiag.Base.{Bool, List, [], false, ℕ, ◌∷◌}

abbrev pub bookend_max_stored : ℕ
bookend_max_stored = 32

abbrev pub bookend_max_pending : ℕ
bookend_max_pending = 32

abbrev pub bookend_max_m06 : ℕ
bookend_max_m06 = 64

-- The two values of `kind`.
pub data Kind : Type 0 where
  kind_start kind_end : Kind

-- `struct BookendDtc`
pub record BookendDtc : Type 0 where
  pub ecu : ℕ
  pub dtc : ℕ

-- `struct BookendM06`
pub record BookendM06 : Type 0 where
  pub ecu : ℕ
  pub mid : ℕ
  pub tid : ℕ
  pub uasid : ℕ
  pub value : ℕ
  pub low : ℕ
  pub high : ℕ

-- `struct BookendData`
pub record BookendData : Type 0 where
  pub kind : Kind
  pub complete : Bool
  pub truncated : Bool
  pub no_response : Bool
  pub pid01 : List ℕ
  pub stored : List BookendDtc
  pub pending : List BookendDtc
  pub m06 : List BookendM06

-- `bookendInit`
unfoldable pub bookend_init : Kind → BookendData
bookend_init kind = record {
  kind = kind;
  complete = false;
  truncated = false;
  no_response = false;
  pid01 = 0xFF ∷ 0xFF ∷ 0xFF ∷ 0xFF ∷ [];
  stored = [];
  pending = [];
  m06 = [];
}
