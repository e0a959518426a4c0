-- ===== src/HubProto.antt =====
-- firmware/include/hubproto.h: the records and the header of a datagram to the hub. The packed
-- structs are records of their fields; a byte array of fixed size is a list.
pub mod Chunk
use cardiag.Base.{
  Bool, List, [], ap, arith, drop, false, if◌then◌else◌, length, length-append, length-replicate,
  length-take, ltb, min, refl, replicate, suc, take, zero, ℕ, ◌*◌, ◌++◌, ◌+◌, ◌-◌, ◌||◌, ◌∙◌, ◌∷◌,
  ◌≡◌, ◌≤◌,
}

abbrev pub hub_max_records : ℕ
hub_max_records = 64

abbrev pub hub_header_len : ℕ
hub_header_len = 32

abbrev pub hub_record_len : ℕ
hub_record_len = 20

abbrev pub hub_max_packet : ℕ
hub_max_packet = hub_header_len + hub_max_records * hub_record_len

-- `struct HubHeader`
pub record HubHeader : Type 0 where
  pub magic : List ℕ
  pub version : ℕ
  pub header_len : ℕ
  pub record_len : ℕ
  pub flags : ℕ
  pub count : ℕ
  pub reserved : ℕ
  pub device_id : ℕ
  pub boot_id : ℕ
  pub seq : ℕ
  pub uptime_ms : ℕ
  pub reserved2 : ℕ

-- `struct HubCanRecord`
pub record HubCanRecord : Type 0 where
  pub rec_type : ℕ
  pub dlc : ℕ
  pub changed : ℕ
  pub flags : ℕ
  pub can_id : ℕ
  pub ms : ℕ
  pub data_ : List ℕ

-- `struct HubObdRecord`
pub record HubObdRecord : Type 0 where
  pub rec_type : ℕ
  pub mode : ℕ
  pub pid : ℕ
  pub ms : ℕ
  pub len : ℕ
  pub flags : ℕ
  pub payload : List ℕ

-- `hubHeaderInit`
unfoldable pub hub_header_init : ℕ → ℕ → ℕ → ℕ → ℕ → ℕ → HubHeader
hub_header_init device_id boot_id seq uptime_ms flags count = record {
  magic = b'C' ∷ b'D' ∷ b'G' ∷ b'H' ∷ [];
  version = 1;
  header_len = hub_header_len;
  record_len = hub_record_len;
  flags = flags;
  count = count;
  reserved = 0;
  device_id = device_id;
  boot_id = boot_id;
  seq = seq;
  uptime_ms = uptime_ms;
  reserved2 = 0;
}

-- `memset` to 0 and `memcpy` of the first `n` bytes, into an array of `size` bytes.
abbrev pub padded : ℕ → ℕ → List ℕ → List ℕ
padded size n bytes = take n bytes ++ replicate (size - n) 0

-- `hubCanRecord`
unfoldable pub hub_can_record : ℕ → Bool → ℕ → List ℕ → ℕ → ℕ → HubCanRecord
hub_can_record can_id ext dlc bytes changed ms =
    let n = if ltb 8 dlc then 8 else dlc in
    record {
      rec_type = 1;
      dlc = n;
      changed = changed;
      flags = if ext then 1 else 0;
      can_id = can_id;
      ms = ms;
      data_ = padded 8 n bytes;
    }

-- `hubObdRecord`
unfoldable pub hub_obd_record : ℕ → ℕ → ℕ → List ℕ → ℕ → Bool → HubObdRecord
hub_obd_record mode pid ms bytes len truncated =
    let n = if ltb 10 len then 10 else len in
    record {
      rec_type = 2;
      mode = mode;
      pid = pid;
      ms = ms;
      len = n;
      flags = if ltb 10 len || truncated then 1 else 0;
      payload = padded 10 n bytes;
    }

take-padded : (n : ℕ) (xs ys : List ℕ) → n ≤ length xs → take n (take n xs ++ ys) ≡ take n xs
take-padded zero xs ys h = refl
take-padded (suc n) [] ys h = absurd (omega arith)
take-padded (suc n) (x ∷ xs) ys h = ap (◌∷◌ x) (take-padded n xs ys (omega arith))

drop-padded : (n : ℕ) (xs ys : List ℕ) → n ≤ length xs → drop n (take n xs ++ ys) ≡ ys
drop-padded zero xs ys h = refl
drop-padded (suc n) [] ys h = absurd (omega arith)
drop-padded (suc n) (x ∷ xs) ys h = drop-padded n xs ys (omega arith)

length-padded :
    (size n : ℕ) (xs : List ℕ) → n ≤ length xs → n ≤ size → length (padded size n xs) ≡ size
length-padded size n xs h k =
    let b = length-take n xs in
    let c = length-replicate {A = ℕ} (size - n) 0 in
    length-append (take n xs) (replicate (size - n) 0) ∙ omega arith

-- A CAN record always has 8 data bytes: the first `dlc` are the frame's, and the rest are 0.
pub hub_can_record-data :
    (can_id dlc changed ms : ℕ) (ext : Bool) (bytes : List ℕ)
    → length bytes ≡ 8
    → let r = hub_can_record can_id ext dlc bytes changed ms in
      (r.dlc ≡ min 8 dlc)
      × (length r.data_ ≡ 8)
      × (take r.dlc r.data_ ≡ take r.dlc bytes)
      × (drop r.dlc r.data_ ≡ replicate (8 - r.dlc) 0)
unfolding hub_can_record
hub_can_record-data can_id dlc changed ms ext bytes h =
    let n = if ltb 8 dlc then 8 else dlc in
    let fits : n ≤ 8 = ground arith in
    (
      ground arith,
      length-padded 8 n bytes (omega arith) fits,
      take-padded n bytes (replicate (8 - n) 0) (omega arith),
      drop-padded n bytes (replicate (8 - n) 0) (omega arith),
    )

-- An OBD record always has 10 payload bytes, padded with 0, and an answer longer than that is cut
-- and flagged.
pub hub_obd_record-payload :
    (mode pid ms len : ℕ) (bytes : List ℕ)
    → min 10 len ≤ length bytes
    → let r = hub_obd_record mode pid ms bytes len false in
      (r.len ≡ min 10 len)
      × (r.flags ≡ (if ltb 10 len then 1 else 0))
      × (length r.payload ≡ 10)
      × (take r.len r.payload ≡ take r.len bytes)
      × (drop r.len r.payload ≡ replicate (10 - r.len) 0)
unfolding hub_obd_record
hub_obd_record-payload mode pid ms len bytes h =
    let n = if ltb 10 len then 10 else len in
    let small : n ≡ min 10 len = ground arith in
    (
      small,
      ground arith,
      length-padded 10 n bytes (omega arith) (omega arith),
      take-padded n bytes (replicate (10 - n) 0) (omega arith),
      drop-padded n bytes (replicate (10 - n) 0) (omega arith),
    )
