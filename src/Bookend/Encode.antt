-- ===== src/Bookend/Encode.antt =====
-- The record as bytes, in firmware/src/bookend.cpp.
use cardiag.Base.{
  Bool, List, [], if◌then◌else◌, length, ltb, take, ℕ, ◌%◌, ◌*◌, ◌++◌, ◌+◌, ◌/◌, ◌∷◌,
}
use cardiag.Bookend.{
  bookend_max_stored, bookend_max_pending, bookend_max_m06, Kind, BookendDtc, BookendM06,
  BookendData, kind_start, kind_end,
}

-- `put16` and `put32`: the low byte first.
abbrev pub put16 : ℕ → List ℕ
put16 v = (v % 256) ∷ (v / 256 % 256) ∷ []

abbrev pub put32 : ℕ → List ℕ
put32 v = (v % 256) ∷ (v / 256 % 256) ∷ (v / 65536 % 256) ∷ (v / 16777216 % 256) ∷ []

abbrev pub kind_byte : Kind → ℕ
kind_byte kind_start = 1
kind_byte kind_end = 2

abbrev pub bit_if : Bool → ℕ → ℕ
bit_if b n = if b then n else 0

abbrev pub flags_byte : BookendData → ℕ
flags_byte d = bit_if d.complete 1 + bit_if d.truncated 2 + bit_if d.no_response 4

unfoldable pub put_dtcs : List BookendDtc → List ℕ
put_dtcs [] = []
put_dtcs (x ∷ xs) = x.ecu ∷ (put16 x.dtc ++ put_dtcs xs)

unfoldable pub put_m06 : List BookendM06 → List ℕ
put_m06 [] = []
put_m06 (x ∷ xs) =
    x.ecu
    ∷ x.mid
    ∷ x.tid
    ∷ x.uasid
    ∷ (put16 x.value ++ (put16 x.low ++ (put16 x.high ++ put_m06 xs)))

-- The length of the payload.
abbrev pub payload_len : ℕ → ℕ → ℕ → ℕ
payload_len ns np nm = 4 + 4 + 1 + 3 * ns + 1 + 3 * np + 1 + 10 * nm

-- `bookendEncode`; the bytes written, none when they do not fit.
unfoldable pub bookend_encode : BookendData → ℕ → ℕ → ℕ → ℕ → List ℕ
unfolding put_dtcs put_m06
bookend_encode d device_id boot_id ms cap =
    let stored = take bookend_max_stored d.stored in
    let pending = take bookend_max_pending d.pending in
    let m06 = take bookend_max_m06 d.m06 in
    let payload = payload_len (length stored) (length pending) (length m06) in
    let header = 3 ∷ 1 ∷ (put16 payload ++ (put32 device_id ++ (put32 boot_id ++ put32 ms))) in
    let start = kind_byte d.kind ∷ flags_byte d ∷ (put16 0 ++ take 4 d.pid01) in
    if ltb cap (16 + payload)
    then []
    else header
      ++ (start
          ++ (length stored
              ∷ (put_dtcs stored
                  ++ (length pending ∷ (put_dtcs pending ++ (length m06 ∷ put_m06 m06))))))

-- `bookendFileHeader`
unfoldable pub bookend_file_header : ℕ → ℕ → ℕ → List ℕ
bookend_file_header mode device_id boot_id =
    b'C' ∷ b'D' ∷ b'G' ∷ b'B' ∷ 1 ∷ 3 ∷ mode ∷ 0 ∷ (put32 device_id ++ put32 boot_id)
