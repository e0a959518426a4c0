-- ===== src/CredStore/Sha256.antt =====
-- SHA-256 and the fingerprints of firmware/src/credstore.cpp. A hash in progress is the list of its
-- eight words.
use Prim.Native.Nat.{bit_and, bit_or, bit_xor}
use cardiag.Base.{
  Bool, List, [], drop, get_or, if◌then◌else◌, length, ltb, none, not, replicate, some, suc, take,
  u32, zero, ℕ, ◌%◌, ◌*◌, ◌++◌, ◌+◌, ◌-◌, ◌/◌, ◌^◌, ◌∷◌, codes,
}
use cardiag.CredStore.Pem.{cred_pem_to_der}

abbrev pub k256 : List ℕ
k256 =
    0x428a2f98 ∷ 0x71374491 ∷ 0xb5c0fbcf ∷ 0xe9b5dba5 ∷ 0x3956c25b ∷ 0x59f111f1 ∷ 0x923f82a4
    ∷ 0xab1c5ed5 ∷ 0xd807aa98 ∷ 0x12835b01 ∷ 0x243185be ∷ 0x550c7dc3 ∷ 0x72be5d74 ∷ 0x80deb1fe
    ∷ 0x9bdc06a7 ∷ 0xc19bf174 ∷ 0xe49b69c1 ∷ 0xefbe4786 ∷ 0x0fc19dc6 ∷ 0x240ca1cc ∷ 0x2de92c6f
    ∷ 0x4a7484aa ∷ 0x5cb0a9dc ∷ 0x76f988da ∷ 0x983e5152 ∷ 0xa831c66d ∷ 0xb00327c8 ∷ 0xbf597fc7
    ∷ 0xc6e00bf3 ∷ 0xd5a79147 ∷ 0x06ca6351 ∷ 0x14292967 ∷ 0x27b70a85 ∷ 0x2e1b2138 ∷ 0x4d2c6dfc
    ∷ 0x53380d13 ∷ 0x650a7354 ∷ 0x766a0abb ∷ 0x81c2c92e ∷ 0x92722c85 ∷ 0xa2bfe8a1 ∷ 0xa81a664b
    ∷ 0xc24b8b70 ∷ 0xc76c51a3 ∷ 0xd192e819 ∷ 0xd6990624 ∷ 0xf40e3585 ∷ 0x106aa070 ∷ 0x19a4c116
    ∷ 0x1e376c08 ∷ 0x2748774c ∷ 0x34b0bcb5 ∷ 0x391c0cb3 ∷ 0x4ed8aa4a ∷ 0x5b9cca4f ∷ 0x682e6ff3
    ∷ 0x748f82ee ∷ 0x78a5636f ∷ 0x84c87814 ∷ 0x8cc70208 ∷ 0x90befffa ∷ 0xa4506ceb ∷ 0xbef9a3f7
    ∷ 0xc67178f2 ∷ []

-- `ror`
abbrev pub ror : ℕ → ℕ → ℕ
ror x n = bit_or (x / 2 ^ n) (u32 (x * 2 ^ (32 - n)))

abbrev pub word_at : List ℕ → ℕ → ℕ
word_at w i = get_or w i 0

-- The first 16 words of `shaBlock`, with `n` of them left.
unfoldable pub block_words : ℕ → List ℕ → List ℕ
block_words zero b = []
block_words (suc n) b =
    (word_at b 0 * 2 ^ 24 + word_at b 1 * 2 ^ 16 + word_at b 2 * 2 ^ 8 + word_at b 3)
    ∷ block_words n (drop 4 b)

-- The word that follows `w`.
abbrev pub next_word : List ℕ → ℕ
next_word w =
    let i = length w in
    let x = word_at w (i - 15) in
    let y = word_at w (i - 2) in
    let s0 = bit_xor (bit_xor (ror x 7) (ror x 18)) (x / 2 ^ 3) in
    let s1 = bit_xor (bit_xor (ror y 17) (ror y 19)) (y / 2 ^ 10) in
    u32 (word_at w (i - 16) + s0 + word_at w (i - 7) + s1)

-- The loop that extends the words, with `n` to go.
unfoldable pub extend : ℕ → List ℕ → List ℕ
extend zero w = w
extend (suc n) w = extend n (w ++ (next_word w ∷ []))

-- One round: from a, b, ..., h with the constant `k` and the word `w`.
unfoldable pub sha_round : List ℕ → ℕ → ℕ → List ℕ
sha_round (a ∷ b ∷ c ∷ d ∷ e ∷ f ∷ g ∷ h ∷ []) k w =
    let s1 = bit_xor (bit_xor (ror e 6) (ror e 11)) (ror e 25) in
    let ch = bit_xor (bit_and e f) (bit_and (0xFFFFFFFF - e) g) in
    let t1 = h + s1 + ch + k + w in
    let s0 = bit_xor (bit_xor (ror a 2) (ror a 13)) (ror a 22) in
    let maj = bit_xor (bit_xor (bit_and a b) (bit_and a c)) (bit_and b c) in
    u32 (t1 + s0 + maj) ∷ a ∷ b ∷ c ∷ u32 (d + t1) ∷ e ∷ f ∷ g ∷ []
sha_round x k w = x

unfoldable pub sha_rounds : List ℕ → List ℕ → List ℕ → List ℕ
sha_rounds x [] ws = x
sha_rounds x (k ∷ ks) [] = x
sha_rounds x (k ∷ ks) (w ∷ ws) = sha_rounds (sha_round x k w) ks ws

unfoldable pub add_words : List ℕ → List ℕ → List ℕ
add_words [] ys = []
add_words (x ∷ xs) [] = []
add_words (x ∷ xs) (y ∷ ys) = u32 (x + y) ∷ add_words xs ys

-- `shaBlock`
abbrev pub sha_block : List ℕ → List ℕ → List ℕ
sha_block h b = add_words h (sha_rounds h k256 (extend 48 (block_words 16 b)))

-- The blocks of 64 bytes, `n` of them left.
unfoldable pub sha_blocks : ℕ → List ℕ → List ℕ → List ℕ
sha_blocks zero h d = h
sha_blocks (suc n) h d = sha_blocks n (sha_block h (take 64 d)) (drop 64 d)

-- The bytes of a number, `n` of them, the high one first.
unfoldable pub big_endian : ℕ → ℕ → List ℕ
big_endian zero v = []
big_endian (suc n) v = (v / 2 ^ (8 * n) % 256) ∷ big_endian n v

-- The last block, or the last two.
abbrev pub sha_tail : List ℕ → List ℕ
sha_tail d =
    let rem = length d % 64 in
    let tl = if ltb rem 56 then 64 else 128 in
    drop (length d - rem) d
    ++ (0x80 ∷ [])
    ++ replicate (tl - 9 - rem) 0
    ++ big_endian 8 (length d * 8 % 2 ^ 64)

abbrev pub sha_start : List ℕ
sha_start =
    0x6a09e667 ∷ 0xbb67ae85 ∷ 0x3c6ef372 ∷ 0xa54ff53a ∷ 0x510e527f ∷ 0x9b05688c ∷ 0x1f83d9ab
    ∷ 0x5be0cd19 ∷ []

unfoldable pub word_bytes : List ℕ → List ℕ
word_bytes [] = []
word_bytes (w ∷ ws) = big_endian 4 w ++ word_bytes ws

-- `credSha256`
unfoldable pub cred_sha256 : List ℕ → List ℕ
cred_sha256 d =
    let tail = sha_tail d in
    let h = sha_blocks (length d / 64) sha_start d in
    word_bytes (sha_blocks (length tail / 64) h tail)

-- Bytes as hexadecimal digits.
abbrev pub hex_digit : ℕ → ℕ
hex_digit n = if ltb n 10 then b'0' + n else b'a' + (n - 10)

unfoldable pub hex : List ℕ → List ℕ
hex [] = []
hex (x ∷ xs) = hex_digit (x / 16) ∷ hex_digit (x % 16) ∷ hex xs

-- `credFingerprint`
unfoldable pub cred_fingerprint : List ℕ → List ℕ
cred_fingerprint d = codes "sha256:" ++ hex (take 4 (cred_sha256 d))

-- `credCaFingerprint`; `heap` says whether there is memory for the certificate.
unfoldable pub cred_ca_fingerprint : Bool → List ℕ → List ℕ
cred_ca_fingerprint heap pem =
    if not heap then codes "sha256:????????" else elim (cred_pem_to_der pem 2048) [
      | none ↦ codes "sha256:????????"
      | some der ↦ cred_fingerprint der
    ]
