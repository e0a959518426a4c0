-- ===== src/PollPlan/Codec.antt =====
-- The plan as it is kept in NVS.
use cardiag.Base.{
  All, List, Option, [], ap, arith, drop, get_or, if◌then◌else◌, length, ltb, none, not, refl, some,
  suc, sym, true, zero, ℕ, ◌%◌, ◌*◌, ◌++◌, ◌+◌, ◌/◌, ◌<◌, ◌==◌, ◌^◌, ◌||◌, ◌∙◌, ◌∷◌, ◌≡◌, ◌≤◌,
}
use cardiag.PollPlan.{poll_plan_max, PollEntry, entries_valid, plan_valid}

-- A uint32_t in the order of its bytes.
abbrev pub le32 : ℕ → List ℕ
le32 v = (v % 256) ∷ (v / 256 % 256) ∷ (v / 65536 % 256) ∷ (v / 16777216 % 256) ∷ []

encode_entries : List PollEntry → List ℕ
encode_entries [] = []
encode_entries (e ∷ es) = e.mode ∷ e.pid ∷ (le32 e.period_ms ++ encode_entries es)

-- `pollPlanEncode`; the bytes written, none when they do not fit.
unfoldable pub poll_plan_encode : List PollEntry → ℕ → List ℕ
unfolding encode_entries
poll_plan_encode p cap =
    let need = 2 + length p * 6 in
    if ltb poll_plan_max (length p) || ltb cap need then [] else 1 ∷ length p ∷ encode_entries p

-- The entry that starts a list of bytes.
abbrev pub entry_at : List ℕ → PollEntry
entry_at q = record {
  mode = get_or q 0 0;
  pid = get_or q 1 0;
  period_ms = get_or q 2 0 + get_or q 3 0 * 256 + get_or q 4 0 * 65536 + get_or q 5 0 * 16777216;
}

decode_entries : ℕ → List ℕ → List PollEntry
decode_entries zero q = []
decode_entries (suc n) q = entry_at q ∷ decode_entries n (drop 6 q)

-- `pollPlanDecode`
unfoldable pub poll_plan_decode : List ℕ → Option (List PollEntry)
unfolding decode_entries
poll_plan_decode buf =
    let n = length buf in
    let k = get_or buf 1 0 in
    let p = decode_entries k (drop 2 buf) in
    if ltb n 2 || (not (get_or buf 0 0 == 1) || ltb poll_plan_max k)
    then none
    else if not (n == 2 + k * 6)
    then none
    else if plan_valid p
    then some p
    else none

length-encode_entries : (p : List PollEntry) → length (encode_entries p) ≡ length p * 6
unfolding encode_entries
length-encode_entries [] = refl
length-encode_entries (e ∷ es) = omega (arith, length-encode_entries es)

abbrev pub Fits : PollEntry → Type 0
Fits e = e.period_ms < 2 ^ 32

decode_entries-encode_entries :
    (p : List PollEntry) → All Fits p → decode_entries (length p) (encode_entries p) ≡ p
unfolding encode_entries decode_entries
decode_entries-encode_entries [] a = refl
decode_entries-encode_entries (e ∷ es) a =
    let same : entry_at (encode_entries (e ∷ es)) ≡ e = ground arith in
    ap (λ x. x ∷ decode_entries (length es) (encode_entries es)) same
    ∙ ap (◌∷◌ e) (decode_entries-encode_entries es a.1)

entries_valid-Fits :
    (b : Option PollEntry) (p : List PollEntry) → entries_valid b p ≡ true → All Fits p
unfolding entries_valid
entries_valid-Fits b [] h = tt
entries_valid-Fits b (e ∷ es) h = (ground arith, entries_valid-Fits (some e) es (ground arith))

plan_valid-parts :
    (p : List PollEntry) → plan_valid p ≡ true → (length p ≤ 32) × (entries_valid none p ≡ true)
unfolding plan_valid
plan_valid-parts p v = ground arith

encode_whole :
    (p : List PollEntry) (cap : ℕ)
    → length p ≤ 32
    → 194 ≤ cap
    → 1 ∷ length p ∷ encode_entries p ≡ poll_plan_encode p cap
unfolding poll_plan_encode
encode_whole p cap l h = ground arith

decode_whole :
    (p : List PollEntry) (q : List ℕ)
    → plan_valid p ≡ true
    → length p ≤ 32
    → length q ≡ length p * 6
    → decode_entries (length p) q ≡ p
    → poll_plan_decode (1 ∷ length p ∷ q) ≡ some p
unfolding poll_plan_decode
decode_whole p q v l e same =
    let w : plan_valid (decode_entries (length p) q) ≡ true = ap plan_valid same ∙ v in ground arith

pub length-poll_plan_encode :
    (p : List PollEntry) (cap : ℕ)
    → plan_valid p ≡ true
    → 194 ≤ cap
    → (length (poll_plan_encode p cap) ≡ 2 + length p * 6) × (length p ≤ 32)
length-poll_plan_encode p cap v h =
    let (l, w) = plan_valid-parts p v in
    let n = length-encode_entries p in
    (ap length (sym (encode_whole p cap l h)) ∙ omega (arith, n), l)

-- Every valid plan survives its encoding into a buffer of at least 194 bytes.
pub poll_plan_decode-poll_plan_encode :
    (p : List PollEntry) (cap : ℕ)
    → plan_valid p ≡ true
    → 194 ≤ cap
    → poll_plan_decode (poll_plan_encode p cap) ≡ some p
poll_plan_decode-poll_plan_encode p cap v h =
    let (l, w) = plan_valid-parts p v in
    ap poll_plan_decode (sym (encode_whole p cap l h))
    ∙ decode_whole p (encode_entries p) v l (length-encode_entries p)
        (decode_entries-encode_entries p (entries_valid-Fits none p w))

-- What is read back is a valid plan, whatever the bytes are.
pub poll_plan_decode-plan_valid :
    (buf : List ℕ) (p : List PollEntry) → poll_plan_decode buf ≡ some p → plan_valid p ≡ true
unfolding poll_plan_decode
poll_plan_decode-plan_valid buf p h = ground arith
