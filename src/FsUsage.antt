-- ===== src/FsUsage.antt =====
-- firmware/include/fsusage.h: the bytes that the filesystem uses, kept by accounting data blocks.
use cardiag.Base.{
  Bool, arith, if◌then◌else◌, leb, ltb, not, true, u32, u8, ℕ, ◌*◌, ◌+◌, ◌-◌, ◌/◌, ◌<◌, ◌==◌, ◌^◌,
  ◌||◌, ◌≤◌, ◌≡◌, ◌∙◌, refl, Bool-cases, inl, leb→le, inr, ap,
}

-- `struct FsUsage`
pub record FsUsage : Type 0 where
  pub block_bytes : ℕ
  pub inline_max : ℕ
  pub total_bytes : ℕ
  pub used_bytes : ℕ
  pub live : Bool

-- `fsDataBlocks`
unfoldable pub data_blocks : FsUsage → ℕ → ℕ
data_blocks u bytes =
    if leb bytes u.inline_max || u.block_bytes == 0
    then 0
    else u32 ((bytes + u.block_bytes - 1) / u.block_bytes)

-- `fsUsageMeasured`
unfoldable pub measured : FsUsage → ℕ → ℕ → FsUsage
measured u total used = record u { total_bytes = total; used_bytes = used; live = true }

-- The first branch of `fsUsageResize`: `a` blocks grow to `b`.
abbrev pub grown : FsUsage → ℕ → ℕ → ℕ
grown u a b =
    let n = u.used_bytes + (b - a) * u.block_bytes in
    if ltb u.total_bytes n then u.total_bytes else u32 n

-- The second branch: `a` blocks shrink to `b`.
abbrev pub shrunk : FsUsage → ℕ → ℕ → ℕ
shrunk u a b =
    let sub = (a - b) * u.block_bytes in if ltb u.used_bytes sub then 0 else u.used_bytes - u32 sub

-- `fsUsageResize`
unfoldable pub resize : FsUsage → ℕ → ℕ → FsUsage
unfolding data_blocks
resize u old_bytes new_bytes =
    let a = data_blocks u old_bytes in
    let b = data_blocks u new_bytes in
    if not u.live
    then u
    else record u { used_bytes = if leb a b then grown u a b else shrunk u a b }

-- `fsUsagePct`
unfoldable pub pct : FsUsage → ℕ
pct u = if u.total_bytes == 0 then 0 else u8 (u.used_bytes * 100 / u.total_bytes)

grown_le :
    (u : FsUsage) (a b : ℕ)
    → u.used_bytes ≤ u.total_bytes
    → u.total_bytes < 2 ^ 32
    → grown u a b ≤ u.total_bytes
grown_le u a b h k = let m = (b - a) * u.block_bytes in ground arith

shrunk_le : (u : FsUsage) (a b : ℕ) → u.used_bytes ≤ u.total_bytes → shrunk u a b ≤ u.total_bytes
shrunk_le u a b h = let m = (a - b) * u.block_bytes in ground arith

-- The account never exceeds the size of the filesystem.
pub resize_le :
    (u : FsUsage) (old_bytes new_bytes : ℕ)
    → u.used_bytes ≤ u.total_bytes
    → u.total_bytes < 2 ^ 32
    → (resize u old_bytes new_bytes).used_bytes ≤ (resize u old_bytes new_bytes).total_bytes
unfolding resize
resize_le u old new h k =
    let g = grown_le u (data_blocks u old) (data_blocks u new) h k in
    let s = shrunk_le u (data_blocks u old) (data_blocks u new) h in ground arith

grown_exact :
    (u : FsUsage) (a b : ℕ)
    → u.used_bytes + (b - a) * u.block_bytes ≤ u.total_bytes
    → u.total_bytes < 2 ^ 32
    → grown u a b ≡ u.used_bytes + (b - a) * u.block_bytes
grown_exact u a b h k = let m = (b - a) * u.block_bytes in ground arith

shrunk-grown :
    (u : FsUsage) (a b n : ℕ)
    → n ≡ u.used_bytes + (b - a) * u.block_bytes
    → n < 2 ^ 32
    → shrunk (record u { used_bytes = n }) b a ≡ u.used_bytes
shrunk-grown u a b n e h = let m = (b - a) * u.block_bytes in ground arith

no_blocks : (a b c : ℕ) → a ≤ b → (a - b) * c ≡ 0
no_blocks a b c h = let e : a - b ≡ 0 = omega arith in rw e (omega arith)

grown_back :
    (u : FsUsage) (a b n : ℕ)
    → a ≤ b
    → b ≤ a
    → n ≡ u.used_bytes + (b - a) * u.block_bytes
    → n ≤ u.total_bytes
    → u.total_bytes < 2 ^ 32
    → grown (record u { used_bytes = n }) b a ≡ u.used_bytes
grown_back u a b n h g e le k =
    let x = no_blocks a b u.block_bytes h in let y = no_blocks b a u.block_bytes g in ground arith

resize-used :
    (u : FsUsage) (old new : ℕ)
    → u.live ≡ true
    → (resize u old new).used_bytes ≡ (
        if leb (data_blocks u old) (data_blocks u new)
        then grown u (data_blocks u old) (data_blocks u new)
        else shrunk u (data_blocks u old) (data_blocks u new))
unfolding resize
resize-used u old new l = rw l refl

abbrev with_used : FsUsage → ℕ → FsUsage
with_used u n = record u { used_bytes = n }

data_blocks-with_used : (u : FsUsage) (n x : ℕ) → data_blocks (with_used u n) x ≡ data_blocks u x
unfolding data_blocks
data_blocks-with_used u n x = refl

resize-with_used :
    (u : FsUsage) (old new : ℕ)
    → u.live ≡ true
    → resize u old new ≡ with_used u (resize u old new).used_bytes
unfolding resize
resize-with_used u old new l = rw l refl

resize_back :
    (u : FsUsage) (old new n : ℕ)
    → u.live ≡ true
    → (resize (with_used u n) new old).used_bytes ≡ (
        if leb (data_blocks u new) (data_blocks u old)
        then grown (with_used u n) (data_blocks u new) (data_blocks u old)
        else shrunk (with_used u n) (data_blocks u new) (data_blocks u old))
unfolding data_blocks
resize_back u old new n l = resize-used (with_used u n) new old l

-- A file that grows and then shrinks back, or is removed again, gives back exactly what it took,
-- as long as the growth fits the filesystem.
pub resize-resize :
    (u : FsUsage) (old_bytes new_bytes : ℕ)
    → u.live ≡ true
    → data_blocks u old_bytes ≤ data_blocks u new_bytes
    → u.used_bytes + (data_blocks u new_bytes - data_blocks u old_bytes) * u.block_bytes
      ≤ u.total_bytes
    → u.total_bytes < 2 ^ 32
    → (resize (resize u old_bytes new_bytes) new_bytes old_bytes).used_bytes ≡ u.used_bytes
resize-resize u old new l le h k =
    let a = data_blocks u old in
    let b = data_blocks u new in
    let n = (resize u old new).used_bytes in
    let t : leb a b ≡ true = ground arith in
    let first : n ≡ grown u a b = resize-used u old new l ∙ rw t refl in
    let e : n ≡ u.used_bytes + (b - a) * u.block_bytes = first ∙ grown_exact u a b h k in
    let back : (resize (with_used u n) new old).used_bytes ≡ u.used_bytes =
      resize_back u old new n l ∙ elim (Bool-cases (leb b a)) [
        | inl p ↦ rw p (grown_back u a b n le (leb→le b a p) e (omega arith) k)
        | inr p ↦ rw p (shrunk-grown u a b n e (omega arith))
      ] in
    ap (λ x. (resize x new old).used_bytes) (resize-with_used u old new l) ∙ back
