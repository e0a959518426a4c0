-- ===== src/CoreDump/Extent.antt =====
-- What is found lies in the image and covers all that its headers claim.
use mathlib.Core.Path.{subst}
use cardiag.Base.{
  List, ap, arith, bind_some, if◌then◌else◌, inl, inr, ltb, min, none, not, refl, some, suc, sym,
  u32, zero, ℕ, ◌%◌, ◌*◌, ◌+◌, ◌<◌, ◌==◌, ◌^◌, ◌||◌, ◌∙◌, ◌≡◌, ◌≤◌, ◌⊎◌, passed,
}
use cardiag.CoreDump.{
  Reader, cd_elf_scan_bytes, byte_at, cd_u32, find_magic, ElfHeader, header_of, plausible, raise,
  tables_end, segments_end, extent_of, cd_elf_extent,
}

-- The program header at `place`, and that its segment ends by `end`.
abbrev pub SegmentWithin : Reader → ℕ → ℕ → Type 0
SegmentWithin read place end =
    (ph : List ℕ) × (read (u32 place) 32 ≡ some ph) × (cd_u32 ph 4 + cd_u32 ph 16 ≤ end)

-- The program headers `i` to `i + n`.
abbrev pub SegmentsWithin : Reader → ℕ → ℕ → ℕ → ℕ → Type 0
SegmentsWithin read at zero i end = Unit
SegmentsWithin read at (suc n) i end =
    SegmentWithin read (at + i * 32) end × SegmentsWithin read at n (i + 1) end

raise_le : (e end : ℕ) → (e ≤ raise e end) × (end ≤ raise e end)
raise_le e end = ground arith

segments_end_lem :
    (read : Reader) (at n i end e : ℕ)
    → segments_end read at n i end ≡ some e
    → (end ≤ e) × SegmentsWithin read at n i e
unfolding segments_end
segments_end_lem read at zero i end e h = (ground arith, tt)
segments_end_lem read at (suc n) i end e h =
    let (ph, r, k) = bind_some (read (u32 (at + i * 32)) 32) _ _ h in
    let (l, w) = segments_end_lem read at n (i + 1) (raise (cd_u32 ph 4 + cd_u32 ph 16) end) e k in
    let (a, b) = raise_le (cd_u32 ph 4 + cd_u32 ph 16) end in
    (omega arith, ((ph, r, omega arith), w))

-- A table of `count` entries of `size` bytes from `start` on ends by `end`, or is empty.
abbrev pub TableWithin : ℕ → ℕ → ℕ → ℕ → Type 0
TableWithin start count size end = (count ≡ 0) ⊎ (start + count * size ≤ end)

-- What the `len` bytes from `off` on cover, when they hold an ELF with the header `h`.
pub record Covers (read : Reader) (off len : ℕ) (h : ElfHeader) : Type 0 where
  pub header : 52 ≤ len
  pub programs : TableWithin h.phoff h.phnum h.phentsize len
  pub sections : TableWithin h.shoff h.shnum h.shentsize len
  pub segments : SegmentsWithin read (off + h.phoff) h.phnum 0 len

find_magic_aligned :
    (n i scan : ℕ) (head : List ℕ) (off : ℕ)
    → i % 4 ≡ 0
    → find_magic n i scan head ≡ some off
    → off % 4 ≡ 0
unfolding find_magic
find_magic_aligned zero i scan head off h k = absurd (ground arith)
find_magic_aligned (suc n) i scan head off h k =
    ground (arith, find_magic_aligned n (i + 4) scan head off (omega arith))

tables_end_lem :
    (h : ElfHeader)
    → (h.ehsize ≤ tables_end h)
      × TableWithin h.phoff h.phnum h.phentsize (tables_end h)
      × TableWithin h.shoff h.shnum h.shentsize (tables_end h)
tables_end_lem h = (ground arith, ground arith, ground arith)

TableWithin-weaken :
    (start count size e end : ℕ)
    → e ≤ end
    → TableWithin start count size e
    → TableWithin start count size end
TableWithin-weaken start count size e end l (inl z) = inl z
TableWithin-weaken start count size e end l (inr h) = inr (omega arith)

extent_end :
    (n off end : ℕ) (r : ℕ × ℕ)
    → n < 2 ^ 32
    → (if ltb n (off + end) then none else some (off, u32 end)) ≡ some r
    → (off + end ≤ n) × ((off, end) ≡ r)
extent_end n off end r l h =
    let (b, e) = passed (ltb n (off + end)) (some (off, u32 end)) r h in
    let f : off + end ≤ n = ground arith in
    let m : u32 end ≡ end = ground arith in
    let x : (off, u32 end) ≡ r = ground arith in (f, ap (λ z. (off, z)) (sym m) ∙ x)

extent_of-Covers :
    (read : Reader) (n off : ℕ) (h : ElfHeader) (r : ℕ × ℕ)
    → n < 2 ^ 32
    → extent_of read n off h ≡ some r
    → (r.0 ≡ off) × (off + r.1 ≤ n) × Covers read off r.1 h
extent_of-Covers read n off h r l k =
    let scan = segments_end read (off + h.phoff) h.phnum 0 (tables_end h) in
    let (p, q) = passed (not (plausible h) || ltb n (off + tables_end h)) _ r k in
    let (end, e, z) = bind_some scan _ _ q in
    let (m, s) = segments_end_lem read (off + h.phoff) h.phnum 0 (tables_end h) end e in
    let (a, b, c) = tables_end_lem h in
    let (f, g) = extent_end n off end r l z in
    let least : 52 ≤ h.ehsize = ground arith in
    subst (λ r. (r.0 ≡ off) × (off + r.1 ≤ n) × Covers read off r.1 h) g
      (
        refl,
        f,
        record {
          header = omega arith;
          programs = TableWithin-weaken h.phoff h.phnum h.phentsize (tables_end h) end m b;
          sections = TableWithin-weaken h.shoff h.shnum h.shentsize (tables_end h) end m c;
          segments = s;
        },
      )

-- An extent that is found in an image of less than 2^32 bytes starts at a multiple of 4, ends in
-- the image, and covers the ELF header that is read there, the two tables that this header names,
-- and the bytes of every segment that the program headers name.
pub cd_elf_extent-Covers :
    (read : Reader) (n : ℕ) (r : ℕ × ℕ)
    → n < 2 ^ 32
    → cd_elf_extent read n ≡ some r
    → (r.0 % 4 ≡ 0)
      × (r.0 + r.1 ≤ n)
      × ((eh : List ℕ) × (read r.0 52 ≡ some eh) × Covers read r.0 r.1 (header_of eh))
unfolding cd_elf_extent
cd_elf_extent-Covers read n r l h =
    let scan = min n cd_elf_scan_bytes in
    let (a, h1) = passed (ltb n 52) _ r h in
    let (head, e1, h2) = bind_some (read 0 scan) _ _ h1 in
    let (off, e2, h3) = bind_some (find_magic 64 0 scan head) _ _ h2 in
    let (b, h4) = passed (ltb n (off + 52)) _ r h3 in
    let (eh, e3, h5) = bind_some (read off 52) _ _ h4 in
    let (c, h6) = passed (not (byte_at eh 4 == 1) || not (byte_at eh 5 == 1)) _ r h5 in
    let (same_off, inside, covers) = extent_of-Covers read n off (header_of eh) r l h6 in
    let aligned = find_magic_aligned 64 0 scan head off (omega arith) e2 in
    let At = λ (o : ℕ).
      (o % 4 ≡ 0)
      × (o + r.1 ≤ n)
      × ((eh : List ℕ) × (read o 52 ≡ some eh) × Covers read o r.1 (header_of eh)) in
    subst At (sym same_off) (aligned, inside, (eh, e3, covers))
