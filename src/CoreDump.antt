-- ===== src/CoreDump.antt =====
-- firmware/include/cdelf.h: where the ELF is inside a stored core dump image. The reader of the
-- image is a function from an offset and a length to the bytes, none when the read fails.
pub mod Extent
use cardiag.Base.{
  Bool, List, Option, [], drop, get_or, if◌then◌else◌, leb, ltb, min, none, not, some, suc, take,
  u32, zero, ℕ, ◌&&◌, ◌*◌, ◌+◌, ◌==◌, ◌>>=◌, ◌||◌, ◌∷◌, same,
}

abbrev pub Reader : Type 0
Reader = ℕ → ℕ → Option (List ℕ)

abbrev pub cd_elf_scan_bytes : ℕ
cd_elf_scan_bytes = 256

abbrev pub cd_elf_max_phdrs : ℕ
cd_elf_max_phdrs = 512

abbrev pub byte_at : List ℕ → ℕ → ℕ
byte_at p k = get_or p k 0

-- `cdU16`
abbrev pub cd_u16 : List ℕ → ℕ → ℕ
cd_u16 p k = byte_at p k + byte_at p (k + 1) * 256

-- `cdU32`
abbrev pub cd_u32 : List ℕ → ℕ → ℕ
cd_u32 p k =
    byte_at p k + byte_at p (k + 1) * 256 + byte_at p (k + 2) * 65536 + byte_at p (k + 3) * 16777216

-- The scan for the magic, over the 4-byte steps that are left.
unfoldable pub find_magic : ℕ → ℕ → ℕ → List ℕ → Option ℕ
find_magic zero i scan head = none
find_magic (suc n) i scan head =
    let rest = find_magic n (i + 4) scan head in
    if ltb scan (i + 4)
    then none
    else if same (take 4 (drop i head)) (0x7F ∷ b'E' ∷ b'L' ∷ b'F' ∷ [])
    then some i
    else rest

-- The fields of the ELF header that are used.
pub record ElfHeader : Type 0 where
  pub phoff : ℕ
  pub shoff : ℕ
  pub ehsize : ℕ
  pub phentsize : ℕ
  pub phnum : ℕ
  pub shentsize : ℕ
  pub shnum : ℕ

abbrev pub header_of : List ℕ → ElfHeader
header_of eh = record {
  phoff = cd_u32 eh 28;
  shoff = cd_u32 eh 32;
  ehsize = cd_u16 eh 40;
  phentsize = cd_u16 eh 42;
  phnum = cd_u16 eh 44;
  shentsize = cd_u16 eh 46;
  shnum = cd_u16 eh 48;
}

-- The checks on the header.
abbrev pub plausible : ElfHeader → Bool
plausible h =
    leb 52 h.ehsize
    && ((h.phnum == 0 || h.phentsize == 32)
        && (leb h.phnum cd_elf_max_phdrs && (h.shnum == 0 || h.shentsize == 40)))

-- The furthest byte of the header and the two tables.
abbrev pub raise : ℕ → ℕ → ℕ
raise e end = if ltb end e then e else end

abbrev pub tables_end : ElfHeader → ℕ
tables_end h =
    let end = if h.phnum == 0 then h.ehsize else raise (h.phoff + h.phnum * h.phentsize) h.ehsize in
    if h.shnum == 0 then end else raise (h.shoff + h.shnum * h.shentsize) end

-- The loop over the program headers, from `i` on, `n` of them left.
unfoldable pub segments_end : Reader → ℕ → ℕ → ℕ → ℕ → Option ℕ
segments_end read at zero i end = some end
segments_end read at (suc n) i end = do
  ph ← read (u32 (at + i * 32)) 32
  segments_end read at n (i + 1) (raise (cd_u32 ph 4 + cd_u32 ph 16) end)

-- The end of `cdElfExtent`: what the headers claim lies in the image.
abbrev pub extent_of : Reader → ℕ → ℕ → ElfHeader → Option (ℕ × ℕ)
extent_of read image_size off h =
    if not (plausible h) || ltb image_size (off + tables_end h)
    then none
    else (segments_end read (off + h.phoff) h.phnum 0 (tables_end h) >>= λ end.
        if ltb image_size (off + end) then none else some (off, u32 end))

-- `cdElfExtent`, once the magic is found.
abbrev pub elf_at : Reader → ℕ → ℕ → Option (ℕ × ℕ)
elf_at read image_size off =
    if ltb image_size (off + 52)
    then none
    else (read off 52 >>= λ eh.
        if not (byte_at eh 4 == 1) || not (byte_at eh 5 == 1)
        then none
        else extent_of read image_size off (header_of eh))

-- `cdElfExtent`: the offset and the length.
unfoldable pub cd_elf_extent : Reader → ℕ → Option (ℕ × ℕ)
cd_elf_extent read image_size =
    let scan = min image_size cd_elf_scan_bytes in
    if ltb image_size 52
    then none
    else (read 0 scan >>= λ head. find_magic 64 0 scan head >>= λ off. elf_at read image_size off)
