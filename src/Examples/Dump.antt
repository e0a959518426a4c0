-- ===== src/Examples/Dump.antt =====
-- A core dump image with 8 bytes in front of an ELF that has one segment.
use cardiag.Base.{
  List, [], arith, drop, refl, replicate, some, take, ℕ, ◌%◌, ◌++◌, ◌+◌, ◌∷◌, ◌≡◌, ◌≤◌,
}
use cardiag.CoreDump.{Reader, find_magic, header_of, segments_end, cd_elf_extent}
use cardiag.CoreDump.Extent.{Covers, cd_elf_extent-Covers}

abbrev elf_header : List ℕ
elf_header =
    ((0x7F ∷ b'E' ∷ b'L' ∷ b'F' ∷ 1 ∷ 1 ∷ []) ++ replicate 22 0)
    ++ ((52 ∷ 0 ∷ 0 ∷ 0 ∷ []) ++ replicate 8 0)
    ++ (52 ∷ 0 ∷ 32 ∷ 0 ∷ 1 ∷ 0 ∷ 40 ∷ 0 ∷ 0 ∷ 0 ∷ 0 ∷ 0 ∷ [])

abbrev program_header : List ℕ
program_header =
    ((4 ∷ 0 ∷ 0 ∷ 0 ∷ 84 ∷ 0 ∷ 0 ∷ 0 ∷ []) ++ replicate 8 0)
    ++ ((8 ∷ 0 ∷ 0 ∷ 0 ∷ []) ++ replicate 12 0)

abbrev image : List ℕ
image = replicate 8 9 ++ elf_header ++ program_header ++ replicate 12 7

abbrev read_image : Reader
read_image off len = some (take len (drop off image))

image_found : cd_elf_extent read_image 104 ≡ some (8, 92)
unfolding cd_elf_extent find_magic segments_end
image_found = refl

cd_elf_extent-Covers_example :
    (8 % 4 ≡ 0)
    × (8 + 92 ≤ 104)
    × ((eh : List ℕ) × (read_image 8 52 ≡ some eh) × Covers read_image 8 92 (header_of eh))
cd_elf_extent-Covers_example = cd_elf_extent-Covers read_image 104 (8, 92) (omega arith) image_found
