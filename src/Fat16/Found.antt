-- ===== src/Fat16/Found.antt =====
-- What `fat16_open` finds in a directory, told from the bytes of its entries.
use Prim.Native.Nat.{bit_and, bit_or}
use archarch.Base.{
  ℕ, ◌+◌, ◌*◌, ◌%◌, ◌^◌, ◌<◌, ◌≡◌, ◌≢◌, inl, inr, refl, ap, sym, arith, true, not, ◌||◌, ◌==◌,
  Bool-cases, Option, none, some, List, [], ◌∷◌, ◌++◌, all_below, all_below_sound,
}
use archarch.Fat16.{
  Sector, Fs, File, bytes_at, read16, read32, dirent_at, entry_kind, open_mask, file_of, open_file,
}
use archarch.Fat16.Name.{fat83_cmp}
use archarch.Fat16.Names.{fat83_cmp_sound, fat83_cmp_refl}
use archarch.Fat16.Format.{fat_name, to_fat83-fat_name}
use archarch.Fat16.Directory.{Entry, entries_from, first_match, open_file-first_match}

-- Entry `i` of the sector `s` is that of a file named `name`: it is not deleted, has none of the four
-- low attributes, and its first eleven bytes are the name.
pub record Bears (name : List ℕ) (s : Sector) (i : ℕ) : Type 0 where
  pub alive : s (32 * i) ≢ 0xE5
  pub plain : bit_and (s (32 * i + 11)) 0x0F ≡ 0
  pub named : bytes_at s (32 * i) 11 ≡ name

abbrev pub size_at : Sector → ℕ → ℕ
size_at s i =
    bit_or
      (bit_or (bit_or (s (32 * i + 28)) (s (32 * i + 28 + 1) * 2 ^ 8))
        (s (32 * i + 28 + 2) * 2 ^ 16))
      (s (32 * i + 28 + 3) * 2 ^ 24)

abbrev pub file_at : Sector → ℕ → File
file_at s i =
    let cluster = bit_or (s (32 * i + 26)) (s (32 * i + 26 + 1) * 2 ^ 8) in
    record {
      first_cluster = cluster;
      file_size = size_at s i;
      position = 0;
      current_cluster = cluster;
    }

-- The file of the first entry that bears the name, in front of the entry that begins with 0.
pub data Opened (name : List ℕ) : List Entry → Option File → Type 0 where
  nothing_left : Opened name [] none
  at_end : (s : Sector) (i : ℕ) (es : List Entry) → s (32 * i) ≡ 0 → Opened name ((s, i) ∷ es) none
  passes :
      (s : Sector) (i : ℕ) (es : List Entry) (r : Option File)
      → s (32 * i) ≢ 0
      → ¬ Bears name s i
      → Opened name es r
      → Opened name ((s, i) ∷ es) r
  found :
      (s : Sector) (i : ℕ) (es : List Entry)
      → s (32 * i) ≢ 0
      → Bears name s i
      → Opened name ((s, i) ∷ es) (some (file_at s i))

eleven : (s : Sector) (i : ℕ) → let de = dirent_at s i in de.name ++ de.ext ≡ bytes_at s (32 * i) 11
unfolding dirent_at bytes_at
eleven s i =
    let there : 32 * i + 8 ≡ 32 * i + 1 + 1 + 1 + 1 + 1 + 1 + 1 + 1 = omega arith in
    ap (λ a. bytes_at s (32 * i) 8 ++ bytes_at s a 3) there

file_of-file_at : (s : Sector) (i : ℕ) → file_of (dirent_at s i) ≡ file_at s i
unfolding file_of dirent_at read16 read32
file_of-file_at s i = refl

open_is : open_mask ≡ 0x0F
unfolding open_mask
open_is = refl

plain_of : (a : ℕ) → (bit_and a open_mask == 0) ≡ true → bit_and a 0x0F ≡ 0
plain_of a h = rw (sym open_is) (ground (arith, h))

first_match-Opened : (name : List ℕ) (es : List Entry) → Opened name es (first_match name es)
unfolding first_match entry_kind
first_match-Opened name [] = nothing_left
first_match-Opened name ((s, i) ∷ es) =
    let rest = first_match-Opened name es in
    elim (Bool-cases (s (32 * i) == 0)) [
      | inl e0 ↦ rw (e0, entry_kind, first_match) (at_end s i es (ground (arith, e0)))
      | inr e0 ↦ elim (Bool-cases (s (32 * i) == 0xE5)) [
        | inl e1 ↦
            rw (e0, e1, entry_kind, first_match)
              (passes s i es _ (ground (arith, e0)) (λ b. b.alive (ground (arith, e1))) rest)
        | inr e1 ↦ elim (Bool-cases (bit_and (s (32 * i + 11)) open_mask == 0)) [
          | inr e2 ↦
              rw (e0, e1, e2, entry_kind, first_match)
                (passes s i es _ (ground (arith, e0))
                  (λ b. absurd (ground (arith, e2, open_is, b.plain))) rest)
          | inl e2 ↦ elim (Bool-cases (fat83_cmp name (bytes_at s (32 * i) 11))) [
            | inl e3 ↦
                rw (e0, e1, e2, entry_kind, first_match, eleven s i, e3, file_of-file_at s i)
                  (found s i es (ground (arith, e0)) (record {
                    alive = ground (arith, e1);
                    plain = plain_of (s (32 * i + 11)) e2;
                    named = sym (fat83_cmp_sound name _ e3);
                  }))
            | inr e3 ↦
                rw (e0, e1, e2, entry_kind, first_match, eleven s i, e3)
                  (passes s i es _ (ground (arith, e0))
                    (λ b. absurd (cc (e3, b.named, fat83_cmp_refl name))) rest)
          ]
        ]
      ]
    ]

-- `fat16_open` looks for the eleven characters of the file's name: eight for the part before the
-- first dot and three for what follows the dot, in capitals, each filled up with spaces. It finds the
-- file of the first entry of the root directory with these eleven bytes that is not deleted and has
-- none of the attributes read-only, hidden, system and volume, in front of the entry that begins with
-- 0 and of the first sector that cannot be read; without such an entry it finds none.
pub open_file-Opened :
    (fs : Fs) (filename : List ℕ)
    → Opened (fat_name filename) (entries_from fs.bpb.root_dir_sectors 0 fs) (open_file fs filename)
open_file-Opened fs filename =
    rw (open_file-first_match fs filename, to_fat83-fat_name filename)
      (first_match-Opened (fat_name filename) (entries_from fs.bpb.root_dir_sectors 0 fs))

-- Each of the entries that has the name is read-only.
abbrev pub OnlyReadOnly : List ℕ → List Entry → Type 0
OnlyReadOnly name [] = Unit {0}
OnlyReadOnly name ((s, i) ∷ es) =
    (bytes_at s (32 * i) 11 ≡ name → (s (32 * i + 11) < 256) × (s (32 * i + 11) % 2 ≡ 1))
    × OnlyReadOnly name es

-- An attribute byte with the read-only bit set meets the mask of long names.
read_only_table : all_below 256 (λ a. (a % 2 == 0) || not (bit_and a 0x0F == 0)) ≡ true
unfolding all_below
read_only_table = refl

read_only-Bears :
    (name : List ℕ) (s : Sector) (i : ℕ)
    → (bytes_at s (32 * i) 11 ≡ name → (s (32 * i + 11) < 256) × (s (32 * i + 11) % 2 ≡ 1))
    → ¬ Bears name s i
read_only-Bears name s i only b =
    let (byte, odd) = only b.named in
    absurd (
      ground (
        arith,
        b.plain,
        odd,
        all_below_sound 256 (λ a. (a % 2 == 0) || not (bit_and a 0x0F == 0)) (s (32 * i + 11))
            read_only_table byte,
      ))

Opened-OnlyReadOnly :
    (name : List ℕ) (es : List Entry) (r : Option File)
    → Opened name es r
    → OnlyReadOnly name es
    → r ≡ none
Opened-OnlyReadOnly name _ _ nothing_left only = refl
Opened-OnlyReadOnly name _ _ (at_end s i es e) only = refl
Opened-OnlyReadOnly name _ r (passes s i es _ nonzero not_it rest) only =
    Opened-OnlyReadOnly name es r rest only.1
Opened-OnlyReadOnly name _ _ (found s i es nonzero b) only =
    absurd (read_only-Bears name s i only.0 b)

-- If every entry of the root directory with the eleven characters of the file's name is marked
-- read-only, its attribute byte has the lowest bit set, then `fat16_open` does not find the file.
pub open_file_read_only :
    (fs : Fs) (filename : List ℕ)
    → OnlyReadOnly (fat_name filename) (entries_from fs.bpb.root_dir_sectors 0 fs)
    → open_file fs filename ≡ none
open_file_read_only fs filename only =
    Opened-OnlyReadOnly (fat_name filename) (entries_from fs.bpb.root_dir_sectors 0 fs)
      (open_file fs filename) (open_file-Opened fs filename) only
