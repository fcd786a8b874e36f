-- ===== src/Fat16/Tests.antt =====
-- Runs of fat16.c on a small disk, and the theorems there.
use archarch.Base.{
  ℕ, ◌+◌, ◌*◌, ◌%◌, ◌≡◌, refl, arith, some, List, [], ◌∷◌, ◌++◌, map, length, take, get_or, Bool,
  true, not, ltb, ◌||◌, ◌&&◌, none, if◌then◌else◌, ◌==◌,
}
use archarch.Fat16.{
  Sector, bytes_at, Bpb, Fs, File, dirent_at, entry_kind, list_mask, open_mask, file_of,
  list_sector, list_sectors, list_root, open_sector, open_sectors, open_file,
}
use archarch.Fat16.Name.{upper, pad, to_fat83, fat83_cmp, fat83_to_str}
use archarch.Fat16.Names.{to_fat83-fat83_to_str}
use archarch.Fat16.Names.{fat83_cmp_refl}
use archarch.Fat16.Format.{fat_name}
use archarch.Fat16.Directory.{Entry, entries_from, sector_entries}
use archarch.Fat16.Found.{Opened, OnlyReadOnly, open_file-Opened, open_file_read_only}
use archarch.Fat16.Shown.{Listed, list_root-Listed}
use archarch.Fat16.Read.{done, read_file}
use archarch.Fat16.Contents.{chain_bytes, read_file-chain}

abbrev readme : List ℕ
readme = b'R' ∷ b'E' ∷ b'A' ∷ b'D' ∷ b'M' ∷ b'E' ∷ []

abbrev txt : List ℕ
txt = b'T' ∷ b'X' ∷ b'T' ∷ []

-- An archive entry README.TXT with 600 bytes from cluster 2 on, and a deleted one in front of it.
abbrev dir_bytes : List ℕ
dir_bytes =
    0xE5 ∷ 0 ∷ 0 ∷ 0 ∷ 0 ∷ 0 ∷ 0 ∷ 0 ∷ 0 ∷ 0 ∷ 0 ∷ 0 ∷ 0 ∷ 0 ∷ 0 ∷ 0 ∷ 0 ∷ 0 ∷ 0 ∷ 0 ∷ 0 ∷ 0 ∷ 0 ∷ 0
    ∷ 0 ∷ 0 ∷ 0 ∷ 0 ∷ 0 ∷ 0 ∷ 0 ∷ 0 ∷ b'R' ∷ b'E' ∷ b'A' ∷ b'D' ∷ b'M' ∷ b'E' ∷ 32 ∷ 32 ∷ b'T'
    ∷ b'X' ∷ b'T' ∷ 0x20 ∷ 0 ∷ 0 ∷ 0 ∷ 0 ∷ 0 ∷ 0 ∷ 0 ∷ 0 ∷ 0 ∷ 0 ∷ 0 ∷ 0 ∷ 0 ∷ 0 ∷ 2 ∷ 0 ∷ 88 ∷ 2
    ∷ 0 ∷ 0 ∷ []

abbrev disk : ℕ → Sector
disk s i = if s == 2 then get_or dir_bytes i 0 else (s * 7 + i) % 256

abbrev bpb : Bpb
bpb = record {
  bytes_per_sector = 512;
  sectors_per_cluster = 1;
  reserved_sectors = 1;
  num_fats = 1;
  root_entry_count = 16;
  total_sectors_16 = 8;
  total_sectors_32 = 0;
  fat_size_16 = 1;
  root_dir_sector = 2;
  root_dir_sectors = 1;
  data_start_sector = 3;
}

abbrev small_fs : Fs
small_fs = record {
  blk = λ s. some (disk s);
  bpb = bpb;
  fat_table = λ c. if c == 2 then 3 else 0xFFFF;
}

abbrev readme_file : File
readme_file = record { first_cluster = 2; file_size = 600; position = 0; current_cluster = 2 }

open_runs :
    open_file small_fs
      (map (λ c. c) (b'r' ∷ b'e' ∷ b'a' ∷ b'd' ∷ b'm' ∷ b'e' ∷ b'.' ∷ b't' ∷ b'x' ∷ b't' ∷ []))
    ≡ some readme_file
unfolding open_file open_sectors open_sector entry_kind open_mask dirent_at file_of to_fat83
    fat83_cmp
open_runs = refl

list_runs : list_root small_fs ≡ (1, (readme ++ (b'.' ∷ txt), 600) ∷ [])
unfolding list_root list_sectors list_sector entry_kind list_mask dirent_at fat83_to_str
list_runs = refl

open_file-Opened_example :
    let filename = readme ++ (b'.' ∷ txt) in
    Opened (fat_name filename) (entries_from 1 0 small_fs) (open_file small_fs filename)
open_file-Opened_example = open_file-Opened small_fs (readme ++ (b'.' ∷ txt))

list_root-Listed_example :
    Listed (entries_from 1 0 small_fs) (list_root small_fs).1
    × ((list_root small_fs).0 ≡ length (list_root small_fs).1)
list_root-Listed_example = list_root-Listed small_fs

-- The disk with README.TXT marked read-only and archive.
abbrev read_only_fs : Fs
read_only_fs = record small_fs { blk = λ s. some (λ i. if i == 43 then 0x21 else disk s i) }

abbrev only_test : List ℕ → List Entry → Bool
only_test name [] = true
only_test name ((s, i) ∷ es) =
    (not (fat83_cmp (bytes_at s (32 * i) 11) name)
      || (ltb (s (32 * i + 11)) 256 && (s (32 * i + 11) % 2 == 1)))
    && only_test name es

only_test_sound :
    (name : List ℕ) (es : List Entry) → only_test name es ≡ true → OnlyReadOnly name es
only_test_sound name [] h = tt
only_test_sound name ((s, i) ∷ es) h =
    (λ e. ground (arith, h, e, fat83_cmp_refl name), only_test_sound name es (ground (arith, h)))

abbrev readme_txt : List ℕ
readme_txt = readme ++ (b'.' ∷ txt)

readme_only : only_test (fat_name readme_txt) (entries_from 1 0 read_only_fs) ≡ true
unfolding entries_from sector_entries bytes_at fat83_cmp
readme_only = refl

open_file_read_only_example : open_file read_only_fs readme_txt ≡ none
open_file_read_only_example =
    open_file_read_only read_only_fs readme_txt
      (only_test_sound (fat_name readme_txt) (entries_from 1 0 read_only_fs) readme_only)

to_fat83-fat83_to_str_example :
    to_fat83 (fat83_to_str (pad 8 readme) (pad 3 txt)) ≡ pad 8 readme ++ pad 3 txt
unfolding upper
to_fat83-fat83_to_str_example =
    to_fat83-fat83_to_str readme txt (omega arith) (omega arith) (ground arith) (ground arith)

read_file-chain_example :
    read_file small_fs readme_file 1000 ≡ some (done (take 600 (chain_bytes disk 601 small_fs 2)))
read_file-chain_example =
    read_file-chain disk small_fs readme_file 1000 (λ s. refl) (omega arith) (omega arith)
