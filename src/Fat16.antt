-- ===== src/Fat16.antt =====
-- The read-only FAT16 driver: fat16.c and the records of fat16.h. A disk gives the 512 bytes of a
-- sector, or fails, as `virtio_blk_read` of one sector does; text printed on the console is left out.
pub mod Name
pub mod Read
pub mod Names
pub mod Format
pub mod Directory
pub mod Found
pub mod Shown
mod Tests
pub mod Contents
use archarch.Base.{
  ℕ, zero, suc, ◌+◌, ◌-◌, ◌*◌, ◌/◌, ◌%◌, ◌^◌, Bool, true, false, not, ◌&&◌, ◌||◌, ◌==◌, ltb, leb,
  if◌then◌else◌, Option, none, some, List, [], ◌∷◌, ◌++◌, length, upd, ℤ, pos, negsuc, minus_one,
}
use archarch.Base.Word.{add32, mul32}
use archarch.Fat16.Name.{to_fat83, fat83_cmp, fat83_to_str}
use Prim.Native.Nat.{bit_and, bit_or}

-- The bytes of a sector by their offset.
abbrev pub Sector : Type 0
Sector = ℕ → ℕ

abbrev pub Disk : Type 0
Disk = ℕ → Option Sector

-- `n` bytes from offset `i` on.
unfoldable pub bytes_at : Sector → ℕ → ℕ → List ℕ
bytes_at s i zero = []
bytes_at s i (suc n) = s i ∷ bytes_at s (i + 1) n

unfoldable pub read16 : Sector → ℕ → ℕ
read16 p i = bit_or (p i) (p (i + 1) * 2 ^ 8)

unfoldable pub read32 : Sector → ℕ → ℕ
read32 p i =
    bit_or (bit_or (bit_or (p i) (p (i + 1) * 2 ^ 8)) (p (i + 2) * 2 ^ 16)) (p (i + 3) * 2 ^ 24)

pub record Bpb : Type 0 where
  pub bytes_per_sector : ℕ
  pub sectors_per_cluster : ℕ
  pub reserved_sectors : ℕ
  pub num_fats : ℕ
  pub root_entry_count : ℕ
  pub total_sectors_16 : ℕ
  pub total_sectors_32 : ℕ
  pub fat_size_16 : ℕ
  pub root_dir_sector : ℕ
  pub root_dir_sectors : ℕ
  pub data_start_sector : ℕ

pub record Dirent : Type 0 where
  pub name : List ℕ
  pub ext : List ℕ
  pub attr : ℕ
  pub first_cluster : ℕ
  pub file_size : ℕ

pub record File : Type 0 where
  pub first_cluster : ℕ
  pub file_size : ℕ
  pub position : ℕ
  pub current_cluster : ℕ

pub record Fs : Type 0 where
  pub blk : Disk
  pub bpb : Bpb
  pub fat_table : ℕ → ℕ

abbrev pub attr_volume_id : ℕ
attr_volume_id = 0x08

abbrev pub attr_directory : ℕ
attr_directory = 0x10

abbrev pub attr_lfn : ℕ
attr_lfn = 0x0F

-- The fields that the boot sector states; the last three stay as they were.
pub parse_bpb : Sector → Bpb → Bpb
unfolding read16 read32
parse_bpb s bpb = record bpb {
  bytes_per_sector = read16 s 11;
  sectors_per_cluster = s 13;
  reserved_sectors = read16 s 14;
  num_fats = s 16;
  root_entry_count = read16 s 17;
  total_sectors_16 = read16 s 19;
  total_sectors_32 = read32 s 32;
  fat_size_16 = read16 s 22;
}

-- The derived fields: `int` arithmetic on values of at most 24 bits, which cannot overflow.
pub derive_bpb : Bpb → Bpb
derive_bpb b =
    let root = b.reserved_sectors + b.num_fats * b.fat_size_16 in
    let sectors = (b.root_entry_count * 32 + (b.bytes_per_sector - 1)) / b.bytes_per_sector in
    record b {
      root_dir_sector = root;
      root_dir_sectors = sectors;
      data_start_sector = add32 root sectors;
    }

-- A sector of the FAT, copied to entry `256 * i` on: an entry is two bytes.
pub store_fat : ℕ → Sector → (ℕ → ℕ) → ℕ → ℕ
unfolding read16
store_fat i s table k =
    if leb (256 * i) k && ltb k (256 * (i + 1)) then read16 s (2 * (k - 256 * i)) else table k

-- The loop that reads the FAT, with `n` sectors left.
pub load_fat : ℕ → ℕ → Fs → ℤ × Fs
unfolding store_fat
load_fat zero i fs = (pos 0, fs)
load_fat (suc n) i fs = elim (fs.blk (fs.bpb.reserved_sectors + i)) [
  | none ↦ (minus_one, fs)
  | some s ↦ load_fat n (i + 1) (record fs { fat_table = store_fat i s fs.fat_table })
]

-- `fat16_mount`; `kmalloc n` is the pointer that the heap returns for `n` bytes, 0 for NULL.
pub mount : (ℕ → ℕ) → Disk → Fs → ℤ × Fs
unfolding parse_bpb derive_bpb load_fat
mount kmalloc blk fs =
    let fs1 : Fs = record fs { blk = blk } in
    elim (blk 0) [
      | none ↦ (minus_one, fs1)
      | some s ↦
          let bpb = parse_bpb s fs.bpb in
          let fs2 : Fs = record fs1 { bpb = bpb } in
          let fs3 : Fs = record fs1 { bpb = derive_bpb bpb } in
          if not (s 510 == 0x55) || not (s 511 == 0xAA)
          then (minus_one, fs1)
          else if not (bpb.bytes_per_sector == 512)
          then (minus_one, fs2)
          else if kmalloc (bpb.fat_size_16 * 512) == 0
          then (minus_one, fs3)
          else load_fat bpb.fat_size_16 0 fs3
    ]

-- Entry `i` of a directory sector.
unfoldable pub dirent_at : Sector → ℕ → Dirent
unfolding bytes_at read16 read32
dirent_at s i = record {
  name = bytes_at s (32 * i) 8;
  ext = bytes_at s (32 * i + 8) 3;
  attr = s (32 * i + 11);
  first_cluster = read16 s (32 * i + 26);
  file_size = read32 s (32 * i + 28);
}

-- The three tests that each walk over a directory makes on an entry, in their order.
pub data Kind : Type 0 where
  last : Kind
  skipped : Kind
  listed : Kind

unfoldable pub entry_kind : ℕ → Sector → ℕ → Kind
entry_kind mask s i =
    if s (32 * i) == 0x00
    then last
    else if s (32 * i) == 0xE5
    then skipped
    else if bit_and (s (32 * i + 11)) mask == 0
    then listed
    else skipped

-- What a walk over one sector leaves: go on with the next sector, or stop.
pub data Walk {ℓ} (A : Type ℓ) : Type ℓ where
  more : A → Walk A
  stop : A → Walk A

-- The names and sizes that `fat16_list_root` hands to its callback, in order.
abbrev pub Listing : Type 0
Listing = List (List ℕ × ℕ)

unfoldable pub list_mask : ℕ
list_mask = bit_or (bit_or attr_lfn attr_volume_id) attr_directory

pub list_sector : ℕ → ℕ → Sector → Listing → Walk Listing
list_sector zero i s out = more out
list_sector (suc n) i s out = elim (entry_kind list_mask s i) [
  | last ↦ stop out
  | skipped ↦ list_sector n (i + 1) s out
  | listed ↦
      let de = dirent_at s i in
      list_sector n (i + 1) s (out ++ ((fat83_to_str de.name de.ext, de.file_size) ∷ []))
]

pub list_sectors : ℕ → ℕ → Fs → Listing → Listing
list_sectors zero s fs out = out
list_sectors (suc n) s fs out = elim (fs.blk (add32 fs.bpb.root_dir_sector s)) [
  | none ↦ out
  | some sec ↦ elim (list_sector 16 0 sec out) [
    | stop out' ↦ out'
    | more out' ↦ list_sectors n (s + 1) fs out'
  ]
]

-- `fat16_list_root`: its result, the number of entries, is the length of the listing.
pub list_root : Fs → ℕ × Listing
list_root fs = let out = list_sectors fs.bpb.root_dir_sectors 0 fs [] in (length out, out)

unfoldable pub open_mask : ℕ
open_mask = bit_or attr_lfn attr_volume_id

pub file_of : Dirent → File
file_of de = record {
  first_cluster = de.first_cluster;
  file_size = de.file_size;
  position = 0;
  current_cluster = de.first_cluster;
}

-- The walk of `fat16_open` over one sector: `stop none` is the end of the directory.
pub open_sector : List ℕ → ℕ → ℕ → Sector → Walk (Option File)
open_sector fat_name zero i s = more none
open_sector fat_name (suc n) i s =
    let rest = open_sector fat_name n (i + 1) s in
    let de = dirent_at s i in
    elim (entry_kind open_mask s i) [
      | last ↦ stop none
      | skipped ↦ rest
      | listed ↦ if fat83_cmp fat_name (de.name ++ de.ext) then stop (some (file_of de)) else rest
    ]

pub open_sectors : List ℕ → ℕ → ℕ → Fs → Option File
open_sectors fat_name zero s fs = none
open_sectors fat_name (suc n) s fs = elim (fs.blk (add32 fs.bpb.root_dir_sector s)) [
  | none ↦ none
  | some sec ↦ elim (open_sector fat_name 16 0 sec) [
    | stop r ↦ r
    | more _ ↦ open_sectors fat_name n (s + 1) fs
  ]
]

-- `fat16_open(fs, filename, file)`: `none` is the result -1, which leaves the file unset.
pub open_file : Fs → List ℕ → Option File
open_file fs filename = open_sectors (to_fat83 filename) fs.bpb.root_dir_sectors 0 fs
