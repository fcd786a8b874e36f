-- ===== src/Fat16/Directory.antt =====
-- The walks over the root directory run along the flat list of its entries.
use mathlib.Core.List.{append-nil, append_assoc}
use archarch.Base.{
  ℕ, zero, suc, ◌+◌, ◌≡◌, ◌⊎◌, refl, sym, ◌∙◌, arith, if◌then◌else◌, Option, none, some, List, [],
  ◌∷◌, ◌++◌, Option-cases, length, inl, inr,
}
use archarch.Base.Word.{add32}
use archarch.Fat16.{
  Sector, Fs, File, Kind, last, skipped, listed, Walk, more, stop, Listing, dirent_at, entry_kind,
  list_mask, open_mask, file_of, list_sector, list_sectors, list_root, open_sector, open_sectors,
  open_file,
}
use archarch.Fat16.Name.{to_fat83, fat83_cmp, fat83_to_str}

-- An entry, by its sector and its index there.
abbrev pub Entry : Type 0
Entry = Sector × ℕ

unfoldable pub sector_entries : ℕ → ℕ → Sector → List Entry
sector_entries zero i s = []
sector_entries (suc n) i s = (s, i) ∷ sector_entries n (i + 1) s

-- The entries of the directory in order, up to the first sector that cannot be read.
unfoldable pub entries_from : ℕ → ℕ → Fs → List Entry
unfolding sector_entries
entries_from zero s fs = []
entries_from (suc n) s fs = elim (fs.blk (add32 fs.bpb.root_dir_sector s)) [
  | none ↦ []
  | some sec ↦ sector_entries 16 0 sec ++ entries_from n (s + 1) fs
]

-- The file of the first entry with the name, in front of the end of the directory.
unfoldable pub first_match : List ℕ → List Entry → Option File
first_match name [] = none
first_match name ((s, i) ∷ es) =
    let rest = first_match name es in
    let de = dirent_at s i in
    elim (entry_kind open_mask s i) [
      | last ↦ none
      | skipped ↦ rest
      | listed ↦ if fat83_cmp name (de.name ++ de.ext) then some (file_of de) else rest
    ]

-- What a listing shows of the entries.
unfoldable pub listing_of : List Entry → Listing
listing_of [] = []
listing_of ((s, i) ∷ es) =
    let rest = listing_of es in
    let de = dirent_at s i in
    elim (entry_kind list_mask s i) [
      | last ↦ []
      | skipped ↦ rest
      | listed ↦ (fat83_to_str de.name de.ext, de.file_size) ∷ rest
    ]

abbrev finish_open : List ℕ → List Entry → Walk (Option File) → Option File
finish_open name es (stop r) = r
finish_open name es (more _) = first_match name es

open_sector_lem :
    (name : List ℕ) (n i : ℕ) (s : Sector) (es : List Entry)
    → first_match name (sector_entries n i s ++ es) ≡ finish_open name es (open_sector name n i s)
unfolding first_match sector_entries open_sector
open_sector_lem name zero i s es = refl
open_sector_lem name (suc n) i s es = ground (arith, open_sector_lem name n (i + 1) s es)

-- The same, for a sector that may be unreadable.
open_sector_all :
    (name : List ℕ) (es : List Entry) (o : Option Sector)
    → first_match name (elim o [ none ↦ [] | some sec ↦ sector_entries 16 0 sec ++ es ])
      ≡ (elim o [ none ↦ none | some sec ↦ finish_open name es (open_sector name 16 0 sec) ])
unfolding first_match
open_sector_all name es none = refl
open_sector_all name es (some sec) = open_sector_lem name 16 0 sec es

open_sectors_lem :
    (name : List ℕ) (n s : ℕ) (fs : Fs)
    → open_sectors name n s fs ≡ first_match name (entries_from n s fs)
unfolding open_sectors entries_from first_match
open_sectors_lem name zero s fs = refl
open_sectors_lem name (suc n) s fs = ground (
  arith,
  open_sectors_lem name n (s + 1) fs,
  open_sector_all name (entries_from n (s + 1) fs) (fs.blk (add32 fs.bpb.root_dir_sector s)),
)

pub open_file-first_match :
    (fs : Fs) (filename : List ℕ)
    → open_file fs filename
      ≡ first_match (to_fat83 filename) (entries_from fs.bpb.root_dir_sectors 0 fs)
unfolding open_file
open_file-first_match fs filename =
    open_sectors_lem (to_fat83 filename) fs.bpb.root_dir_sectors 0 fs

Kind-cases : (k : Kind) → (k ≡ last) ⊎ ((k ≡ skipped) ⊎ (k ≡ listed))
Kind-cases last = inl refl
Kind-cases skipped = inr (inl refl)
Kind-cases listed = inr (inr refl)

abbrev shown : Sector → ℕ → List ℕ × ℕ
shown s i = let de = dirent_at s i in (fat83_to_str de.name de.ext, de.file_size)

abbrev finish_list : Listing → List Entry → Walk Listing → Listing
finish_list out es (stop out') = out'
finish_list out es (more out') = out' ++ listing_of es

list_sector_lem :
    (n i : ℕ) (s : Sector) (es : List Entry) (out : Listing)
    → out ++ listing_of (sector_entries n i s ++ es) ≡ finish_list out es (list_sector n i s out)
unfolding listing_of sector_entries list_sector
list_sector_lem zero i s es out = refl
list_sector_lem (suc n) i s es out = elim (Kind-cases (entry_kind list_mask s i)) [
  | inl e ↦ rw (e, listing_of, list_sector) (append-nil out)
  | inr (inl e) ↦ rw (e, listing_of, list_sector) (list_sector_lem n (i + 1) s es out)
  | inr (inr e) ↦
      rw (e, listing_of, list_sector)
        (sym (append_assoc out (shown s i ∷ []) _)
          ∙ list_sector_lem n (i + 1) s es (out ++ (shown s i ∷ [])))
]

list_sectors_lem :
    (n s : ℕ) (fs : Fs) (out : Listing)
    → list_sectors n s fs out ≡ out ++ listing_of (entries_from n s fs)
unfolding list_sectors entries_from listing_of
list_sectors_lem zero s fs out = sym (append-nil out)
list_sectors_lem (suc n) s fs out = elim (Option-cases (fs.blk (add32 fs.bpb.root_dir_sector s))) [
  | inl e ↦ rw (e, list_sectors, entries_from) (sym (append-nil out))
  | inr (sec, e) ↦
      rw (e, list_sectors, entries_from, list_sector_lem 16 0 sec (entries_from n (s + 1) fs) out)
        (continue (list_sector 16 0 sec out) (list_sectors_lem n (s + 1) fs))
]
  where
    continue :
        (w : Walk Listing)
        → ((out' : Listing)
            → list_sectors n (s + 1) fs out' ≡ out' ++ listing_of (entries_from n (s + 1) fs))
        → (elim w [ stop out' ↦ out' | more out' ↦ list_sectors n (s + 1) fs out' ])
          ≡ finish_list out (entries_from n (s + 1) fs) w
    continue (more out') ih = ih out'
    continue (stop out') ih = refl

pub list_root-listing_of :
    (fs : Fs)
    → let out = listing_of (entries_from fs.bpb.root_dir_sectors 0 fs) in
      list_root fs ≡ (length out, out)
unfolding list_root
list_root-listing_of fs = rw (list_sectors_lem fs.bpb.root_dir_sectors 0 fs [])
