-- ===== src/Fat16/Shown.antt =====
-- What `fat16_list_root` shows of a directory, told from the bytes of its entries.
use Prim.Native.Nat.{bit_and}
use archarch.Base.{
  ℕ, ◌+◌, ◌*◌, ◌≡◌, ◌≢◌, ◌⊎◌, inl, inr, refl, sym, arith, true, ◌==◌, Bool-cases, List, [], ◌∷◌,
  length,
}
use archarch.Fat16.{
  Sector, Fs, Listing, bytes_at, read32, dirent_at, entry_kind, list_mask, list_root,
}
use archarch.Fat16.Name.{fat83_to_str}
use archarch.Fat16.Format.{printed, fat83_to_str-printed}
use archarch.Fat16.Directory.{Entry, entries_from, listing_of, list_root-listing_of}
use archarch.Fat16.Found.{size_at}

-- What a listing prints of the name: the first eight bytes and the three behind them.
abbrev pub printed_at : Sector → ℕ → List ℕ
printed_at s i = printed (bytes_at s (32 * i) 8) (bytes_at s (32 * i + 8) 3)

-- The names and sizes of the entries that are neither deleted nor have one of the five attributes of
-- 0x1F, in front of the entry that begins with 0.
pub data Listed : List Entry → Listing → Type 0 where
  nothing_left : Listed [] []
  at_end : (s : Sector) (i : ℕ) (es : List Entry) → s (32 * i) ≡ 0 → Listed ((s, i) ∷ es) []
  passes :
      (s : Sector) (i : ℕ) (es : List Entry) (out : Listing)
      → s (32 * i) ≢ 0
      → (s (32 * i) ≡ 0xE5) ⊎ (bit_and (s (32 * i + 11)) 0x1F ≢ 0)
      → Listed es out
      → Listed ((s, i) ∷ es) out
  shows :
      (s : Sector) (i : ℕ) (es : List Entry) (out : Listing)
      → s (32 * i) ≢ 0
      → s (32 * i) ≢ 0xE5
      → bit_and (s (32 * i + 11)) 0x1F ≡ 0
      → Listed es out
      → Listed ((s, i) ∷ es) ((printed_at s i, size_at s i) ∷ out)

list_is : list_mask ≡ 0x1F
unfolding list_mask
list_is = refl

listed_of : (a : ℕ) → (bit_and a list_mask == 0) ≡ true → bit_and a 0x1F ≡ 0
listed_of a h = rw (sym list_is) (ground (arith, h))

shown_as :
    (s : Sector) (i : ℕ) → let de = dirent_at s i in fat83_to_str de.name de.ext ≡ printed_at s i
unfolding dirent_at
shown_as s i = fat83_to_str-printed (bytes_at s (32 * i) 8) (bytes_at s (32 * i + 8) 3)

size_lem : (s : Sector) (i : ℕ) → (dirent_at s i).file_size ≡ size_at s i
unfolding dirent_at read32
size_lem s i = refl

listing_of-Listed : (es : List Entry) → Listed es (listing_of es)
unfolding listing_of entry_kind
listing_of-Listed [] = nothing_left
listing_of-Listed ((s, i) ∷ es) =
    let rest = listing_of-Listed es in
    elim (Bool-cases (s (32 * i) == 0)) [
      | inl e0 ↦ rw (e0, entry_kind, listing_of) (at_end s i es (ground (arith, e0)))
      | inr e0 ↦ elim (Bool-cases (s (32 * i) == 0xE5)) [
        | inl e1 ↦
            rw (e0, e1, entry_kind, listing_of)
              (passes s i es _ (ground (arith, e0)) (inl (ground (arith, e1))) rest)
        | inr e1 ↦ elim (Bool-cases (bit_and (s (32 * i + 11)) list_mask == 0)) [
          | inr e2 ↦
              rw (e0, e1, e2, entry_kind, listing_of)
                (passes s i es _ (ground (arith, e0))
                  (inr (λ h. absurd (ground (arith, e2, list_is, h)))) rest)
          | inl e2 ↦
              rw (e0, e1, e2, entry_kind, listing_of, shown_as s i, size_lem s i)
                (shows s i es _ (ground (arith, e0)) (ground (arith, e1))
                  (listed_of (s (32 * i + 11)) e2) rest)
        ]
      ]
    ]

-- `fat16_list_root` hands out, in order, the size and the printed name of each entry of the root
-- directory that is not deleted and has none of the attributes of 0x1F, in front of the entry that
-- begins with 0 and of the first sector that cannot be read, and returns their number. The printed
-- name is the name without its spaces and, if the extension does not begin with a space, a dot and
-- the extension without its spaces, all up to a NUL among these bytes.
pub list_root-Listed :
    (fs : Fs)
    → Listed (entries_from fs.bpb.root_dir_sectors 0 fs) (list_root fs).1
      × ((list_root fs).0 ≡ length (list_root fs).1)
list_root-Listed fs =
    rw (list_root-listing_of fs)
      (listing_of-Listed (entries_from fs.bpb.root_dir_sectors 0 fs), refl)
