-- ===== src/Syscall/Bounds.antt =====
-- SYS_LISTDIR never writes behind the end of the buffer.
use archarch.Base.{
  ℕ, zero, suc, ◌+◌, ◌^◌, ◌≤◌, ◌<◌, inl, inr, arith, not, ◌&&◌, ltb, ◌==◌, Bool-cases, Option-cases,
  List, [], ◌∷◌, ◌++◌, length, length-append,
}
use archarch.Base.Word.{add32, sub32}
use archarch.Fat16.{
  Fs, Dirent, Sector, Walk, more, stop, Kind, entry_kind, last, skipped, listed, dirent_at,
}
use archarch.Syscall.Listing.{
  listing_mask, put_char, put_chars, ext_head, put_ext, put_entry, put_sector, put_sectors,
  listdir_text,
}

module _ (limit : ℕ) where
  put_char-le : (c : ℕ) (out : List ℕ) → length out ≤ limit → length (put_char limit c out) ≤ limit
  unfolding put_char
  put_char-le c out h = ground (arith, length-append out (c ∷ []))

  put_chars-le : (cs out : List ℕ) → length out ≤ limit → length (put_chars limit cs out) ≤ limit
  unfolding put_chars
  put_chars-le [] out h = h
  put_chars-le (c ∷ cs) out h = elim (Bool-cases (ltb (length out) limit)) [
    | inr full ↦ rw (full, put_chars) h
    | inl room ↦ elim (Bool-cases (c == b' ')) [
      | inl space ↦ rw (room, space, put_chars) (put_chars-le cs out h)
      | inr char ↦
          rw (room, char, put_chars)
            (put_chars-le cs (out ++ (c ∷ [])) (ground (arith, room, length-append out (c ∷ []))))
    ]
  ]

  put_ext-le : (ext out : List ℕ) → length out ≤ limit → length (put_ext limit ext out) ≤ limit
  unfolding put_ext
  put_ext-le ext out h = elim (Bool-cases (not (ext_head ext == b' ') && ltb (length out) limit)) [
    | inr skip ↦ rw (skip, put_ext) h
    | inl put ↦
        rw (put, put_ext)
          (put_chars-le ext (out ++ (b'.' ∷ []))
            (ground (arith, put, length-append out (b'.' ∷ []))))
  ]

  put_entry-le :
      (de : Dirent) (out : List ℕ) → length out ≤ limit → length (put_entry limit de out) ≤ limit
  unfolding put_entry
  put_entry-le de out h = put_char-le b'\n' _ (put_ext-le de.ext _ (put_chars-le de.name out h))

  -- What a walk carries is short enough.
  abbrev text_of : Walk (List ℕ) → List ℕ
  text_of (more out) = out
  text_of (stop out) = out

  kind_le :
      (kind : Kind) (out : List ℕ) (skip list : Walk (List ℕ))
      → length out ≤ limit
      → length (text_of skip) ≤ limit
      → length (text_of list) ≤ limit
      → length (text_of (elim kind [ last ↦ stop out | skipped ↦ skip | listed ↦ list ])) ≤ limit
  kind_le last out skip list a b c = a
  kind_le skipped out skip list a b c = b
  kind_le listed out skip list a b c = c

  walk_le :
      (w : Walk (List ℕ)) (next : List ℕ → List ℕ)
      → length (text_of w) ≤ limit
      → ((out : List ℕ) → length out ≤ limit → length (next out) ≤ limit)
      → length (elim w [ stop out ↦ out | more out ↦ next out ]) ≤ limit
  walk_le (stop out) next h then' = h
  walk_le (more out) next h then' = then' out h

  put_sector-le :
      (n i : ℕ) (s : Sector) (out : List ℕ)
      → length out ≤ limit
      → length (text_of (put_sector n i limit s out)) ≤ limit
  unfolding put_sector
  put_sector-le zero i s out h = h
  put_sector-le (suc n) i s out h = elim (Bool-cases (ltb (length out) limit)) [
    | inr full ↦ rw (full, put_sector) h
    | inl room ↦
        rw (room, put_sector)
          (kind_le (entry_kind listing_mask s i) out _ _ h (put_sector-le n (i + 1) s out h) (
            put_sector-le n (i + 1) s (put_entry limit (dirent_at s i) out)
              (put_entry-le (dirent_at s i) out h)))
  ]

  put_sectors-le :
      (n s : ℕ) (fs : Fs) (out : List ℕ)
      → length out ≤ limit
      → length (put_sectors n s limit fs out) ≤ limit
  unfolding put_sectors
  put_sectors-le zero s fs out h = h
  put_sectors-le (suc n) s fs out h = elim (Bool-cases (ltb (length out) limit)) [
    | inr full ↦ rw (full, put_sectors) h
    | inl room ↦ elim (Option-cases (fs.blk (add32 fs.bpb.root_dir_sector s))) [
      | inl e ↦ rw (room, e, put_sectors) h
      | inr (sec, e) ↦
          rw (room, e, put_sectors)
            (walk_le (put_sector 16 0 limit sec out) (put_sectors n (s + 1) limit fs)
              (put_sector-le 16 0 sec out h) (put_sectors-le n (s + 1) fs))
    ]
  ]

-- The text that SYS_LISTDIR writes, with the NUL behind it, fits into the buffer of `buflen` bytes,
-- whatever stands on the disk, if `buflen` is not 0.
pub listdir_text-fits :
    (buflen : ℕ) (fs : Fs)
    → 0 < buflen
    → buflen < 2 ^ 32
    → length (listdir_text buflen fs) + 1 ≤ buflen
unfolding listdir_text
listdir_text-fits buflen fs positive word =
    omega (arith, put_sectors-le (sub32 buflen 1) fs.bpb.root_dir_sectors 0 fs [] (omega arith))
