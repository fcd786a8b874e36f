-- ===== src/Syscall/Listing.antt =====
-- SYS_LISTDIR of syscall.c: the names of the root directory, one in a line, as text.
use archarch.Base.{
  ℕ, zero, suc, ◌+◌, not, ◌&&◌, ◌==◌, ltb, if◌then◌else◌, none, some, List, [], ◌∷◌, ◌++◌, length,
}
use archarch.Base.Word.{add32, sub32}
use archarch.Fat16.{
  Fs, Dirent, Sector, Walk, more, stop, entry_kind, last, skipped, listed, dirent_at,
}

-- `de->attr & 0x1E`: hidden, system, volume and directory entries are left out.
abbrev pub listing_mask : ℕ
listing_mask = 0x1E

-- `if (pos < buflen - 1) buf[pos++] = c`, where `limit` is `buflen - 1` and `out` is what stands in
-- the buffer.
unfoldable pub put_char : (limit c : ℕ) → List ℕ → List ℕ
put_char limit c out = if ltb (length out) limit then out ++ (c ∷ []) else out

-- The loop over the characters of a name or an extension, which leaves out the spaces.
unfoldable pub put_chars : (limit : ℕ) → List ℕ → List ℕ → List ℕ
unfolding put_char
put_chars limit [] out = out
put_chars limit (c ∷ cs) out =
    let rest = put_chars limit cs (if c == b' ' then out else put_char limit c out) in
    if ltb (length out) limit then rest else out

-- The first character of the extension.
abbrev pub ext_head : List ℕ → ℕ
ext_head [] = b' '
ext_head (c ∷ cs) = c

unfoldable pub put_ext : (limit : ℕ) → List ℕ → List ℕ → List ℕ
unfolding put_chars
put_ext limit ext out =
    if not (ext_head ext == b' ') && ltb (length out) limit
    then put_chars limit ext (out ++ (b'.' ∷ []))
    else out

unfoldable pub put_entry : (limit : ℕ) → Dirent → List ℕ → List ℕ
unfolding put_chars put_ext put_char
put_entry limit de out = put_char limit b'\n' (put_ext limit de.ext (put_chars limit de.name out))

-- The loop over the entries of a sector, with `n` entries left.
unfoldable pub put_sector : (n i limit : ℕ) → Sector → List ℕ → Walk (List ℕ)
put_sector zero i limit s out = more out
put_sector (suc n) i limit s out =
    let skip = put_sector n (i + 1) limit s out in
    let list = put_sector n (i + 1) limit s (put_entry limit (dirent_at s i) out) in
    let step : Walk (List ℕ) = elim (entry_kind listing_mask s i) [
      | last ↦ stop out
      | skipped ↦ skip
      | listed ↦ list
    ] in
    if ltb (length out) limit then step else more out

-- The loop over the sectors of the root directory, with `n` sectors left.
unfoldable pub put_sectors : (n s limit : ℕ) → Fs → List ℕ → List ℕ
unfolding put_sector
put_sectors zero s limit fs out = out
put_sectors (suc n) s limit fs out =
    let step : List ℕ = elim (fs.blk (add32 fs.bpb.root_dir_sector s)) [
      | none ↦ out
      | some sec ↦ elim (put_sector 16 0 limit sec out) [
        | stop out' ↦ out'
        | more out' ↦ put_sectors n (s + 1) limit fs out'
      ]
    ] in
    if ltb (length out) limit then step else out

-- What the call writes to the buffer of `buflen` bytes, in front of the final NUL.
unfoldable pub listdir_text : (buflen : ℕ) → Fs → List ℕ
unfolding put_sectors
listdir_text buflen fs = put_sectors fs.bpb.root_dir_sectors 0 (sub32 buflen 1) fs []
