-- ===== src/Fat16/Contents.antt =====
-- What `fat16_read_file` reads, stated over the whole cluster chain.
use native.Mathlib.Decide.{dec_le, dec_lt}
use Prim.Native.Nat.{min}
use mathlib.Core.List.{append-nil, append_assoc}
use archarch.Base.{
  ℕ, zero, suc, ◌+◌, ◌-◌, ◌*◌, ◌^◌, ◌≤◌, ◌<◌, ◌≡◌, refl, sym, ap, ◌∙◌, arith, ◌&&◌, ltb, leb,
  if◌then◌else◌, some, List, [], ◌∷◌, ◌++◌, length, take, length-append, take-nil, take-append,
  length-take, take_all, inl, inr, Bool-cases, lt→ltb, le→ltb,
}
use archarch.Base.Word.{add32, mul32}
use archarch.Fat16.{Fs, File, Sector, bytes_at}
use archarch.Fat16.Read.{done, read_sectors, read_clusters, size_to_read, read_file}

length-bytes_at : (s : Sector) (i n : ℕ) → length (bytes_at s i n) ≡ n
unfolding bytes_at
length-bytes_at s i zero = refl
length-bytes_at s i (suc n) = omega (arith, length-bytes_at s (i + 1) n)

take-bytes_at : (s : Sector) (i m n : ℕ) → m ≤ n → take m (bytes_at s i n) ≡ bytes_at s i m
unfolding bytes_at
take-bytes_at s i zero n h = refl
take-bytes_at s i (suc m) zero h = absurd (omega arith)
take-bytes_at s i (suc m) (suc n) h = ap (λ r. s i ∷ r) (take-bytes_at s (i + 1) m n (omega arith))

module _ (disk : ℕ → Sector) where
  -- The bytes of `n` sectors in a row.
  pub sectors_bytes : ℕ → ℕ → List ℕ
  sectors_bytes zero sector = []
  sectors_bytes (suc n) sector = bytes_at (disk sector) 0 512 ++ sectors_bytes n (add32 sector 1)

  -- The bytes of the first `k` clusters of the chain that begins with `cluster`; a chain ends at
  -- the first number that is no cluster's.
  pub chain_bytes : ℕ → Fs → ℕ → List ℕ
  unfolding sectors_bytes
  chain_bytes zero fs cluster = []
  chain_bytes (suc k) fs cluster =
      if leb 2 cluster && ltb cluster 0xFFF8
      then (let first =
            add32 fs.bpb.data_start_sector (mul32 (cluster - 2) fs.bpb.sectors_per_cluster) in
          sectors_bytes fs.bpb.sectors_per_cluster first ++ chain_bytes k fs (fs.fat_table cluster))
      else []

module _ (disk : ℕ → Sector) (fs : Fs) (readable : (s : ℕ) → fs.blk s ≡ some (disk s)) (to_read : ℕ)
    (small : to_read + 512 < 2 ^ 32) where
  abbrev with_rest : List ℕ → List ℕ → List ℕ
  with_rest out xs = out ++ take (to_read - length out) xs

  with_rest-append :
      (out xs ys : List ℕ)
      → with_rest out (xs ++ ys) ≡ with_rest (out ++ take (to_read - length out) xs) ys
  with_rest-append out xs ys =
      let room = to_read - length out in
      let e : to_read - length (out ++ take room xs) ≡ room - length xs =
        omega (arith, length-append out (take room xs), length-take room xs) in
      rw (e, take-append room xs ys)
        (sym (append_assoc out (take room xs) (take (room - length xs) ys)))

  with_rest_full : (out xs : List ℕ) → to_read ≤ length out → with_rest out xs ≡ out
  with_rest_full out xs full =
      let e : to_read - length out ≡ 0 = omega arith in rw e (append-nil out)

  length-with_rest :
      (out xs : List ℕ)
      → length (with_rest out xs) ≡ length out + min (to_read - length out) (length xs)
  length-with_rest out xs = omega (
    arith,
    length-append out (take (to_read - length out) xs),
    length-take (to_read - length out) xs,
  )

  chunk_lem :
      (s : Sector) (out : List ℕ)
      → length out < to_read
      → bytes_at s 0 (if ltb to_read (add32 (length out) 512) then to_read - length out else 512)
        ≡ take (to_read - length out) (bytes_at s 0 512)
  chunk_lem s out less = elim (dec_le (to_read - length out) 512) [
    | yes h ↦
        let e : (if ltb to_read (add32 (length out) 512) then to_read - length out else 512)
            ≡ to_read - length out =
          ground arith in
        rw e (sym (take-bytes_at s 0 (to_read - length out) 512 h))
    | no h ↦
        let e : (if ltb to_read (add32 (length out) 512) then to_read - length out else 512) ≡ 512 =
          ground arith in
        rw e (
          sym (
            take_all (to_read - length out) (bytes_at s 0 512)
              (omega (arith, length-bytes_at s 0 512))))
  ]

  read_sectors_lem :
      (n sector : ℕ) (out : List ℕ)
      → length out ≤ to_read
      → read_sectors n sector fs to_read out ≡ done (with_rest out (sectors_bytes disk n sector))
  unfolding read_sectors sectors_bytes
  read_sectors_lem zero sector out fits = ap done (sym (rw take-nil (append-nil out)))
  read_sectors_lem (suc n) sector out fits = elim (dec_lt (length out) to_read) [
    | yes less ↦
        rw (lt→ltb _ _ less, readable sector, chunk_lem (disk sector) out less)
          (read_sectors_lem n (add32 sector 1) (with_rest out (bytes_at (disk sector) 0 512))
              (omega (arith, length-with_rest out (bytes_at (disk sector) 0 512)))
            ∙ ap done (sym (with_rest-append out (bytes_at (disk sector) 0 512) _)))
    | no full ↦
        rw (le→ltb (length out) to_read (omega arith))
          (ap done (sym (with_rest_full out _ (omega arith))))
  ]

  length-sectors_bytes : (n sector : ℕ) → length (sectors_bytes disk n sector) ≡ n * 512
  unfolding sectors_bytes
  length-sectors_bytes zero sector = refl
  length-sectors_bytes (suc n) sector = omega (
    arith,
    length-append (bytes_at (disk sector) 0 512) (sectors_bytes disk n (add32 sector 1)),
    length-bytes_at (disk sector) 0 512,
    length-sectors_bytes n (add32 sector 1),
  )

  read_clusters_lem :
      (k cluster : ℕ) (out : List ℕ)
      → 0 < fs.bpb.sectors_per_cluster
      → length out ≤ to_read
      → to_read - length out < k
      → read_clusters k fs to_read cluster out
        ≡ some (done (with_rest out (chain_bytes disk k fs cluster)))
  unfolding read_clusters chain_bytes
  read_clusters_lem zero cluster out spc fits fuel = absurd (omega arith)
  read_clusters_lem (suc k) cluster out spc fits fuel = elim (dec_lt (length out) to_read) [
    | no full ↦
        rw (le→ltb (length out) to_read (omega arith))
          (ap (λ o. some (done o)) (sym (with_rest_full out _ (omega arith))))
    | yes less ↦ rw (lt→ltb _ _ less) (elim (Bool-cases (leb 2 cluster && ltb cluster 0xFFF8)) [
      | inl chain ↦
          rw (chain, read_sectors_lem n first out fits)
            (read_clusters_lem k (fs.fat_table cluster) (with_rest out here) spc
                (omega (arith, grown)) (omega (arith, grown, length-sectors_bytes n first))
              ∙ ap (λ o. some (done o)) (sym (with_rest-append out here _)))
      | inr end ↦ rw end (ap (λ o. some (done o)) (sym (rw take-nil (append-nil out))))
    ])
  ]
    where
      n : ℕ
      n = fs.bpb.sectors_per_cluster

      first : ℕ
      first = add32 fs.bpb.data_start_sector (mul32 (cluster - 2) n)

      here : List ℕ
      here = sectors_bytes disk n first

      grown : length (with_rest out here) ≡ length out + min (to_read - length out) (length here)
      grown = length-with_rest out here

size_to_read_lem :
    (file : File) (buf_size : ℕ) → size_to_read file buf_size ≡ min buf_size file.file_size
unfolding size_to_read
size_to_read_lem file buf_size = ground arith

-- If every sector can be read, a cluster has a sector, and the size to read is more than a sector
-- below 2^32, `fat16_read_file` ends, and leaves in
-- the buffer the bytes of the file's cluster chain in order, cut off at the size of the file and of
-- the buffer, whichever is smaller.
pub read_file-chain :
    (disk : ℕ → Sector) (fs : Fs) (file : File) (buf_size : ℕ)
    → ((s : ℕ) → fs.blk s ≡ some (disk s))
    → 0 < fs.bpb.sectors_per_cluster
    → min buf_size file.file_size + 512 < 2 ^ 32
    → let to_read = min buf_size file.file_size in
      read_file fs file buf_size
      ≡ some (done (take to_read (chain_bytes disk (to_read + 1) fs file.first_cluster)))
unfolding read_file
read_file-chain disk fs file buf_size readable spc small =
    let whole : min buf_size file.file_size - 0 ≡ min buf_size file.file_size = omega arith in
    rw (size_to_read_lem file buf_size) (
      rw whole at (
        read_clusters_lem disk fs readable (min buf_size file.file_size) small
          (min buf_size file.file_size + 1) file.first_cluster [] spc (omega arith) (omega arith)))
