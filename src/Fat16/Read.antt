-- ===== src/Fat16/Read.antt =====
-- `fat16_read_file`: the walk over a file's clusters.
use archarch.Base.{
  ℕ, zero, suc, ◌+◌, ◌-◌, ◌&&◌, ltb, leb, if◌then◌else◌, Option, none, some, List, [], ◌++◌, length,
  ℤ, int_of_reg, minus_one,
}
use archarch.Base.Word.{add32, mul32}
use archarch.Fat16.{Fs, File, bytes_at}

-- What the buffer holds when the call returns: the bytes written so far, from its start on.
-- `failed` is a read error of the disk, the result -1.
pub data Outcome : Type 0 where
  done : List ℕ → Outcome
  failed : List ℕ → Outcome

-- The loop over the sectors of a cluster, with `n` sectors left; `out` is what was read before.
unfoldable pub read_sectors : ℕ → ℕ → Fs → (to_read : ℕ) → List ℕ → Outcome
unfolding bytes_at
read_sectors zero sector fs to_read out = done out
read_sectors (suc n) sector fs to_read out =
    let bytes_done = length out in
    let chunk = if ltb to_read (add32 bytes_done 512) then to_read - bytes_done else 512 in
    let next : Outcome = elim (fs.blk sector) [
      | none ↦ failed out
      | some s ↦ read_sectors n (add32 sector 1) fs to_read (out ++ bytes_at s 0 chunk)
    ] in
    if ltb bytes_done to_read then next else done out

-- The loop over the cluster chain. `none` is a walk that is not over when the fuel is.
unfoldable pub read_clusters : ℕ → Fs → (to_read cluster : ℕ) → List ℕ → Option Outcome
unfolding read_sectors
read_clusters zero fs to_read cluster out = none
read_clusters (suc k) fs to_read cluster out =
    let first = add32 fs.bpb.data_start_sector (mul32 (cluster - 2) fs.bpb.sectors_per_cluster) in
    let next : Option Outcome =
      elim (read_sectors fs.bpb.sectors_per_cluster first fs to_read out) [
        | failed out' ↦ some (failed out')
        | done out' ↦ read_clusters k fs to_read (fs.fat_table cluster) out'
      ] in
    if ltb (length out) to_read && leb 2 cluster && ltb cluster 0xFFF8
    then next
    else some (done out)

unfoldable pub size_to_read : File → ℕ → ℕ
size_to_read file buf_size = if ltb buf_size file.file_size then buf_size else file.file_size

-- Every round of the outer loop reads at least one byte, so one round more than there are bytes
-- to read is enough fuel if a cluster has a sector.
unfoldable pub read_file : Fs → File → ℕ → Option Outcome
read_file fs file buf_size =
    let to_read = size_to_read file buf_size in
    read_clusters (to_read + 1) fs to_read file.first_cluster []

-- The bytes in the buffer.
abbrev pub written : Outcome → List ℕ
written (done out) = out
written (failed out) = out

-- The `int` that the call returns, `(int)bytes_done`.
unfoldable pub read_result : Outcome → ℤ
read_result (done out) = int_of_reg (length out)
read_result (failed out) = minus_one
