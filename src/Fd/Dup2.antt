-- ===== src/Fd/Dup2.antt =====
-- Reference counting: `fd_dup2` and `fd_table_dup`.
use native.Mathlib.Decide.{ℕ_discrete}
use archarch.Base.{
  ℕ, zero, suc, ◌+◌, ◌<◌, ◌≡◌, ◌≢◌, refl, ap, ◌∙◌, arith, ◌&&◌, ◌==◌, ==_ne, leb, ltb,
  if◌then◌else◌, upd, pos, fun_ext,
}
use archarch.Fd.Objects.{Io, FdTable, max_fds, bump, set_file}
use archarch.Fd.{release_file, Dup, returned, fault, dup_to, fd_dup2, dup_from, fd_table_dup}
use archarch.Fd.Refs.{
  count_refs, count_refs-upd, RefsOk, lookup_fd-used, fd_close-used, release_file-RefsOk,
}

-- What a `fd_dup2` that went well leaves.
abbrev pub Shared : (ℕ → ℕ) → ℕ → ℕ → FdTable → Dup → Type 0
Shared others old new fdt fault = ⊥
Shared others old new fdt (returned r fdt' io') =
    (r ≡ pos new) × (fdt' ≡ upd fdt new (fdt old)) × RefsOk others fdt' io'

dup_to-Shared :
    (others : ℕ → ℕ) (old new : ℕ) (fdt : FdTable) (io : Io)
    → new < max_fds
    → fdt old ≢ 0
    → fdt new ≡ 0
    → RefsOk others fdt io
    → Shared others old new fdt (dup_to old new fdt io)
unfolding dup_to
dup_to-Shared others old new fdt io inside used free ok = rw (==_ne (fdt old) 0 used) (
  refl,
  refl,
  λ f ne. ground (arith, ok f ne, ok (fdt old) used, count_refs-upd max_fds new (fdt old) f fdt),
)

upd-upd : (fdt : FdTable) (i v w : ℕ) → upd (upd fdt i v) i w ≡ upd fdt i w
upd-upd fdt i v w = fun_ext λ j. ground arith

Shared-upd :
    (others : ℕ → ℕ) (old new : ℕ) (fdt : FdTable) (r : Dup)
    → old ≢ new
    → Shared others old new (upd fdt new 0) r
    → Shared others old new fdt r
Shared-upd others old new fdt fault ne s = s
Shared-upd others old new fdt (returned r fdt' io') ne s =
    (s.0, s.1 ∙ upd-upd fdt new 0 _ ∙ ap (λ v. upd fdt new v) (ground arith), s.2)

module _ (console_file : ℕ) (others : ℕ → ℕ) (old new : ℕ) (fdt : FdTable) (io : Io) where
  fd_dup2-free :
      old < max_fds
      → new < max_fds
      → fdt old ≢ 0
      → fdt new ≡ 0
      → fd_dup2 console_file fdt (pos old) (pos new) io ≡ dup_to old new fdt io
  unfolding fd_dup2
  fd_dup2-free inside inside' used free = ground (arith, lookup_fd-used fdt old inside used)

  fd_dup2-taken :
      old < max_fds
      → new < max_fds
      → fdt old ≢ 0
      → fdt new ≢ 0
      → fd_dup2 console_file fdt (pos old) (pos new) io
        ≡ dup_to old new (upd fdt new 0) (release_file console_file (fdt new) io)
  unfolding fd_dup2
  fd_dup2-taken inside inside' used taken = ground (
    arith,
    lookup_fd-used fdt old inside used,
    fd_close-used console_file fdt new io inside' taken,
  )

  -- With every count right: `fd_dup2` of two different descriptors, of which the first is open, closes the second if that is
  -- open, makes it stand for the open file of the first, returns it, and keeps every count right.
  pub fd_dup2-Shared :
      old < max_fds
      → new < max_fds
      → old ≢ new
      → fdt old ≢ 0
      → RefsOk others fdt io
      → Shared others old new fdt (fd_dup2 console_file fdt (pos old) (pos new) io)
  fd_dup2-Shared inside inside' ne used ok = elim (ℕ_discrete (fdt new) 0) [
    | yes free ↦
        rw (fd_dup2-free inside inside' used free)
          (dup_to-Shared others old new fdt io inside' used free ok)
    | no taken ↦ rw (fd_dup2-taken inside inside' used taken) (
        Shared-upd others old new fdt _ ne (
          dup_to-Shared others old new (upd fdt new 0) (release_file console_file (fdt new) io)
            inside' (ground arith) (ground arith)
            (release_file-RefsOk console_file others new fdt io inside' taken ok)))
  ]

-- `fd_dup2(fd, fd)` of an open descriptor closes it and then writes through the NULL that this
-- leaves, whatever the descriptor stands for.
pub fd_dup2_self_faults :
    (console_file fd : ℕ) (fdt : FdTable) (io : Io)
    → fd < max_fds
    → fdt fd ≢ 0
    → fd_dup2 console_file fdt (pos fd) (pos fd) io ≡ fault
unfolding dup_to
fd_dup2_self_faults console_file fd fdt io inside used =
    rw (fd_dup2-taken console_file (λ f. 0) fd fd fdt io inside inside used used) (ground arith)

-- Descriptor `j` of a table after the `i`-th to the `n - 1`st were copied from `src`.
refs_between : ℕ → ℕ → ℕ → FdTable → ℕ
refs_between zero i f fdt = 0
refs_between (suc n) i f fdt = (if fdt i == f then 1 else 0) + refs_between n (i + 1) f fdt

dup_from_lem :
    (n i : ℕ) (dst src : FdTable) (io : Io)
    → let (dst', io') = dup_from n i dst src io in
      ((j : ℕ) → dst' j ≡ (if leb i j && ltb j (i + n) then src j else dst j))
      × ((f m : ℕ)
          → f ≢ 0
          → (io.files f).ref_count ≡ pos m
          → (io'.files f).ref_count ≡ pos (m + refs_between n i f src))
unfolding dup_from refs_between
dup_from_lem zero i dst src io = (λ j. ground arith, λ f m ne e. e ∙ ap pos (omega arith))
dup_from_lem (suc n) i dst src io = (
  λ j. ground (arith, (dup_from_lem n (i + 1) (upd dst i (src i)) src next_io).0 j),
  λ f m ne e.
      (dup_from_lem n (i + 1) (upd dst i (src i)) src next_io).1 f
        (m + (if src i == f then 1 else 0)) ne (next_ref f m ne e)
      ∙ ap pos (omega arith),
)
  where
    next_io : Io
    next_io =
        if src i == 0
        then io
        else set_file (src i)
            (record (io.files (src i)) { ref_count = bump ((io.files (src i)).ref_count) }) io

    next_ref :
        (f m : ℕ)
        → f ≢ 0
        → (io.files f).ref_count ≡ pos m
        → (next_io.files f).ref_count ≡ pos (m + (if src i == f then 1 else 0))
    next_ref f m ne e = ground arith

refs_between-count_refs :
    (n i j f : ℕ) (fdt : FdTable)
    → i + n ≡ j
    → refs_between n i f fdt + count_refs i f fdt ≡ count_refs j f fdt
unfolding refs_between
refs_between-count_refs zero i j f fdt e = let same : i ≡ j = omega arith in rw same (omega arith)
refs_between-count_refs (suc n) i j f fdt e =
    let next : i + 1 ≡ suc i = omega arith in
    let step : count_refs (suc i) f fdt ≡ (if fdt i == f then 1 else 0) + count_refs i f fdt =
      unfold count_refs in refl in
    let step' : count_refs (i + 1) f fdt ≡ (if fdt i == f then 1 else 0) + count_refs i f fdt =
      rw next step in
    omega (arith, refs_between-count_refs n (i + 1) j f fdt (omega arith), step')

pub fd_table_dup-descriptors :
    (dst src : FdTable) (io : Io) (j : ℕ) → j < max_fds → (fd_table_dup dst src io).0 j ≡ src j
unfolding fd_table_dup
fd_table_dup-descriptors dst src io j h = ground (arith, (dup_from_lem max_fds 0 dst src io).0 j)

-- `fd_table_dup` gives the new table the same open files on the same descriptors, and adds to the
-- count of each open file, from 0 up, as many references as the old table has to it.
pub fd_table_dup_lem :
    (dst src : FdTable) (io : Io) (f m : ℕ)
    → f ≢ 0
    → (io.files f).ref_count ≡ pos m
    → let (dst', io') = fd_table_dup dst src io in
      ((j : ℕ) → j < max_fds → dst' j ≡ src j)
      × ((io'.files f).ref_count ≡ pos (m + count_refs max_fds f src))
unfolding fd_table_dup
fd_table_dup_lem dst src io f m ne e = (
  λ j h. ground (arith, (dup_from_lem max_fds 0 dst src io).0 j),
  (dup_from_lem max_fds 0 dst src io).1 f m ne e ∙ ap (λ k. pos (m + k)) whole,
)
  where
    whole : refs_between max_fds 0 f src ≡ count_refs max_fds f src
    whole =
        let none_yet : count_refs 0 f src ≡ 0 = unfold count_refs in refl in
        omega (arith, refs_between-count_refs max_fds 0 max_fds f src (omega arith))
