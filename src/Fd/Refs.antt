-- ===== src/Fd/Refs.antt =====
-- Reference counting: closing descriptors.
use native.Mathlib.Decide.{ℕ_discrete}
use archarch.Base.{
  ℕ, zero, suc, ◌+◌, ◌<◌, ◌≡◌, ◌≢◌, refl, ap, ◌∙◌, arith, ◌&&◌, ◌==◌, ==_ne, ==_refl, ==_iff, ltb,
  if◌then◌else◌, none, some, Option-cases, inl, inr, upd, ℤ, pos, negsuc, minus_one, ◌⊎◌,
}
use archarch.Fd.Objects.{OpenFile, Io, FdTable, max_fds, lookup_fd, drop, set_file}
use archarch.Fd.{free_file, close_end, release_file, fd_close, destroy_from, fd_table_destroy}

-- The descriptors below `n` that stand for the open file at `f`.
unfoldable pub count_refs : ℕ → ℕ → FdTable → ℕ
count_refs zero f fdt = 0
count_refs (suc n) f fdt = (if fdt n == f then 1 else 0) + count_refs n f fdt

pub count_refs-upd :
    (n i v f : ℕ) (fdt : FdTable)
    → count_refs n f (upd fdt i v) + (if ltb i n && fdt i == f then 1 else 0)
      ≡ count_refs n f fdt + (if ltb i n && v == f then 1 else 0)
unfolding count_refs
count_refs-upd zero i v f fdt = ground arith
count_refs-upd (suc n) i v f fdt = ground (arith, count_refs-upd n i v f fdt)

pub count_refs_positive : (n i : ℕ) (fdt : FdTable) → i < n → 0 < count_refs n (fdt i) fdt
unfolding count_refs
count_refs_positive zero i fdt h = absurd (omega arith)
count_refs_positive (suc n) i fdt h = ground (arith, count_refs_positive n i fdt)

-- Every open file counts the descriptors that stand for it: those of this table, and `others`, as
-- many as other tables have.
abbrev pub RefsOk : (ℕ → ℕ) → FdTable → Io → Type 0
RefsOk others fdt io =
    (f : ℕ) → f ≢ 0 → (io.files f).ref_count ≡ pos (count_refs max_fds f fdt + others f)

lookup_fd-some :
    (fdt : FdTable) (fd : ℤ) (n : ℕ)
    → lookup_fd fdt fd ≡ some n
    → (fd ≡ pos n) × (n < max_fds) × (fdt n ≢ 0)
unfolding lookup_fd
lookup_fd-some fdt (pos m) n e = ground arith
lookup_fd-some fdt (negsuc m) n e = cc

close_end-ref_count :
    (f g : ℕ) (o : OpenFile) (io : Io)
    → (io.files f).ref_count ≡ o.ref_count
    → ((close_end f o io).files g).ref_count ≡ (io.files g).ref_count
unfolding close_end
close_end-ref_count f g o io same = ground arith

-- The two outcomes of `fd_close`.
abbrev pub Closed : (ℕ → ℕ) → FdTable → ℤ → Io → ℤ × FdTable × Io → Type 0
Closed others fdt fd io (r, fdt', io') =
    ((n : ℕ) × (fd ≡ pos n)
      × (n < max_fds)
      × (fdt n ≢ 0)
      × (r ≡ pos 0)
      × (fdt' ≡ upd fdt n 0)
      × RefsOk others fdt' io')
    ⊎ ((lookup_fd fdt fd ≡ none) × (r ≡ minus_one) × (fdt' ≡ fdt) × (io' ≡ io))

pub lookup_fd-used :
    (fdt : FdTable) (i : ℕ) → i < max_fds → fdt i ≢ 0 → lookup_fd fdt (pos i) ≡ some i
unfolding lookup_fd
lookup_fd-used fdt i inside used = ground arith

count_refs_empty :
    (n f : ℕ) (fdt : FdTable) → f ≢ 0 → ((j : ℕ) → j < n → fdt j ≡ 0) → count_refs n f fdt ≡ 0
unfolding count_refs
count_refs_empty zero f fdt ne empty = refl
count_refs_empty (suc n) f fdt ne empty =
    ground
      (arith, count_refs_empty n f fdt ne (λ j h. empty j (omega arith)), empty n (omega arith))

module _ (console_file : ℕ) where
  free_file-files : (f : ℕ) (io : Io) → (free_file console_file f io).files ≡ io.files
  unfolding free_file
  free_file-files f io = ground arith

  pub ref_count-release_file :
      (f g : ℕ) (io : Io)
      → ((release_file console_file f io).files g).ref_count
        ≡ (if f == g then drop ((io.files f).ref_count) else (io.files g).ref_count)
  unfolding release_file
  ref_count-release_file f g io = ground (
    arith,
    close_end-ref_count f g released (set_file f released io) (rw (==_refl f) refl),
    free_file-files f (set_file f released io),
    free_file-files f (close_end f released (set_file f released io)),
  )
    where
      released : OpenFile
      released = record (io.files f) { ref_count = drop ((io.files f).ref_count) }

  pub release_file-RefsOk :
      (others : ℕ → ℕ) (n : ℕ) (fdt : FdTable) (io : Io)
      → n < max_fds
      → fdt n ≢ 0
      → RefsOk others fdt io
      → RefsOk others (upd fdt n 0) (release_file console_file (fdt n) io)
  release_file-RefsOk others n fdt io inside used ok g ne = ground (
    arith,
    ref_count-release_file (fdt n) g io,
    ok g ne,
    ok (fdt n) used,
    count_refs-upd max_fds n 0 g fdt,
    count_refs_positive max_fds n fdt inside,
  )

  -- With every count right: `fd_close` of a descriptor that is open returns 0, frees the descriptor and no other, and keeps
  -- every open file's count right; of any other number it returns -1 and changes nothing.
  pub fd_close-Closed :
      (others : ℕ → ℕ) (fdt : FdTable) (fd : ℤ) (io : Io)
      → RefsOk others fdt io
      → Closed others fdt fd io (fd_close console_file fdt fd io)
  unfolding fd_close
  fd_close-Closed others fdt fd io ok = elim (Option-cases (lookup_fd fdt fd)) [
    | inl e ↦ rw (e, fd_close) (inr (refl, refl, refl, refl))
    | inr (n, e) ↦
        let (is, inside, used) = lookup_fd-some fdt fd n e in
        rw (e, fd_close)
          (inl
            (n, is, inside, used, refl, refl, release_file-RefsOk others n fdt io inside used ok))
  ]

  pub fd_close-used :
      (fdt : FdTable) (i : ℕ) (io : Io)
      → i < max_fds
      → fdt i ≢ 0
      → fd_close console_file fdt (pos i) io
        ≡ (pos 0, upd fdt i 0, release_file console_file (fdt i) io)
  unfolding fd_close
  fd_close-used fdt i io inside used = rw (lookup_fd-used fdt i inside used, fd_close)

  destroy_from-empty :
      (n i : ℕ) (fdt : FdTable) (io : Io)
      → fdt i ≡ 0
      → destroy_from console_file (suc n) i fdt io ≡ destroy_from console_file n (i + 1) fdt io
  unfolding destroy_from
  destroy_from-empty n i fdt io e = rw ((==_iff (fdt i) 0).1 e, destroy_from)

  destroy_from-open :
      (n i : ℕ) (fdt : FdTable) (io : Io)
      → i < max_fds
      → fdt i ≢ 0
      → destroy_from console_file (suc n) i fdt io
        ≡ destroy_from console_file n (i + 1) (upd fdt i 0) (release_file console_file (fdt i) io)
  unfolding destroy_from
  destroy_from-open n i fdt io inside used =
      rw (==_ne (fdt i) 0 used, fd_close-used fdt i io inside used, destroy_from)

  -- What the loop of `fd_table_destroy` leaves open: nothing that it has passed.
  destroy_from-RefsOk :
      (others : ℕ → ℕ) (n i : ℕ) (fdt : FdTable) (io : Io)
      → i + n ≡ max_fds
      → RefsOk others fdt io
      → ((j : ℕ) → j < i → fdt j ≡ 0)
      → let (fdt', io') = destroy_from console_file n i fdt io in
        RefsOk others fdt' io' × ((j : ℕ) → j < max_fds → fdt' j ≡ 0)
  unfolding destroy_from
  destroy_from-RefsOk others zero i fdt io e ok passed = (ok, λ j h. passed j (omega arith))
  destroy_from-RefsOk others (suc n) i fdt io e ok passed = elim (ℕ_discrete (fdt i) 0) [
    | yes empty ↦ rw (destroy_from-empty n i fdt io empty) (
        destroy_from-RefsOk others n (i + 1) fdt io (omega arith) ok
          (λ j h. ground (arith, passed j)))
    | no used ↦ rw (destroy_from-open n i fdt io (omega arith) used) (
        destroy_from-RefsOk others n (i + 1) (upd fdt i 0) (release_file console_file (fdt i) io)
          (omega arith) (release_file-RefsOk others i fdt io (omega arith) used ok)
          (λ j h. ground (arith, passed j)))
  ]

  -- With every count right: `fd_table_destroy` leaves no descriptor open, and takes this table's references off the count of
  -- every open file: what is left are those of other tables.
  pub fd_table_destroy_lem :
      (others : ℕ → ℕ) (fdt : FdTable) (io : Io)
      → RefsOk others fdt io
      → let (fdt', io') = fd_table_destroy console_file fdt io in
        ((j : ℕ) → j < max_fds → fdt' j ≡ 0)
        × ((f : ℕ) → f ≢ 0 → (io'.files f).ref_count ≡ pos (others f))
  unfolding fd_table_destroy
  fd_table_destroy_lem others fdt io ok =
      let (ok', empty) =
        destroy_from-RefsOk others max_fds 0 fdt io (omega arith) ok
          (λ j h. absurd (omega arith)) in
      (
        empty,
        λ f ne.
            ok' f ne
            ∙ ap (λ k. pos (k + others f)) (count_refs_empty max_fds f _ ne empty)
            ∙ ap pos (omega arith),
      )
