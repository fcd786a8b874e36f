-- ===== src/Sched/Copy.antt =====
-- Copying bytes from page to page, and what that means for the words of the pages.
use archarch.Base.{
  ℕ, zero, suc, ◌+◌, ◌*◌, ◌≤◌, ◌<◌, ◌≡◌, ◌⊎◌, inl, inr, refl, ap, ◌∙◌, arith, true, upd,
}
use native.Mathlib.Decide.{dec_le, dec_lt}
use archarch.Memory.{Memory, load_bytes, load_bytes_same}
use archarch.Kmalloc.{phys_to_virt}
use archarch.Pmm.{Pmm, total_pages, page_to_addr, bit_test}
use archarch.Pmm.Count.{FreeRun}
use archarch.Mmu.{entry}
use archarch.Mmu.Alloc.{slot, page_to_addr-eq}
use archarch.Sched.User.{copy_bytes}

-- Two ranges of `n` bytes that do not meet.
abbrev pub Apart : ℕ → ℕ → ℕ → Type 0
Apart n a b = (a + n ≤ b) ⊎ (b + n ≤ a)

copy_bytes_elsewhere :
    (n i dst src b : ℕ) (m : Memory)
    → (b < dst + i) ⊎ (dst + i + n ≤ b)
    → copy_bytes n i dst src m b ≡ m b
unfolding copy_bytes
copy_bytes_elsewhere zero i dst src b m away = refl
copy_bytes_elsewhere (suc n) i dst src b m away =
    copy_bytes_elsewhere n (i + 1) dst src b (upd m (dst + i) (m (src + i))) (ground (arith, away))
    ∙ ground (arith, away)

copy_bytes-at :
    (n i dst src k : ℕ) (m : Memory)
    → Apart (i + n) dst src
    → i ≤ k
    → k < i + n
    → copy_bytes n i dst src m (dst + k) ≡ m (src + k)
unfolding copy_bytes
copy_bytes-at zero i dst src k m apart lo hi = absurd (omega arith)
copy_bytes-at (suc n) i dst src k m apart lo hi = elim (dec_lt i k) [
  | yes later ↦
      copy_bytes-at n (i + 1) dst src k (upd m (dst + i) (m (src + i))) (ground (arith, apart))
        (omega arith) (omega arith)
      ∙ ground (arith, apart)
  | no now ↦
      let e : i ≡ k = omega arith in
      copy_bytes_elsewhere n (i + 1) dst src (dst + k) (upd m (dst + i) (m (src + i)))
        (inl (omega arith))
      ∙ rw e (ground arith)
]

-- A load of shifted bytes.
load_bytes_shift :
    (n a b : ℕ) (m m' : Memory)
    → ((k : ℕ) → k < n → m' (a + k) ≡ m (b + k))
    → load_bytes n a m' ≡ load_bytes n b m
unfolding load_bytes
load_bytes_shift zero a b m m' same = refl
load_bytes_shift (suc n) a b m m' same =
    let first : m' a ≡ m b = ap m' (omega arith) ∙ same 0 (omega arith) ∙ ap m (omega arith) in
    let rest : load_bytes n (a + 1) m' ≡ load_bytes n (b + 1) m =
      load_bytes_shift n (a + 1) (b + 1) m m'
        (λ k h. ap m' (omega arith) ∙ same (k + 1) (omega arith) ∙ ap m (omega arith)) in
    omega (arith, first, rest)

-- `n` pages from the address `pa` on, all in use.
pub record IsRun (pa n : ℕ) (p : Pmm) : Type 0 where
  pub start : ℕ
  pub fits : start + n ≤ total_pages
  pub is : pa ≡ page_to_addr start
  pub used : (j : ℕ) → start ≤ j → j < start + n → bit_test j p ≡ true

-- A run of pages in use and a run of free pages, of the same length, do not meet.
pub runs-Apart :
    (n a b : ℕ) (p : Pmm)
    → ((j : ℕ) → a ≤ j → j < a + n → bit_test j p ≡ true)
    → FreeRun n b p
    → Apart n a b
runs-Apart n a b p used free = elim (dec_le (a + n) b) [
  | yes h ↦ inl h
  | no h ↦ elim (dec_le (b + n) a) [
    | yes h' ↦ inr h'
    | no h' ↦ elim (dec_le a b) [
      | yes lo ↦ absurd (cc (used b lo (omega arith), free b (omega arith) (omega arith)))
      | no hi ↦ absurd (cc (used a (omega arith) (omega arith), free a (omega arith) (omega arith)))
    ]
  ]
]

-- Copying `n` pages, read by their words: page `i` of the copy has the words of the original's.
pub slot-copied :
    (n c o i j : ℕ) (m : Memory)
    → Apart n c o
    → c + n ≤ total_pages
    → o + n ≤ total_pages
    → i < n
    → j < 512
    → slot
        (page_to_addr (c + i))
        j
        (copy_bytes (n * 4096) 0 (phys_to_virt (page_to_addr c)) (phys_to_virt (page_to_addr o)) m)
      ≡ slot (page_to_addr (o + i)) j m
unfolding slot entry
slot-copied n c o i j m apart fits fits' hi hj =
    let dst = phys_to_virt (page_to_addr c) in
    let src = phys_to_virt (page_to_addr o) in
    load_bytes_shift 8 (phys_to_virt (page_to_addr (c + i)) + j * 8)
      (phys_to_virt (page_to_addr (o + i)) + j * 8) m (copy_bytes (n * 4096) 0 dst src m)
      (λ k h.
        let at : phys_to_virt (page_to_addr (c + i)) + j * 8 + k ≡ dst + (i * 4096 + j * 8 + k) =
          omega (arith, page_to_addr-eq c (omega arith), page_to_addr-eq (c + i) (omega arith)) in
        let at' : phys_to_virt (page_to_addr (o + i)) + j * 8 + k ≡ src + (i * 4096 + j * 8 + k) =
          omega (arith, page_to_addr-eq o (omega arith), page_to_addr-eq (o + i) (omega arith)) in
        rw (at, at')
          (copy_bytes-at (n * 4096) 0 dst src (i * 4096 + j * 8 + k) m
            (ground
              (arith, apart, page_to_addr-eq c (omega arith), page_to_addr-eq o (omega arith)))
            (omega arith) (omega arith)))

-- A page outside the copy keeps its words.
pub slot-copy_bytes_elsewhere :
    (n c src q j : ℕ) (m : Memory)
    → c + n ≤ total_pages
    → q < total_pages
    → (q < c) ⊎ (c + n ≤ q)
    → 0 < n
    → j < 512
    → slot (page_to_addr q) j (copy_bytes (n * 4096) 0 (phys_to_virt (page_to_addr c)) src m)
      ≡ slot (page_to_addr q) j m
unfolding slot entry
slot-copy_bytes_elsewhere n c src q j m fits inside away positive hj =
    load_bytes_same 8 _ m _ (λ b lo hi.
      copy_bytes_elsewhere (n * 4096) 0 (phys_to_virt (page_to_addr c)) src b m
        (ground (arith, away, page_to_addr-eq c (omega arith), page_to_addr-eq q inside)))
