-- ===== src/Pmm/Count.antt =====
-- How many pages of the bitmap are used, and how setting and clearing bits changes that number.
use archarch.Base.{
  ℕ, zero, suc, ◌+◌, ◌≤◌, ◌<◌, ◌≡◌, refl, arith, true, false, ◌&&◌, ltb, leb, if◌then◌else◌,
}
use archarch.Pmm.{Pmm, bit_set, bit_clear, bit_test, set_run}
use archarch.Pmm.Bits.{IsBytes, bit_test-bit_set, bit_test-bit_clear, bit_set-IsBytes}

-- The used pages among the first `n`.
pub count_used : ℕ → Pmm → ℕ
count_used zero p = 0
count_used (suc n) p = (if bit_test n p then 1 else 0) + count_used n p

pub count_used-le : (n : ℕ) (p : Pmm) → count_used n p ≤ n
unfolding count_used
count_used-le zero p = omega arith
count_used-le (suc n) p = ground (arith, count_used-le n p)

pub count_used-full :
    (n : ℕ) (p : Pmm) → ((j : ℕ) → j < n → bit_test j p ≡ true) → count_used n p ≡ n
unfolding count_used
count_used-full zero p full = refl
count_used-full (suc n) p full =
    ground (arith, full n (omega arith), count_used-full n p (λ j h. full j (omega arith)))

-- The bits of the bitmap do not depend on the counters.
pub bit_test-counters :
    (j f u : ℕ) (p : Pmm) → bit_test j (record p { free_pages = f; used_pages = u }) ≡ bit_test j p
unfolding bit_test
bit_test-counters j f u p = refl

pub count_used-counters :
    (n f u : ℕ) (p : Pmm)
    → count_used n (record p { free_pages = f; used_pages = u }) ≡ count_used n p
unfolding count_used
count_used-counters zero f u p = refl
count_used-counters (suc n) f u p =
    ground (arith, bit_test-counters n f u p, count_used-counters n f u p)

module _ (i : ℕ) (p : Pmm) (bytes : IsBytes p) where
  pub count_used-bit_set :
      (n : ℕ)
      → bit_test i p ≡ false
      → count_used n (bit_set i p) ≡ count_used n p + (if ltb i n then 1 else 0)
  unfolding count_used
  count_used-bit_set zero clear = ground arith
  count_used-bit_set (suc n) clear =
      ground (arith, count_used-bit_set n clear, bit_test-bit_set i n p bytes)

  pub count_used-bit_clear :
      (n : ℕ)
      → bit_test i p ≡ true
      → count_used n (bit_clear i p) + (if ltb i n then 1 else 0) ≡ count_used n p
  unfolding count_used
  count_used-bit_clear zero was = ground arith
  count_used-bit_clear (suc n) was =
      ground (arith, count_used-bit_clear n was, bit_test-bit_clear i n p bytes)

-- The `n` pages from `start` on are free.
abbrev pub FreeRun : ℕ → ℕ → Pmm → Type 0
FreeRun n start p = (j : ℕ) → start ≤ j → j < start + n → bit_test j p ≡ false

pub set_run-IsBytes : (n start : ℕ) (p : Pmm) → IsBytes p → IsBytes (set_run n start p)
unfolding set_run
set_run-IsBytes zero start p bytes = bytes
set_run-IsBytes (suc n) start p bytes =
    set_run-IsBytes n (start + 1) (bit_set start p) (bit_set-IsBytes start p bytes)

pub bit_test-set_run :
    (n start j : ℕ) (p : Pmm)
    → IsBytes p
    → bit_test j (set_run n start p)
      ≡ (if leb start j && ltb j (start + n) then true else bit_test j p)
unfolding set_run
bit_test-set_run zero start j p bytes = ground arith
bit_test-set_run (suc n) start j p bytes = ground (
  arith,
  bit_test-set_run n (start + 1) j (bit_set start p) (bit_set-IsBytes start p bytes),
  bit_test-bit_set start j p bytes,
)

pub count_used-set_run :
    (n start top : ℕ) (p : Pmm)
    → IsBytes p
    → FreeRun n start p
    → start + n ≤ top
    → count_used top (set_run n start p) ≡ count_used top p + n
unfolding set_run
count_used-set_run zero start top p bytes free fits = omega arith
count_used-set_run (suc n) start top p bytes free fits = ground (
  arith,
  count_used-set_run n (start + 1) top (bit_set start p) (bit_set-IsBytes start p bytes)
      (λ j lo hi.
        ground (arith, bit_test-bit_set start j p bytes, free j (omega arith) (omega arith)))
      (omega arith),
  count_used-bit_set start p bytes top (free start (omega arith) (omega arith)),
)

-- Neither the bitmap's bits nor the count depend on the counters.
pub free_pages-set_run : (n start : ℕ) (p : Pmm) → (set_run n start p).free_pages ≡ p.free_pages
unfolding set_run bit_set
free_pages-set_run zero start p = refl
free_pages-set_run (suc n) start p = free_pages-set_run n (start + 1) (bit_set start p)

pub used_pages-set_run : (n start : ℕ) (p : Pmm) → (set_run n start p).used_pages ≡ p.used_pages
unfolding set_run bit_set
used_pages-set_run zero start p = refl
used_pages-set_run (suc n) start p = used_pages-set_run n (start + 1) (bit_set start p)

pub count_used-zero : (n : ℕ) (p : Pmm) → ((j : ℕ) → bit_test j p ≡ false) → count_used n p ≡ 0
unfolding count_used
count_used-zero zero p clear = refl
count_used-zero (suc n) p clear = ground (arith, count_used-zero n p clear, clear n)

pub count_used-ext :
    (n : ℕ) (p q : Pmm)
    → ((j : ℕ) → j < n → bit_test j p ≡ bit_test j q)
    → count_used n p ≡ count_used n q
unfolding count_used
count_used-ext zero p q same = refl
count_used-ext (suc n) p q same =
    ground (arith, count_used-ext n p q (λ j h. same j (omega arith)), same n (omega arith))
