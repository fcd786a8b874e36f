-- ===== src/Mmu/Sample.antt =====
-- Address spaces to run tests on: the first pages of the RAM are in use, memory is all zeros.
use archarch.Base.{ℕ, ◌<◌, ◌≡◌, refl, ◌∙◌, arith, true}
use archarch.Memory.{load_bytes}
use archarch.Pmm.{Pmm, ram_base, all_free, take_run, page_to_addr, bit_test}
use archarch.Pmm.Valid.{all_free-IsValid, all_free-clear}
use archarch.Pmm.Effect.{Taken, take_run-Taken}
use archarch.Mmu.{Space, entry}
use archarch.Mmu.Alloc.{slot}
use archarch.Mmu.Tree.{IsTree}

-- Pages 0 to 7 are in use.
abbrev pub some_used : Pmm
some_used = (take_run 8 0 all_free).1

pub some_used-Taken : Taken 8 0 all_free some_used
some_used-Taken = take_run-Taken 8 0 all_free all_free-IsValid (record {
  fits = omega arith;
  free = λ j lo hi. all_free-clear j;
  first = λ s h. absurd (omega arith);
})

pub some_used-used : (j : ℕ) → j < 8 → bit_test j some_used ≡ true
some_used-used j h = some_used-Taken.after j ∙ ground arith

abbrev pub empty : Space
empty = record { pmm = some_used; mem = λ a. 0 }

slot-zeros : (q j : ℕ) → slot q j (λ a. 0) ≡ 0
unfolding slot entry load_bytes
slot-zeros q j = refl

-- The first page as the root of a tree that maps nothing.
pub empty-IsTree : IsTree ram_base (λ q. 0) empty
empty-IsTree = record {
  valid = some_used-Taken.valid;
  root = record {
    number = 0;
    inside = omega arith;
    is = unfold page_to_addr in refl;
    used = some_used-used 0 (omega arith);
  };
  place = refl;
  dirs = λ i hi is. absurd (ground (arith, is, slot-zeros ram_base i));
  leaves = λ i j hi hj is. absurd (ground (arith, is, slot-zeros ram_base i));
}
