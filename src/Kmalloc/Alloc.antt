-- ===== src/Kmalloc/Alloc.antt =====
-- `kmalloc`: what a successful search hands out, when the call returns, and when it does not.
use archarch.Base.{
  ℕ, suc, ◌+◌, ◌^◌, ◌≤◌, ◌<◌, ◌≡◌, ◌≢◌, refl, arith, true, ◌==◌, ==_ne, if◌then◌else◌, none, some,
  List, [], ◌∷◌, ◌++◌, Bool-cases, Option-cases, inl, inr,
}
use archarch.Base.Word.{add64, sub64, mul32}
use archarch.Pmm.{page_size}
use archarch.Kmalloc.{
  Block, Heap, header_size, align16, split, Fit, first_fit, taken_size, take_fit, kmalloc,
  pages_needed, add_pages, extends, extend_block, find_block,
}
use archarch.Kmalloc.Tiles.{
  Tiles, Tiles-le, Found, here, first_fit-Found, Tiles-append, append-Tiles, live_size,
  live_size-outside,
}

live_size-append :
    (x : ℕ) (xs ys : List Block)
    → live_size x (xs ++ ys) ≡ (elim (live_size x xs) [ none ↦ live_size x ys | some s ↦ some s ])
unfolding live_size
live_size-append x [] ys = refl
live_size-append x (b ∷ bs) ys = ground (arith, live_size-append x bs ys)

taken_size-enough : (size : ℕ) (b : Block) → size ≤ b.size → size ≤ taken_size size b
unfolding taken_size
taken_size-enough size b fits = ground arith

module _ (size : ℕ) (b : Block) (after : List Block) (a e : ℕ) (room : 16 ≤ size)
    (fits : size ≤ b.size) (top : e + 64 < 2 ^ 64) (t : Tiles a (b ∷ after) e) where
  split-Tiles : Tiles a (split size b ++ after) e
  unfolding split
  split-Tiles = ground (arith, Tiles-le (a + header_size + b.size) after e t.2)

  live_size-split :
      (x : ℕ)
      → b.free ≡ true
      → live_size x (split size b ++ after)
        ≡ (if b.addr == x then some (taken_size size b) else live_size x (b ∷ after))
  unfolding split live_size taken_size
  live_size-split x free = ground arith

-- What the caller of `kmalloc` gets: a block that was not in use, large enough, whose header is the
-- only one that changes its state.
pub record Handed (size a e : ℕ) (h : Heap) (p : ℕ) (h' : Heap) : Type 0 where
  pub block : ℕ
  pub got : ℕ
  pub pointer : p ≡ block + header_size
  pub enough : size ≤ got
  pub fresh : live_size block h.blocks ≡ none
  pub tiles : Tiles a h'.blocks e
  pub live :
      (x : ℕ) → live_size x h'.blocks ≡ (if block == x then some got else live_size x h.blocks)

module _ (h : Heap) (a e size : ℕ) (room : 16 ≤ size) (top : e + 64 < 2 ^ 64)
    (t : Tiles a h.blocks e) where
  take_fit-Handed :
      (f : Fit)
      → Found size h.blocks f
      → Handed size a e h (add64 f.block.addr header_size) (take_fit size f h)
  unfolding take_fit live_size
  take_fit-Handed f (here before after whole joined free fits) =
      let (m, l, r) = Tiles-append a before (f.block ∷ after) e (rw whole at t) in
      let outside : live_size f.block.addr before ≡ none =
        live_size-outside f.block.addr a before m l (inr (omega (arith, r))) in
      let behind : live_size f.block.addr after ≡ none =
        live_size-outside f.block.addr (m + header_size + f.block.size) after e r.2
          (inl (omega (arith, r))) in
      let enough : size ≤ taken_size size f.block = taken_size-enough size f.block fits in
      record {
        block = f.block.addr;
        got = taken_size size f.block;
        pointer = omega (arith, r, Tiles-le (m + header_size + f.block.size) after e r.2);
        enough = enough;
        fresh = ground (arith, live_size-append f.block.addr before (f.block ∷ after));
        tiles =
            rw joined
              (append-Tiles a before _ m e l (split-Tiles size f.block after m e room fits top r));
        live = λ x. ground (
          arith,
          live_size-append x before (f.block ∷ after),
          live_size-append x before (split size f.block ++ after),
          live_size-split size f.block after m e room fits top r x free,
        );
      }

-- Aligning twice is aligning once.
pub align16_facts :
    (size : ℕ)
    → 0 < size
    → size < 2 ^ 63
    → (16 ≤ align16 size) × (size ≤ align16 size) × (align16 (align16 size) ≡ align16 size)
align16_facts size pos small = omega arith

-- In a heap in one piece that ends 64 bytes or more below the top of the address space, a call of
-- `kmalloc` for 1 to 2^63 - 1 bytes for which some free block is large enough returns at once a pointer behind the header of a block that was free, is large enough and is now in use.
-- The blocks still tile the heap, and no other block changes from free to used or back.
pub kmalloc-Handed :
    (k size a e : ℕ) (h : Heap)
    → 0 < size
    → size < 2 ^ 63
    → e + 64 < 2 ^ 64
    → Tiles a h.blocks e
    → first_fit (align16 size) h.blocks ≢ none
    → (p : ℕ) × (h' : Heap) × (kmalloc (suc k) size h ≡ some (p, h'))
      × Handed (align16 size) a e h p h'
unfolding kmalloc
kmalloc-Handed k size a e h positive small top t fit =
    elim (Option-cases (first_fit (align16 size) h.blocks)) [
      | inl missing ↦ absurd (fit missing)
      | inr (f, found) ↦ (
        add64 f.block.addr header_size,
        take_fit (align16 size) f h,
        rw (==_ne size 0 (omega arith), found) refl,
        take_fit-Handed h a e (align16 size) (omega (arith, align16_facts size positive small)) top
            t f (first_fit-Found (align16 size) h.blocks f found),
      )
    ]

first_fit-append :
    (size : ℕ) (xs : List Block) (b : Block)
    → b.free ≡ true
    → size ≤ b.size
    → first_fit size (xs ++ (b ∷ [])) ≢ none
unfolding first_fit
first_fit-append size [] b free fits = ground arith
first_fit-append size (x ∷ xs) b free fits = ground (arith, first_fit-append size xs b free fits)

first_fit-extend :
    (size a n : ℕ) (xs : List Block) (b : Block)
    → find_block a xs ≡ some b
    → b.free ≡ true
    → size ≤ add64 b.size n
    → first_fit size (extend_block a n xs) ≢ none
unfolding first_fit extend_block find_block
first_fit-extend size a n [] b found free fits = ground arith
first_fit-extend size a n (x ∷ xs) b found free fits =
    ground (arith, first_fit-extend size a n xs b)

-- No block is so large that growing it by the pages of one request wraps.
abbrev pub IsSmall : List Block → Type 0
IsSmall [] = Unit {0}
IsSmall (b ∷ bs) = (b.size < 2 ^ 63) × IsSmall bs

find_block-IsSmall :
    (a : ℕ) (xs : List Block) (b : Block) → IsSmall xs → find_block a xs ≡ some b → b.size < 2 ^ 63
unfolding find_block
find_block-IsSmall a [] b small e = ground arith
find_block-IsSmall a (x ∷ xs) b small e = ground (arith, find_block-IsSmall a xs b small.1)

pages_needed_enough :
    (size : ℕ)
    → size < 2 ^ 31
    → let n = mul32 (pages_needed size) page_size in
      (size + header_size ≤ n) × (n < 2 ^ 32) × (0 < pages_needed size)
unfolding pages_needed
pages_needed_enough size small = ground arith

module _ (size new_pages : ℕ) (h : Heap) (small : size < 2 ^ 31) (blocks : IsSmall h.blocks) where
  abbrev pub grown : ℕ
  grown = mul32 (pages_needed size) page_size

  pub first_fit-add_pages : first_fit size (add_pages new_pages grown h).blocks ≢ none
  unfolding add_pages extends
  first_fit-add_pages = elim (Option-cases (find_block h.heap_end h.blocks)) [
    | inl missing ↦ ground (
      arith,
      missing,
      first_fit-append size h.blocks new refl (omega (arith, pages_needed_enough size small)),
    )
    | inr (b, found) ↦ elim (Bool-cases (extends h.heap_end h.blocks new_pages)) [
      | inl yes_it_does ↦ ground (
        arith,
        first_fit-extend size h.heap_end grown h.blocks b found,
        pages_needed_enough size small,
        find_block-IsSmall h.heap_end h.blocks b blocks found,
      )
      | inr it_does_not ↦ ground (
        arith,
        first_fit-append size h.blocks new refl (omega (arith, pages_needed_enough size small)),
      )
    ]
  ]
    where
      new : Block
      new = record { addr = new_pages; size = sub64 grown header_size; free = true }
