-- ===== src/Virtqueue/Chains.antt =====
-- The free list and the chains of a virtqueue, as lists of descriptor indices.
use mathlib.Core.Path.{subst}
use archarch.Base.{
  ℕ, zero, suc, ◌≤◌, ◌≡◌, ◌≢◌, refl, sym, ◌∙◌, arith, true, false, ==_ne, ==_refl, leb, some, List,
  [], ◌∷◌, upd, length, take, drop,
}
use archarch.Kmalloc.{virt_to_phys}
use archarch.Virtqueue.{Desc, VqBuf, no_desc, has_next, with_next, enough, fill_chain, free_chain}

abbrev pub Fresh : ℕ → List ℕ → Type 0
Fresh i [] = Unit {0}
Fresh i (x ∷ xs) = (i ≢ x) × Fresh i xs

abbrev pub Distinct : List ℕ → Type 0
Distinct [] = Unit {0}
Distinct (x ∷ xs) = Fresh x xs × Distinct xs

-- From `h` on, the links lead through `xs` to the end mark.
abbrev pub FreeList : (ℕ → Desc) → ℕ → List ℕ → Type 0
FreeList d h [] = h ≡ no_desc
FreeList d h (x ∷ xs) = (h ≡ x) × (x ≢ no_desc) × FreeList d (d x).next xs

-- From `h` on, the links lead through `xs`, and just the last has no next.
abbrev pub Chain : (ℕ → Desc) → ℕ → List ℕ → Type 0
Chain d h [] = ⊥
Chain d h (x ∷ []) = (h ≡ x) × (has_next (d x).flags ≡ false)
Chain d h (x ∷ y ∷ ys) = (h ≡ x) × (has_next (d x).flags ≡ true) × Chain d (d x).next (y ∷ ys)

-- Indices that are neither the end mark nor in `xs`.
abbrev pub Apart : List ℕ → List ℕ → Type 0
Apart [] xs = Unit {0}
Apart (c ∷ cs) xs = (c ≢ no_desc) × Fresh c xs × Apart cs xs

FreeList-upd :
    (d : ℕ → Desc) (i : ℕ) (v : Desc) (h : ℕ) (xs : List ℕ)
    → Fresh i xs
    → FreeList d h xs
    → FreeList (upd d i v) h xs
FreeList-upd d i v h [] fresh l = l
FreeList-upd d i v h (x ∷ xs) (ne, fresh) (is, inside, l) =
    (is, inside, rw (==_ne i x ne) (FreeList-upd d i v (d x).next xs fresh l))

Chain-upd :
    (d : ℕ → Desc) (i : ℕ) (v : Desc) (h : ℕ) (xs : List ℕ)
    → Fresh i xs
    → Chain d h xs
    → Chain (upd d i v) h xs
Chain-upd d i v h [] fresh c = c
Chain-upd d i v h (x ∷ []) (ne, fresh) (is, end) = (is, rw (==_ne i x ne) end)
Chain-upd d i v h (x ∷ y ∷ ys) (ne, fresh) (is, more, c) =
    (is, rw (==_ne i x ne) more, rw (==_ne i x ne) (Chain-upd d i v (d x).next (y ∷ ys) fresh c))

pub Fresh-take : (n i : ℕ) (xs : List ℕ) → Fresh i xs → Fresh i (take n xs)
Fresh-take zero i xs fresh = tt
Fresh-take (suc n) i [] fresh = tt
Fresh-take (suc n) i (x ∷ xs) (ne, fresh) = (ne, Fresh-take n i xs fresh)

-- There are enough free descriptors just when the free list is long enough.
pub enough-length :
    (bufs : List VqBuf) (h : ℕ) (d : ℕ → Desc) (xs : List ℕ)
    → FreeList d h xs
    → enough bufs h d ≡ leb (length bufs) (length xs)
unfolding enough
enough-length [] h d xs l = ground arith
enough-length (b ∷ []) h d [] l = ground arith
enough-length (b ∷ []) h d (x ∷ xs) (is, inside, l) = ground arith
enough-length (b ∷ c ∷ bs) h d [] l = ground arith
enough-length (b ∷ c ∷ bs) h d (x ∷ xs) (is, inside, l) =
    rw is (ground (arith, enough-length (c ∷ bs) (d x).next d xs l))

-- No buffer asks for a next descriptor by itself.
abbrev pub AllEven : List VqBuf → Type 0
AllEven [] = Unit {0}
AllEven (b ∷ bs) = (has_next b.flags ≡ false) × AllEven bs

-- What filling leaves: the chain, the rest of the free list, and every other descriptor.
abbrev pub FilledTo : ℕ → List ℕ → (ℕ → Desc) → ℕ → (ℕ → Desc) × ℕ → Type 0
FilledTo n xs d h (d', free_head') =
    Chain d' h (take n xs)
    × FreeList d' free_head' (drop n xs)
    × ((i : ℕ) → Fresh i (take n xs) → d' i ≡ d i)

pub fill_chain_lem :
    (b : VqBuf) (bs : List VqBuf) (h free_head : ℕ) (d : ℕ → Desc) (xs : List ℕ)
    → AllEven (b ∷ bs)
    → FreeList d h xs
    → Distinct xs
    → length (b ∷ bs) ≤ length xs
    → FilledTo (length (b ∷ bs)) xs d h (fill_chain (b ∷ bs) h d free_head)
unfolding fill_chain
fill_chain_lem b bs h fh d [] even l distinct room = absurd (omega arith)
fill_chain_lem b [] h fh d (x ∷ xs) (even, _) (is, inside, l) (fresh, distinct) room = rw is (
  (refl, rw (==_refl x) even),
  FreeList-upd d x _ (d x).next xs fresh l,
  λ i (ne, _). rw (==_ne x i (λ e. ne (sym e))) refl,
)
fill_chain_lem b (c ∷ bs) h fh d (x ∷ []) even l distinct room = absurd (omega arith)
fill_chain_lem b (c ∷ bs) h fh d (x ∷ y ∷ ys) (even, evens) (is, inside, l) (fresh, distinct) room =
    let next = (d x).next in
    let filled : Desc = record {
      addr = virt_to_phys b.addr;
      len = b.len;
      flags = with_next b.flags;
      next = next;
    } in
    let (c', l', same) =
      fill_chain_lem c bs next fh (upd d x filled) (y ∷ ys) evens
        (FreeList-upd d x filled next (y ∷ ys) fresh l) distinct (omega arith) in
    let kept : (fill_chain (c ∷ bs) next (upd d x filled) fh).0 x ≡ filled =
      same x (Fresh-take (length (c ∷ bs)) x (y ∷ ys) fresh) ∙ rw (==_refl x) refl in
    subst (λ k. FilledTo (length (b ∷ c ∷ bs)) (x ∷ y ∷ ys) d k (fill_chain (b ∷ c ∷ bs) k d fh))
      (sym is)
      (
        (refl, rw kept (ground arith), rw kept c'),
        l',
        λ i (ne, away). same i away ∙ rw (==_ne x i (λ e. ne (sym e))) refl,
      )

-- The indices of a chain that came back, each put in front of the free list in turn.
abbrev pub give_back : List ℕ → List ℕ → List ℕ
give_back [] xs = xs
give_back (c ∷ cs) xs = give_back cs (c ∷ xs)

Apart-cons : (c : ℕ) (cs xs : List ℕ) → Fresh c cs → Apart cs xs → Apart cs (c ∷ xs)
Apart-cons c [] xs fresh apart = tt
Apart-cons c (c' ∷ cs) xs (ne, fresh) (inside, away, apart) =
    (inside, ((λ e. ne (sym e)), away), Apart-cons c cs xs fresh apart)

pub free_chain_lem :
    (fuel cur free_head : ℕ) (d : ℕ → Desc) (cs xs : List ℕ)
    → length cs ≤ fuel
    → Chain d cur cs
    → Distinct cs
    → Apart cs xs
    → FreeList d free_head xs
    → (d' : ℕ → Desc) × (h : ℕ) × (free_chain fuel cur d free_head ≡ some (d', h))
      × FreeList d' h (give_back cs xs)
unfolding free_chain
free_chain_lem fuel cur fh d [] xs enough_fuel chain distinct apart l = absurd chain
free_chain_lem zero cur fh d (c ∷ cs) xs enough_fuel chain distinct apart l = absurd (omega arith)
free_chain_lem (suc n) cur fh d (c ∷ []) xs enough_fuel (is, end) distinct (inside, fresh, _) l =
    rw (is, end)
      (
        upd d c (record (d c) { next = fh }),
        c,
        refl,
        (refl, inside, rw (==_refl c) (FreeList-upd d c _ fh xs fresh l)),
      )
free_chain_lem (suc n) cur fh d (c ∷ y ∷ ys) xs enough_fuel (is, more, chain) (new, distinct)
      (inside, fresh, apart) l =
    let freed : Desc = record (d c) { next = fh } in
    let (d', h, e, l') =
      free_chain_lem n (d c).next c (upd d c freed) (y ∷ ys) (c ∷ xs) (omega arith)
        (Chain-upd d c freed (d c).next (y ∷ ys) new chain) distinct
        (Apart-cons c (y ∷ ys) xs new apart)
        (refl, inside, rw (==_refl c) (FreeList-upd d c freed fh xs fresh l)) in
    rw (is, more) (d', h, e, l')
