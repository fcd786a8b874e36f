-- ===== src/Kmalloc/Tiles.antt =====
-- A heap in one piece: its blocks tile an interval of addresses.
use archarch.Base.{
  ℕ, ◌+◌, ◌≤◌, ◌<◌, ◌≡◌, refl, arith, true, false, not, ◌&&◌, ◌==◌, leb, if◌then◌else◌, Option,
  none, some, List, [], ◌∷◌, ◌++◌, Bool-cases, Option-cases, ◌⊎◌, inl, inr,
}
use archarch.Kmalloc.{Block, header_size, split, Fit, first_fit}

-- The blocks follow one another without a gap from `a` to `e`, and each has room for a pointer's
-- sixteen bytes.
abbrev pub Tiles : ℕ → List Block → ℕ → Type 0
Tiles a [] e = a ≡ e
Tiles a (b ∷ bs) e = (b.addr ≡ a) × (16 ≤ b.size) × Tiles (a + header_size + b.size) bs e

pub Tiles-le : (a : ℕ) (bs : List Block) (e : ℕ) → Tiles a bs e → a ≤ e
Tiles-le a [] e t = omega arith
Tiles-le a (b ∷ bs) e t = omega (arith, Tiles-le (a + header_size + b.size) bs e t.2)

-- What the search finds: the first free block that is large enough, in its place in the chain.
pub data Found (size : ℕ) (bs : List Block) (f : Fit) : Type 0 where
  here :
      (before after : List Block)
      → bs ≡ before ++ (f.block ∷ after)
      → f.chain ≡ before ++ (split size f.block ++ after)
      → f.block.free ≡ true
      → size ≤ f.block.size
      → Found size bs f

Found-cons :
    (size : ℕ) (b : Block) (bs : List Block) (f g : Fit)
    → f ≡ record { block = g.block; chain = b ∷ g.chain }
    → Found size bs g
    → Found size (b ∷ bs) f
Found-cons size b bs f g e (here before after split_at joined free fits) =
    here (b ∷ before) after (ground arith) (ground arith) (ground arith) (ground arith)

pub first_fit-Found :
    (size : ℕ) (bs : List Block) (f : Fit) → first_fit size bs ≡ some f → Found size bs f
unfolding first_fit
first_fit-Found size [] f e = cc
first_fit-Found size (b ∷ bs) f e = elim (Bool-cases (b.free && leb size b.size)) [
  | inl hit ↦ here [] bs (ground arith) (ground arith) (ground arith) (ground arith)
  | inr miss ↦ elim (Option-cases (first_fit size bs)) [
    | inl none_left ↦ absurd (ground arith)
    | inr (g, found) ↦ Found-cons size b bs f g (ground arith) (first_fit-Found size bs g found)
  ]
]

-- No free block has room for `size` bytes.
abbrev pub NoFit : ℕ → List Block → Type 0
NoFit size [] = Unit {0}
NoFit size (b ∷ bs) = (b.free && leb size b.size ≡ false) × NoFit size bs

pub first_fit-none : (size : ℕ) (bs : List Block) → first_fit size bs ≡ none → NoFit size bs
unfolding first_fit
first_fit-none size [] e = tt
first_fit-none size (b ∷ bs) e = elim (Option-cases (first_fit size bs)) [
  | inl left ↦ (ground arith, first_fit-none size bs left)
  | inr (g, found) ↦ absurd (ground arith)
]

-- The tiling of a chain, cut at one of its blocks.
pub Tiles-append :
    (a : ℕ) (xs ys : List Block) (e : ℕ)
    → Tiles a (xs ++ ys) e
    → (m : ℕ) × Tiles a xs m × Tiles m ys e
Tiles-append a [] ys e t = (a, refl, t)
Tiles-append a (x ∷ xs) ys e t =
    let (m, l, r) = Tiles-append (a + header_size + x.size) xs ys e t.2 in (m, (t.0, t.1, l), r)

pub append-Tiles :
    (a : ℕ) (xs ys : List Block) (m e : ℕ) → Tiles a xs m → Tiles m ys e → Tiles a (xs ++ ys) e
append-Tiles a [] ys m e l r = rw l r
append-Tiles a (x ∷ xs) ys m e l r =
    (l.0, l.1, append-Tiles (a + header_size + x.size) xs ys m e l.2 r)

-- The size of the used block at a header address.
unfoldable pub live_size : ℕ → List Block → Option ℕ
live_size x [] = none
live_size x (b ∷ bs) =
    let rest = live_size x bs in if b.addr == x && not b.free then some b.size else rest

-- No used block of a tiling lies outside its interval.
pub live_size-outside :
    (x a : ℕ) (bs : List Block) (e : ℕ) → Tiles a bs e → (x < a) ⊎ (e ≤ x) → live_size x bs ≡ none
unfolding live_size
live_size-outside x a [] e t out = refl
live_size-outside x a (b ∷ bs) e t out = ground (
  arith,
  live_size-outside x (a + header_size + b.size) bs e t.2
      (elim out [ inl h ↦ inl (omega arith) | inr h ↦ inr h ]),
  Tiles-le (a + header_size + b.size) bs e t.2,
)
