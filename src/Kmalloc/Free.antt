-- ===== src/Kmalloc/Free.antt =====
-- `kfree`: what it does to a heap in one piece, and to one with a gap.
use archarch.Base.{
  ℕ, ◌+◌, ◌^◌, ◌≤◌, ◌<◌, ◌≡◌, ◌≢◌, refl, ap, ◌∙◌, arith, true, ◌==◌, ==_ne, if◌then◌else◌, none,
  some, List, [], ◌∷◌, Bool-cases, Option-cases, inl, inr,
}
use archarch.Base.Word.{add64, sub64}
use archarch.Kmalloc.{
  Block, Heap, header_size, find_block, merge_next, merge_prev, release, kfree, free_block,
}
use archarch.Kmalloc.Tiles.{Tiles, Tiles-le, live_size, live_size-outside}

module _ (e : ℕ) (top : e < 2 ^ 64) where
  merge_next-Tiles :
      (a : ℕ) (b : Block) (bs : List Block) → Tiles a (b ∷ bs) e → Tiles a (merge_next b bs) e
  unfolding merge_next
  merge_next-Tiles a b [] t = t
  merge_next-Tiles a b (n ∷ ns) t = elim (Bool-cases n.free) [
    | inl free ↦
        let last : a + header_size + b.size + header_size + n.size ≤ e =
          Tiles-le (a + header_size + b.size + header_size + n.size) ns e t.2.2 in
        let end : a + header_size + add64 b.size (add64 header_size n.size)
            ≡ a + header_size + b.size + header_size + n.size =
          omega arith in
        rw free (t.0, omega arith, rw end t.2.2)
    | inr used ↦ rw used t
  ]

  release-Tiles : (a p : ℕ) (bs : List Block) → Tiles a bs e → Tiles a (release p bs) e
  unfolding release
  release-Tiles a p [] t = t
  release-Tiles a p (b ∷ bs) t = elim (Bool-cases (b.addr == p)) [
    | inl found ↦ rw found (merge_next-Tiles a (record b { free = true }) bs t)
    | inr other ↦ rw other (t.0, t.1, release-Tiles (a + header_size + b.size) p bs t.2)
  ]

  merge_prev-Tiles : (a p : ℕ) (bs : List Block) → Tiles a bs e → Tiles a (merge_prev p bs) e
  unfolding merge_prev
  merge_prev-Tiles a p [] t = t
  merge_prev-Tiles a p (b ∷ []) t = t
  merge_prev-Tiles a p (b ∷ n ∷ ns) t = elim (Bool-cases (n.addr == p)) [
    | inr other ↦ rw other (t.0, t.1, merge_prev-Tiles (a + header_size + b.size) p (n ∷ ns) t.2)
    | inl found ↦ elim (Bool-cases b.free) [
      | inr used ↦ rw (found, used) t
      | inl free ↦
          let last : a + header_size + b.size + header_size + n.size ≤ e =
            Tiles-le (a + header_size + b.size + header_size + n.size) ns e t.2.2 in
          let end : a + header_size + add64 b.size (add64 header_size n.size)
              ≡ a + header_size + b.size + header_size + n.size =
            omega arith in
          rw (found, free) (t.0, omega arith, rw end t.2.2)
    ]
  ]

  live_size-release :
      (a p x : ℕ) (bs : List Block)
      → Tiles a bs e
      → live_size x (release p bs) ≡ (if p == x then none else live_size x bs)
  unfolding release merge_next live_size
  live_size-release a p x [] t = ground arith
  live_size-release a p x (b ∷ []) t = ground arith
  live_size-release a p x (b ∷ n ∷ ns) t = ground (
    arith,
    live_size-release (a + header_size + b.size) p x (n ∷ ns) t.2,
    live_size-outside x (a + header_size + b.size + header_size + n.size) ns e t.2.2,
  )

live_size-merge_prev :
    (p x : ℕ) (bs : List Block)
    → live_size p bs ≡ none
    → live_size x (merge_prev p bs) ≡ live_size x bs
unfolding merge_prev live_size
live_size-merge_prev p x [] dead = refl
live_size-merge_prev p x (b ∷ []) dead = refl
live_size-merge_prev p x (b ∷ n ∷ ns) dead = ground (arith, live_size-merge_prev p x (n ∷ ns))

find_block_of_live : (p s : ℕ) (bs : List Block) → live_size p bs ≡ some s → find_block p bs ≢ none
unfolding live_size find_block
find_block_of_live p s [] live = ground arith
find_block_of_live p s (b ∷ bs) live = ground (arith, find_block_of_live p s bs)

pub free_block-blocks :
    (h : Heap) (a : ℕ) (b : Block)
    → find_block a h.blocks ≡ some b
    → (free_block a h).blocks ≡ merge_prev a (release a h.blocks)
unfolding free_block
free_block-blocks h a b found = ground arith

free_block_lem :
    (h : Heap) (a e block size : ℕ)
    → e < 2 ^ 64
    → Tiles a h.blocks e
    → live_size block h.blocks ≡ some size
    → let h' = free_block block h in
      Tiles a h'.blocks e
      × ((x : ℕ) → live_size x h'.blocks ≡ (if block == x then none else live_size x h.blocks))
free_block_lem h a e block size top t live = elim (Option-cases (find_block block h.blocks)) [
  | inl missing ↦ absurd (find_block_of_live block size h.blocks live missing)
  | inr (b, found) ↦
      let gone : live_size block (release block h.blocks) ≡ none =
        ground (arith, live_size-release e top a block block h.blocks t) in
      rw (free_block-blocks h block b found) (
        merge_prev-Tiles e top a block (release block h.blocks)
            (release-Tiles e top a block h.blocks t),
        λ x.
            live_size-merge_prev block x (release block h.blocks) gone
            ∙ live_size-release e top a block x h.blocks t,
      )
]

pub kfree-free_block :
    (h : Heap) (block : ℕ)
    → block + header_size < 2 ^ 64
    → kfree (block + header_size) h ≡ free_block block h
unfolding kfree
kfree-free_block h block fits =
    let back : sub64 (block + header_size) header_size ≡ block = omega arith in
    rw (==_ne (block + header_size) 0 (omega arith)) (ap (λ a. free_block a h) back)

-- In a heap in one piece below the top of the address space, `kfree` of a pointer into a used block takes exactly that block out of
-- use. After it has merged the block with its neighbours, the blocks tile the heap as before.
pub kfree_lem :
    (h : Heap) (a e block size : ℕ)
    → e < 2 ^ 64
    → Tiles a h.blocks e
    → block + header_size < 2 ^ 64
    → live_size block h.blocks ≡ some size
    → let h' = kfree (block + header_size) h in
      Tiles a h'.blocks e
      × ((x : ℕ) → live_size x h'.blocks ≡ (if block == x then none else live_size x h.blocks))
kfree_lem h a e block size top t fits live =
    rw (kfree-free_block h block fits) (free_block_lem h a e block size top t live)
