-- ===== src/Kmalloc/Gap.antt =====
-- `kfree` beside a gap in the heap.
use archarch.Base.{
  ℕ, ◌+◌, ◌^◌, ◌<◌, ◌≡◌, ◌≢◌, refl, ap, ◌∙◌, arith, true, false, ◌==◌, ==_ne, some, List, [], ◌∷◌,
  ◌++◌,
}
use archarch.Base.Word.{add64}
use archarch.Kmalloc.{Block, Heap, header_size, find_block, merge_next, merge_prev, release, kfree}
use archarch.Kmalloc.Free.{free_block-blocks, kfree-free_block}

-- No block is at `a`.
abbrev pub Elsewhere : ℕ → List Block → Type 0
Elsewhere a [] = Unit {0}
Elsewhere a (b ∷ bs) = (b.addr ≢ a) × Elsewhere a bs

-- No block is at `a`, and the last one is in use.
abbrev pub EndsUsed : ℕ → List Block → Type 0
EndsUsed a [] = Unit {0}
EndsUsed a (b ∷ []) = (b.addr ≢ a) × (b.free ≡ false)
EndsUsed a (b ∷ c ∷ bs) = (b.addr ≢ a) × EndsUsed a (c ∷ bs)

EndsUsed-Elsewhere : (a : ℕ) (bs : List Block) → EndsUsed a bs → Elsewhere a bs
EndsUsed-Elsewhere a [] e = tt
EndsUsed-Elsewhere a (b ∷ []) e = (e.0, tt)
EndsUsed-Elsewhere a (b ∷ c ∷ bs) e = (e.0, EndsUsed-Elsewhere a (c ∷ bs) e.1)

merge_prev-Elsewhere :
    (a : ℕ) (b : Block) (bs : List Block) → Elsewhere a bs → merge_prev a (b ∷ bs) ≡ b ∷ bs
unfolding merge_prev
merge_prev-Elsewhere a b [] e = refl
merge_prev-Elsewhere a b (c ∷ bs) e =
    rw (==_ne c.addr a e.0) (ap (λ r. b ∷ r) (merge_prev-Elsewhere a c bs e.1))

-- The block at `b.addr`, with `pre` before it and `post` behind it.
module _ (b : Block) (post : List Block) where
  merge_prev-EndsUsed :
      (pre : List Block)
      → EndsUsed b.addr pre
      → Elsewhere b.addr post
      → merge_prev b.addr (pre ++ (b ∷ post)) ≡ pre ++ (b ∷ post)
  unfolding merge_prev
  merge_prev-EndsUsed [] e e' = merge_prev-Elsewhere b.addr b post e'
  merge_prev-EndsUsed (p ∷ []) e e' = ground (arith, e.1)
  merge_prev-EndsUsed (p ∷ q ∷ pre) e e' =
      let other : (q.addr == b.addr) ≡ false =
        ==_ne q.addr b.addr (EndsUsed-Elsewhere b.addr (q ∷ pre) e.1).0 in
      rw other (ap (λ r. p ∷ r) (merge_prev-EndsUsed (q ∷ pre) e.1 e'))

  release-Elsewhere :
      (pre : List Block)
      → Elsewhere b.addr pre
      → release b.addr (pre ++ (b ∷ post)) ≡ pre ++ merge_next (record b { free = true }) post
  unfolding release
  release-Elsewhere [] e = ground arith
  release-Elsewhere (p ∷ pre) e =
      rw (==_ne p.addr b.addr e.0) (ap (λ r. p ∷ r) (release-Elsewhere pre e.1))

  find_block-Elsewhere :
      (pre : List Block) → Elsewhere b.addr pre → find_block b.addr (pre ++ (b ∷ post)) ≡ some b
  unfolding find_block
  find_block-Elsewhere [] e = ground arith
  find_block-Elsewhere (p ∷ pre) e = rw (==_ne p.addr b.addr e.0) (find_block-Elsewhere pre e.1)

-- Two neighbours `b` and `n` anywhere in the chain that do not touch in memory and end below the
-- top of the address space, with the block before them, if there is one, in use, and no other block
-- at the address of `b`: `kfree` of `b` takes in a free `n` all the same. The block that results
-- claims the bytes behind the end of `b`, up to the size of `n`, which may belong to no block of
-- the heap; the rest of the chain stays.
pub kfree_bridges_gap :
    (h : Heap) (pre post : List Block) (b n : Block)
    → h.blocks ≡ pre ++ (b ∷ n ∷ post)
    → EndsUsed b.addr pre
    → Elsewhere b.addr post
    → b.addr + header_size + b.size < n.addr
    → n.addr + header_size + n.size < 2 ^ 64
    → n.free ≡ true
    → (kfree (b.addr + header_size) h).blocks
      ≡ pre ++ (record { addr = b.addr; size = b.size + header_size + n.size; free = true } ∷ post)
unfolding merge_next
kfree_bridges_gap h pre post b n chain before behind gap top free =
    let one : Block = record { addr = b.addr; size = b.size + header_size + n.size; free = true } in
    let before' = EndsUsed-Elsewhere b.addr pre before in
    let found : find_block b.addr h.blocks ≡ some b =
      rw chain (find_block-Elsewhere b (n ∷ post) pre before') in
    let size : add64 b.size (add64 header_size n.size) ≡ b.size + header_size + n.size =
      omega arith in
    let merged : release b.addr h.blocks ≡ pre ++ (one ∷ post) =
      rw chain (release-Elsewhere b (n ∷ post) pre before' ∙ rw (free, size) refl) in
    rw (kfree-free_block h b.addr (omega arith)) (
      free_block-blocks h b.addr b found
      ∙ rw merged (merge_prev-EndsUsed one post pre before behind))
