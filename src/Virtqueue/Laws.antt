-- ===== src/Virtqueue/Laws.antt =====
-- What the calls of virtqueue.c do to the free list, as a list of descriptor indices.
use native.Mathlib.Decide.{ℕ_discrete}
use mathlib.Core.Path.{subst}
use archarch.Base.{
  ℕ, zero, suc, ◌+◌, ◌-◌, ◌%◌, ◌^◌, ◌≤◌, ◌<◌, ◌≡◌, ◌≢◌, refl, sym, ap, ◌∙◌, arith, false, ◌&&◌,
  ◌==◌, ==_ne, leb, ltb, if◌then◌else◌, Bool-cases, List, [], ◌∷◌, upd, length, length-take, take,
  drop, ◌⊎◌, inl, inr,
}
use archarch.Base.Word.{add16}
use archarch.Virtqueue.{
  Desc, VqBuf, Virtqueue, no_desc, virtq_max_size, virtq_max_queues, link_from, build_free_list,
  virtqueue_init, virtqueue_add_chain, Used, got, virtqueue_get_used,
}
use archarch.Virtqueue.Chains.{
  Fresh, Distinct, FreeList, Chain, Apart, AllEven, FilledTo, enough-length, fill_chain_lem,
  give_back, free_chain_lem, Fresh-take,
}

-- A chain of `n` was added: its head is the one that was free first, it stands in the next slot of
-- the available ring, and the counter is one on.
abbrev pub Added : ℕ → List ℕ → Virtqueue → ℕ × Virtqueue → Type 0
Added n xs vq (head, vq') =
    (head ≡ vq.free_head)
    × FilledTo n xs vq.desc head (vq'.desc, vq'.free_head)
    × (vq'.avail_ring ≡ upd vq.avail_ring (vq.avail_idx % vq.num) head)
    × (vq'.avail_ring_idx ≡ add16 vq.avail_idx 1)

-- Of a free list without doubles, `virtqueue_add_chain` of one buffer or more, none of which asks
-- for a next one itself, takes the first descriptors as a chain that ends behind the last buffer,
-- leaves the others free, and puts the head on the available ring. With too few free descriptors it
-- returns 0xFFFF and changes nothing.
pub virtqueue_add_chain_lem :
    (b : VqBuf) (bs : List VqBuf) (vq : Virtqueue) (xs : List ℕ)
    → AllEven (b ∷ bs)
    → FreeList vq.desc vq.free_head xs
    → Distinct xs
    → ((length (b ∷ bs) ≤ length xs)
        × Added (length (b ∷ bs)) xs vq (virtqueue_add_chain (b ∷ bs) vq))
      ⊎ ((length xs < length (b ∷ bs)) × (virtqueue_add_chain (b ∷ bs) vq ≡ (no_desc, vq)))
unfolding virtqueue_add_chain
virtqueue_add_chain_lem b bs vq xs even l distinct =
    elim (Bool-cases (leb (length (b ∷ bs)) (length xs))) [
      | inl room ↦
          let e = enough-length (b ∷ bs) vq.free_head vq.desc xs l ∙ room in
          let fits : length (b ∷ bs) ≤ length xs = ground arith in
          let filled =
            fill_chain_lem b bs vq.free_head vq.free_head vq.desc xs even l distinct fits in
          rw (e, virtqueue_add_chain) (inl (fits, (refl, filled, refl, refl)))
      | inr full ↦
          let e = enough-length (b ∷ bs) vq.free_head vq.desc xs l ∙ full in
          rw (e, virtqueue_add_chain) (inr (ground arith, refl))
    ]

-- A chain came back.
abbrev pub GivenBack : ℕ → List ℕ → List ℕ → Virtqueue → Used → Type 0
GivenBack head cs xs vq (got idx len vq') =
    (idx ≡ head)
    × FreeList vq'.desc vq'.free_head (give_back cs xs)
    × (vq'.last_used_idx ≡ add16 vq.last_used_idx 1)
GivenBack head cs xs vq _ = ⊥

-- When the device reports the head of a chain that has no more descriptors than the queue, none of
-- them twice or free, `virtqueue_get_used` ends, gives that head, puts every descriptor of the
-- chain on the free list, and leaves those on it that were there.
pub virtqueue_get_used_lem :
    (vq : Virtqueue) (head : ℕ) (cs xs : List ℕ)
    → vq.last_used_idx ≢ vq.used_ring_idx
    → (vq.used_ring (vq.last_used_idx % vq.num)).0 ≡ head
    → head < 2 ^ 16
    → length cs ≤ vq.num
    → Chain vq.desc head cs
    → Distinct cs
    → Apart cs xs
    → FreeList vq.desc vq.free_head xs
    → GivenBack head cs xs vq (virtqueue_get_used vq)
unfolding virtqueue_get_used
virtqueue_get_used_lem vq head cs xs fresh reported small few chain distinct apart l =
    let (d', h, e, l') =
      free_chain_lem vq.num head vq.free_head vq.desc cs xs few chain distinct apart l in
    let same : (vq.used_ring (vq.last_used_idx % vq.num)).0 % 2 ^ 16 ≡ head =
      omega (arith, reported) in
    rw (==_ne _ _ fresh, same, e) (same, l', refl)

take-Distinct : (n : ℕ) (xs : List ℕ) → Distinct xs → Distinct (take n xs)
take-Distinct zero xs distinct = tt
take-Distinct (suc n) [] distinct = tt
take-Distinct (suc n) (x ∷ xs) (fresh, distinct) =
    (Fresh-take n x xs fresh, take-Distinct n xs distinct)

Fresh-drop : (n i : ℕ) (xs : List ℕ) → Fresh i xs → Fresh i (drop n xs)
Fresh-drop zero i xs fresh = fresh
Fresh-drop (suc n) i [] fresh = tt
Fresh-drop (suc n) i (x ∷ xs) (ne, fresh) = Fresh-drop n i xs fresh

take-Apart :
    (n h : ℕ) (d : ℕ → Desc) (xs : List ℕ)
    → FreeList d h xs
    → Distinct xs
    → Apart (take n xs) (drop n xs)
take-Apart zero h d xs l distinct = tt
take-Apart (suc n) h d [] l distinct = tt
take-Apart (suc n) h d (x ∷ xs) (is, inside, l) (fresh, distinct) =
    (inside, Fresh-drop n x xs fresh, take-Apart n (d x).next d xs l distinct)

-- A chain that `virtqueue_add_chain` took comes back whole: once the device has reported its head,
-- and with nothing else done to the queue, `virtqueue_get_used` leaves free the descriptors that
-- were free at the start, those of the chain first.
pub virtqueue_get_used-virtqueue_add_chain :
    (b : VqBuf) (bs : List VqBuf) (vq vq2 : Virtqueue) (xs : List ℕ)
    → AllEven (b ∷ bs)
    → FreeList vq.desc vq.free_head xs
    → Distinct xs
    → length (b ∷ bs) ≤ length xs
    → length xs ≤ vq2.num
    → vq.free_head < 2 ^ 16
    → vq2.desc ≡ (virtqueue_add_chain (b ∷ bs) vq).1.desc
    → vq2.free_head ≡ (virtqueue_add_chain (b ∷ bs) vq).1.free_head
    → vq2.last_used_idx ≢ vq2.used_ring_idx
    → (vq2.used_ring (vq2.last_used_idx % vq2.num)).0 ≡ (virtqueue_add_chain (b ∷ bs) vq).0
    → let n = length (b ∷ bs) in
      GivenBack vq.free_head (take n xs) (drop n xs) vq2 (virtqueue_get_used vq2)
virtqueue_get_used-virtqueue_add_chain b bs vq vq2 xs even l distinct room holds small descs heads
      fresh reported =
    elim (virtqueue_add_chain_lem b bs vq xs even l distinct) [
      | inr (short, e) ↦ absurd (omega arith)
      | inl (fits, (head, (chain, left, others), ring, count)) ↦
          virtqueue_get_used_lem vq2 vq.free_head (take (length (b ∷ bs)) xs)
            (drop (length (b ∷ bs)) xs) fresh (reported ∙ head) small
            (ground (arith, length-take (length (b ∷ bs)) xs))
            (subst (λ d. Chain d vq.free_head (take (length (b ∷ bs)) xs)) (sym descs)
              (subst
                (λ h. Chain (virtqueue_add_chain (b ∷ bs) vq).1.desc h (take (length (b ∷ bs)) xs))
                head chain))
            (take-Distinct (length (b ∷ bs)) xs distinct)
            (take-Apart (length (b ∷ bs)) vq.free_head vq.desc xs l distinct)
            (subst (λ d. FreeList d vq2.free_head (drop (length (b ∷ bs)) xs)) (sym descs)
              (subst
                (λ h.
                  FreeList (virtqueue_add_chain (b ∷ bs) vq).1.desc h (drop (length (b ∷ bs)) xs))
                (sym heads) left))
    ]

-- `n` indices from `i` on.
abbrev pub count_up : ℕ → ℕ → List ℕ
count_up zero i = []
count_up (suc n) i = i ∷ count_up n (i + 1)

link_from_lem :
    (n i j : ℕ) (d : ℕ → Desc)
    → link_from n i d j ≡ (
        if leb i j && ltb j (i + n)
        then record { addr = 0; len = 0; flags = 0; next = (j + 1) % 2 ^ 16 }
        else d j)
unfolding link_from
link_from_lem zero i j d = ground arith
link_from_lem (suc n) i j d = link_from_lem n (i + 1) j (upd d i (linked i)) ∙ slot
  where
    linked : ℕ → Desc
    linked k = record { addr = 0; len = 0; flags = 0; next = (k + 1) % 2 ^ 16 }

    slot :
        (if leb (i + 1) j && ltb j (i + 1 + n) then linked j else upd d i (linked i) j)
        ≡ (if leb i j && ltb j (i + suc n) then linked j else d j)
    slot = elim (ℕ_discrete i j) [
      | yes same ↦ let e : linked i ≡ linked j = ap linked same in ground (arith, e)
      | no other ↦ ground arith
    ]

count_up-FreeList :
    (m i n : ℕ) (d : ℕ → Desc)
    → i + suc m ≡ n
    → n ≤ virtq_max_size
    → ((j : ℕ) → j < n → (d j).next ≡ (if j == n - 1 then no_desc else j + 1))
    → FreeList d i (count_up (suc m) i)
count_up-FreeList zero i n d e small links =
    (refl, omega arith, links i (omega arith) ∙ ground arith)
count_up-FreeList (suc m) i n d e small links =
    let to_next : (d i).next ≡ i + 1 = links i (omega arith) ∙ ground arith in
    (
      refl,
      omega arith,
      subst (λ h. FreeList d h (count_up (suc m) (i + 1))) (sym to_next)
          (count_up-FreeList m (i + 1) n d (omega arith) small links),
    )

build_free_list-FreeList :
    (num : ℕ) (d : ℕ → Desc)
    → 0 < num
    → num ≤ virtq_max_size
    → FreeList (build_free_list num d) 0 (count_up num 0)
unfolding build_free_list
build_free_list-FreeList zero d some_entries small = absurd (omega arith)
build_free_list-FreeList (suc m) d some_entries small =
    count_up-FreeList m 0 (suc m) (build_free_list (suc m) d) (omega arith) small
      (λ j h. ground (arith, link_from_lem (suc m) 0 j d))

-- `virtqueue_init` of a queue with at least one entry, while a slot is left, makes all of its
-- entries free, in order: as many as were asked for, but at most 256.
pub virtqueue_init-FreeList :
    (next_slot num queue_index notify_addr : ℕ) (vq : Virtqueue)
    → next_slot < virtq_max_queues
    → 0 < num
    → let (next', vq') = virtqueue_init next_slot num queue_index notify_addr vq in
      (next' ≡ next_slot + 1)
      × (vq'.num ≡ (if ltb virtq_max_size num then virtq_max_size else num))
      × FreeList vq'.desc vq'.free_head (count_up vq'.num 0)
unfolding virtqueue_init
virtqueue_init-FreeList next_slot num queue_index notify_addr vq room some_entries =
    let full : leb virtq_max_queues next_slot ≡ false = ground arith in
    elim (Bool-cases (ltb virtq_max_size num)) [
      | inl large ↦
          rw (full, large)
            (
              refl,
              refl,
              build_free_list-FreeList virtq_max_size vq.desc (omega arith) (omega arith),
            )
      | inr fits ↦
          rw (full, fits)
            (refl, refl, build_free_list-FreeList num vq.desc some_entries (ground arith))
    ]
