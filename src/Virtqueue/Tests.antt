-- ===== src/Virtqueue/Tests.antt =====
-- Runs of virtqueue.c, and its theorems at a queue of four entries.
use archarch.Base.{ℕ, ◌+◌, ◌≤◌, ◌<◌, ◌≡◌, refl, arith, [], ◌∷◌, upd, if◌then◌else◌, ◌==◌, ◌⊎◌}
use archarch.Kmalloc.{kern_va_offset}
use archarch.Virtqueue.{
  Desc, VqBuf, Virtqueue, no_desc, virtqueue_init, virtqueue_add_chain, virtqueue_get_used,
}
use archarch.Virtqueue.Chains.{FreeList, Distinct}
use archarch.Virtqueue.Laws.{
  Added, GivenBack, count_up, virtqueue_add_chain_lem, virtqueue_get_used-virtqueue_add_chain,
  virtqueue_init-FreeList,
}

abbrev four : ℕ → Desc
four i = record { addr = 0; len = 0; flags = 0; next = if i == 3 then no_desc else i + 1 }

abbrev queue : Virtqueue
queue = record {
  slot = 0;
  desc = four;
  avail_ring = λ i. 0;
  avail_ring_idx = 0;
  used_ring = λ i. (0, 0);
  used_ring_idx = 0;
  num = 4;
  free_head = 0;
  last_used_idx = 0;
  avail_idx = 0;
  queue_index = 0;
  notify_addr = 0x3000;
}

abbrev request : VqBuf
request = record { addr = kern_va_offset + 0x1000; len = 16; flags = 0 }

abbrev answer : VqBuf
answer = record { addr = kern_va_offset + 0x2000; len = 512; flags = 2 }

four_free : FreeList four 0 (0 ∷ 1 ∷ 2 ∷ 3 ∷ [])
four_free = ground arith

four_Distinct : Distinct (0 ∷ 1 ∷ 2 ∷ 3 ∷ [])
four_Distinct = ground arith

virtqueue_add_chain_lem_example :
    ((2 ≤ 4)
      × Added 2 (0 ∷ 1 ∷ 2 ∷ 3 ∷ []) queue (virtqueue_add_chain (request ∷ answer ∷ []) queue))
    ⊎ ((4 < 2) × (virtqueue_add_chain (request ∷ answer ∷ []) queue ≡ (no_desc, queue)))
virtqueue_add_chain_lem_example =
    virtqueue_add_chain_lem request (answer ∷ []) queue (0 ∷ 1 ∷ 2 ∷ 3 ∷ []) (refl, (refl, tt))
      four_free four_Distinct

-- The device has reported a chain of the descriptors 0 and 1.
abbrev reported : Virtqueue
reported = record queue {
  desc = upd four 0 (record { addr = 0x1000; len = 16; flags = 1; next = 1 });
  free_head = 2;
  used_ring = λ i. (0, 512);
  used_ring_idx = 1;
}

-- What the device makes of the queue with the chain on it.
abbrev answered : Virtqueue
answered = record (virtqueue_add_chain (request ∷ answer ∷ []) queue).1 {
  num = 4;
  last_used_idx = 0;
  used_ring = λ i. ((virtqueue_add_chain (request ∷ answer ∷ []) queue).0, 512);
  used_ring_idx = 1;
}

virtqueue_get_used-virtqueue_add_chain_example :
    GivenBack 0 (0 ∷ 1 ∷ []) (2 ∷ 3 ∷ []) answered (virtqueue_get_used answered)
virtqueue_get_used-virtqueue_add_chain_example =
    virtqueue_get_used-virtqueue_add_chain request (answer ∷ []) queue answered (0 ∷ 1 ∷ 2 ∷ 3 ∷ [])
      (refl, (refl, tt)) four_free four_Distinct (omega arith) (omega arith) (omega arith) refl refl
      (omega arith) refl

virtqueue_init-FreeList_example :
    let (next', vq') = virtqueue_init 3 4 0 0x3000 queue in
    (next' ≡ 4) × (vq'.num ≡ 4) × FreeList vq'.desc vq'.free_head (count_up vq'.num 0)
virtqueue_init-FreeList_example =
    virtqueue_init-FreeList 3 4 0 0x3000 queue (omega arith) (omega arith)
