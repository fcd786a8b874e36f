-- ===== src/Virtqueue.antt =====
-- The split virtqueue: virtqueue.c and virtqueue.h. The ring memory of a queue's slot stands in the
-- queue's record, since `virtqueue_init` never gives a slot out twice.
pub mod Chains
pub mod Laws
mod Tests
use archarch.Base.{
  ℕ, zero, suc, ◌+◌, ◌-◌, ◌*◌, ◌/◌, ◌%◌, ◌^◌, ◌≡◌, Bool, true, false, not, ◌==◌, leb, ltb,
  if◌then◌else◌, Option, none, some, List, [], ◌∷◌, upd, ◌≤◌,
}
use archarch.Base.Word.{add16}
use archarch.Kmalloc.{virt_to_phys}

pub record Desc : Type 0 where
  pub addr : ℕ
  pub len : ℕ
  pub flags : ℕ
  pub next : ℕ

pub record Virtqueue : Type 0 where
  pub slot : ℕ
  pub desc : ℕ → Desc
  pub avail_ring : ℕ → ℕ
  pub avail_ring_idx : ℕ
  pub used_ring : ℕ → ℕ × ℕ
  pub used_ring_idx : ℕ
  pub num : ℕ
  pub free_head : ℕ
  pub last_used_idx : ℕ
  pub avail_idx : ℕ
  pub queue_index : ℕ
  pub notify_addr : ℕ

-- A buffer of a chain: the kernel's address of it, its length and flags.
pub record VqBuf : Type 0 where
  pub addr : ℕ
  pub len : ℕ
  pub flags : ℕ

abbrev pub virtq_max_size : ℕ
virtq_max_size = 256

abbrev pub virtq_max_queues : ℕ
virtq_max_queues = 16

-- The index that ends the free list.
abbrev pub no_desc : ℕ
no_desc = 0xFFFF

-- `flags & VRING_DESC_F_NEXT` and `flags | VRING_DESC_F_NEXT`, whose value is 1.
abbrev pub has_next : ℕ → Bool
has_next flags = flags % 2 == 1

abbrev pub with_next : ℕ → ℕ
with_next flags = flags / 2 * 2 + 1

-- Entries from the `i`-th on, each of which names the next.
unfoldable pub link_from : ℕ → ℕ → (ℕ → Desc) → ℕ → Desc
link_from zero i d = d
link_from (suc n) i d =
    link_from n (i + 1) (upd d i (record { addr = 0; len = 0; flags = 0; next = (i + 1) % 2 ^ 16 }))

-- With no entry at all the source writes the end mark in front of the table; `num` is not 0 here.
unfoldable pub build_free_list : ℕ → (ℕ → Desc) → ℕ → Desc
unfolding link_from
build_free_list num d =
    let d' = link_from num 0 d in upd d' (num - 1) (record (d' (num - 1)) { next = no_desc })

-- `next_queue_slot` comes first and goes on.
unfoldable pub virtqueue_init :
    (next_slot num queue_index notify_addr : ℕ) → Virtqueue → ℕ × Virtqueue
unfolding build_free_list
virtqueue_init next_slot num queue_index notify_addr vq =
    let n = if ltb virtq_max_size num then virtq_max_size else num in
    if leb virtq_max_queues next_slot then (next_slot, vq) else (
      next_slot + 1,
      record vq {
        slot = next_slot;
        desc = build_free_list n vq.desc;
        avail_ring_idx = 0;
        used_ring_idx = 0;
        num = n;
        free_head = 0;
        last_used_idx = 0;
        avail_idx = 0;
        queue_index = queue_index;
        notify_addr = notify_addr;
      },
    )

-- The first loop of `virtqueue_add_chain`.
unfoldable pub enough : List VqBuf → ℕ → (ℕ → Desc) → Bool
enough [] idx d = true
enough (b ∷ []) idx d = not (idx == no_desc)
enough (b ∷ c ∷ bs) idx d =
    let rest = enough (c ∷ bs) ((d idx).next) d in if idx == no_desc then false else rest

-- The second loop: the descriptors, and the free list that is left.
unfoldable pub fill_chain : List VqBuf → ℕ → (ℕ → Desc) → ℕ → (ℕ → Desc) × ℕ
fill_chain [] idx d free_head = (d, free_head)
fill_chain (b ∷ []) idx d free_head = (
  upd d idx (record { addr = virt_to_phys b.addr; len = b.len; flags = b.flags; next = 0 }),
  (d idx).next,
)
fill_chain (b ∷ c ∷ bs) idx d free_head =
    fill_chain (c ∷ bs) ((d idx).next)
      (upd d idx (record {
        addr = virt_to_phys b.addr;
        len = b.len;
        flags = with_next b.flags;
        next = (d idx).next;
      }))
      free_head

-- The head of the chain, or `no_desc`.
unfoldable pub virtqueue_add_chain : List VqBuf → Virtqueue → ℕ × Virtqueue
virtqueue_add_chain bufs vq =
    let head = vq.free_head in
    let filled = fill_chain bufs head vq.desc vq.free_head in
    if enough bufs head vq.desc
    then (
      head,
      record vq {
        desc = filled.0;
        free_head = filled.1;
        avail_ring = upd vq.avail_ring (vq.avail_idx % vq.num) head;
        avail_idx = add16 vq.avail_idx 1;
        avail_ring_idx = add16 vq.avail_idx 1;
      },
    )
    else (no_desc, vq)

-- VRING_DESC_F_WRITE is 2.
unfoldable pub virtqueue_add_buf_write : (buf len : ℕ) → Virtqueue → ℕ × Virtqueue
virtqueue_add_buf_write buf len vq =
    virtqueue_add_chain (record { addr = buf; len = len; flags = 2 } ∷ []) vq

-- The walk along a chain that came back; `none` when the rounds do not reach its end.
unfoldable pub free_chain : ℕ → ℕ → (ℕ → Desc) → ℕ → Option ((ℕ → Desc) × ℕ)
free_chain zero cur d free_head = none
free_chain (suc n) cur d free_head =
    let d' : ℕ → Desc = upd d cur (record (d cur) { next = free_head }) in
    let rest = free_chain n ((d cur).next) d' cur in
    if has_next (d cur).flags then rest else some (d', cur)

-- What `virtqueue_get_used` gives: nothing used yet, the head and length of a chain, or a walk that
-- goes on for more rounds than the queue has entries.
pub data Used : Type 0 where
  nothing : Used
  got : (idx len : ℕ) → Virtqueue → Used
  endless : Used

unfoldable pub virtqueue_get_used : Virtqueue → Used
virtqueue_get_used vq =
    let (id, len) = vq.used_ring (vq.last_used_idx % vq.num) in
    let head = id % 2 ^ 16 in
    let walked : Used = elim (free_chain vq.num head vq.desc vq.free_head) [
      | none ↦ endless
      | some (d, free_head) ↦
          got head len (record vq {
            desc = d;
            free_head = free_head;
            last_used_idx = add16 vq.last_used_idx 1;
          })
    ] in
    if vq.last_used_idx == vq.used_ring_idx then nothing else walked
