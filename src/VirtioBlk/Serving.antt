-- ===== src/VirtioBlk/Serving.antt =====
-- Requests to the block device, over the laws of virtqueues.
use archarch.Base.{
  ◌-◌, ℕ, zero, suc, ◌+◌, ◌%◌, ◌^◌, ◌≤◌, ◌<◌, ◌≡◌, ◌≢◌, inl, inr, refl, sym, ap, ◌∙◌, arith, ◌==◌,
  if◌then◌else◌, ==_ne, ==_refl, List, [], ◌∷◌, length, take, drop, pos, minus_one,
}
use archarch.Virtqueue.{
  Desc, VqBuf, Virtqueue, Used, nothing, got, endless, no_desc, virtqueue_add_chain,
  virtqueue_get_used,
}
use archarch.Virtqueue.Chains.{FreeList, Distinct, AllEven, give_back}
use archarch.Virtqueue.Laws.{
  GivenBack, Added, virtqueue_add_chain_lem, virtqueue_get_used-virtqueue_add_chain,
}
use archarch.VirtioBlk.{
  header_len, virtio_blk_t_in, Blk, Requested, ended, hung, timeout, virtio_blk_s_ok, put_header,
  request_chain, finish_request, after_look, poll, blk_do_request,
}

-- The device leaves the driver's part of the queue alone.
pub record LeavesDriver (device : Blk → Blk) : Type 0 where
  pub desc : (s : Blk) → (device s).vq.desc ≡ s.vq.desc
  pub free_head : (s : Blk) → (device s).vq.free_head ≡ s.vq.free_head
  pub last_used_idx : (s : Blk) → (device s).vq.last_used_idx ≡ s.vq.last_used_idx
  pub num : (s : Blk) → (device s).vq.num ≡ s.vq.num

-- The state after `n` steps of the device.
unfoldable pub run : (Blk → Blk) → ℕ → Blk → Blk
run device zero s = s
run device (suc n) s = run device n (device s)

-- In the first `n` steps the device reports nothing.
abbrev pub IsSilent : (Blk → Blk) → ℕ → Blk → Type 0
IsSilent device n s = (j : ℕ) → j < n → (run device (suc j) s).vq.used_ring_idx ≡ s.vq.last_used_idx

-- The next step reports the chain at `head`.
pub record Reports (device : Blk → Blk) (head : ℕ) (s : Blk) : Type 0 where
  pub fresh : (device s).vq.used_ring_idx ≢ s.vq.last_used_idx
  pub id : ((device s).vq.used_ring (s.vq.last_used_idx % s.vq.num)).0 ≡ head

-- The request, once its chain is in the queue.
abbrev pub started : (hdr status type sector buf len : ℕ) → Blk → Blk
started hdr status type sector buf len s = record {
  vq = (virtqueue_add_chain (request_chain hdr status type buf len) s.vq).1;
  mem = put_header hdr status type sector s.mem;
}

-- The requests' end when it is served: by what the status byte says, with the chain's descriptors
-- back on the free list.
abbrev pub Served : (status : ℕ) (xs : List ℕ) (after : Blk) → Requested → Type 0
Served status xs after (ended r s') =
    (r ≡ (if after.mem status == virtio_blk_s_ok then pos 0 else minus_one))
    × (s'.mem ≡ after.mem)
    × FreeList s'.vq.desc s'.vq.free_head (give_back (take 3 xs) (drop 3 xs))
Served status xs after hung = ⊥

unreported :
    (vq : Virtqueue) → vq.last_used_idx ≡ vq.used_ring_idx → virtqueue_get_used vq ≡ nothing
unfolding virtqueue_get_used
unreported vq e = rw (e, ==_refl vq.used_ring_idx) refl

virtqueue_add_chain-num :
    (bufs : List VqBuf) (vq : Virtqueue) → (virtqueue_add_chain bufs vq).1.num ≡ vq.num
unfolding virtqueue_add_chain
virtqueue_add_chain-num bufs vq = ground arith

FreeList-head : (d : ℕ → Desc) (h : ℕ) (xs : List ℕ) → FreeList d h xs → 0 < length xs → h ≢ no_desc
FreeList-head d h [] l positive = absurd (omega arith)
FreeList-head d h (x ∷ xs) (is, ne, l) positive = λ e. ne (sym is ∙ e)

module _ (hdr status : ℕ) (device : Blk → Blk) (quiet : LeavesDriver device) where
  IsSilent-tail : (n : ℕ) (s : Blk) → IsSilent device (suc n) s → IsSilent device n (device s)
  unfolding run
  IsSilent-tail n s silent j h = silent (suc j) (omega arith) ∙ sym (quiet.last_used_idx s)

  -- `k` looks find nothing.
  poll-IsSilent :
      (k n t : ℕ) (s : Blk)
      → k + n ≡ t
      → IsSilent device k s
      → poll hdr status device t s ≡ poll hdr status device n (run device k s)
  unfolding poll run after_look
  poll-IsSilent zero n t s sum silent =
      let e : t ≡ n = omega arith in ap (λ i. poll hdr status device i s) e
  poll-IsSilent (suc k) n zero s sum silent = absurd (omega arith)
  poll-IsSilent (suc k) n (suc t) s sum silent =
      let none_yet : (device s).vq.last_used_idx ≡ (device s).vq.used_ring_idx =
        quiet.last_used_idx s ∙ sym (silent 0 (omega arith)) in
      rw (unreported (device s).vq none_yet, poll)
        (poll-IsSilent k n t (device s) (omega arith) (IsSilent-tail k s silent))

  run_desc : (k : ℕ) (s : Blk) → (run device k s).vq.desc ≡ s.vq.desc
  unfolding run
  run_desc zero s = refl
  run_desc (suc k) s = run_desc k (device s) ∙ quiet.desc s

  run_free_head : (k : ℕ) (s : Blk) → (run device k s).vq.free_head ≡ s.vq.free_head
  unfolding run
  run_free_head zero s = refl
  run_free_head (suc k) s = run_free_head k (device s) ∙ quiet.free_head s

  run_num : (k : ℕ) (s : Blk) → (run device k s).vq.num ≡ s.vq.num
  unfolding run
  run_num zero s = refl
  run_num (suc k) s = run_num k (device s) ∙ quiet.num s

  after_look-Served :
      (xs : List ℕ) (h : ℕ) (s : Blk) (u : Used) (rest : Requested)
      → GivenBack h (take 3 xs) (drop 3 xs) s.vq u
      → Served status xs s (after_look hdr status u s rest)
  unfolding after_look finish_request
  after_look-Served xs h s nothing rest g = absurd g
  after_look-Served xs h s (got idx len vq) rest g = (refl, refl, g.1)
  after_look-Served xs h s endless rest g = absurd g

  poll-Served :
      (k t : ℕ) (s1 : Blk) (xs : List ℕ) (h : ℕ)
      → k < t
      → IsSilent device k s1
      → let s2 = device (run device k s1) in
        GivenBack h (take 3 xs) (drop 3 xs) s2.vq (virtqueue_get_used s2.vq)
        → Served status xs s2 (poll hdr status device t s1)
  unfolding poll
  poll-Served k t s1 xs h less silent back =
      rw (poll-IsSilent k (suc (t - suc k)) t s1 (omega arith) silent)
        (after_look-Served xs h (device (run device k s1)) _ _ back)

  module _ (type sector buf len : ℕ) (s : Blk) (xs : List ℕ)
      (free : FreeList s.vq.desc s.vq.free_head xs) (distinct : Distinct xs)
      (room : 3 ≤ length xs) where
    abbrev put_in : Blk
    put_in = started hdr status type sector buf len s

    abbrev request_head : VqBuf
    request_head = record { addr = hdr; len = header_len; flags = 0 }

    abbrev request_rest : List VqBuf
    request_rest =
        record { addr = buf; len = len; flags = if type == virtio_blk_t_in then 2 else 0 }
        ∷ record { addr = status; len = 1; flags = 2 }
        ∷ []

    chain-AllEven : AllEven (request_chain hdr status type buf len)
    unfolding request_chain
    chain-AllEven = (refl, (ground arith, (refl, tt)))

    taken : Added 3 xs s.vq (virtqueue_add_chain (request_chain hdr status type buf len) s.vq)
    unfolding request_chain
    taken =
        elim (virtqueue_add_chain_lem request_head request_rest s.vq xs chain-AllEven free
          distinct) [ inl (fits, added) ↦ added | inr (short, _) ↦ absurd (omega arith) ]

    head_ne : s.vq.free_head ≢ no_desc
    head_ne = FreeList-head s.vq.desc s.vq.free_head xs free (omega arith)

    goes_on :
        blk_do_request hdr status device type sector buf len s
        ≡ poll hdr status device timeout put_in
    unfolding blk_do_request
    goes_on = rw (taken.0, ==_ne s.vq.free_head no_desc head_ne) refl

    same_num : put_in.vq.num ≡ s.vq.num
    same_num = virtqueue_add_chain-num _ s.vq

    -- The device's report is the chain, whole.
    back :
        (k : ℕ)
        → length xs ≤ s.vq.num
        → s.vq.free_head < 2 ^ 16
        → Reports device s.vq.free_head (run device k put_in)
        → let s2 = device (run device k put_in) in
          GivenBack s.vq.free_head (take 3 xs) (drop 3 xs) s2.vq (virtqueue_get_used s2.vq)
    unfolding request_chain
    back k holds small told =
        let s1 = run device k put_in in
        let nums = quiet.num s1 ∙ run_num k put_in ∙ same_num in
        let last = quiet.last_used_idx s1 in
        virtqueue_get_used-virtqueue_add_chain request_head request_rest s.vq (device s1).vq xs
          chain-AllEven free distinct room (omega (arith, holds, nums)) small
          (quiet.desc s1 ∙ run_desc k put_in) (quiet.free_head s1 ∙ run_free_head k put_in)
          (λ e. told.fresh (sym e ∙ last)) (rw (last, quiet.num s1) (told.id ∙ sym (taken.0)))

    -- A request on a queue with three free descriptors or more, which the device reports as used
    -- within the time-out: its result is 0 just when the status byte then is 0, and otherwise -1; the
    -- three descriptors are free again.
    pub blk_do_request-Served :
        (k : ℕ)
        → length xs ≤ s.vq.num
        → s.vq.free_head < 2 ^ 16
        → k < timeout
        → IsSilent device k put_in
        → Reports device s.vq.free_head (run device k put_in)
        → Served status xs
            (device (run device k put_in))
            (blk_do_request hdr status device type sector buf len s)
    blk_do_request-Served k holds small less silent told =
        rw goes_on
          (poll-Served k timeout put_in xs s.vq.free_head less silent (back k holds small told))

    run_out :
        (t : ℕ)
        → IsSilent device t put_in
        → (poll hdr status device t put_in ≡ ended minus_one (run device t put_in))
          × FreeList (run device t put_in).vq.desc (run device t put_in).vq.free_head (drop 3 xs)
    unfolding poll
    run_out t silent = (
      poll-IsSilent t 0 t put_in (omega arith) silent,
      rw (run_desc t put_in, run_free_head t put_in) (taken.1.1),
    )

    -- A request that the device does not report within the time-out returns -1, and its three
    -- descriptors are lost to the queue.
    pub blk_do_request_times_out :
        IsSilent device timeout put_in
        → let s' = run device timeout put_in in
          (blk_do_request hdr status device type sector buf len s ≡ ended minus_one s')
          × FreeList s'.vq.desc s'.vq.free_head (drop 3 xs)
    blk_do_request_times_out silent = let (e, left) = run_out timeout silent in (goes_on ∙ e, left)
