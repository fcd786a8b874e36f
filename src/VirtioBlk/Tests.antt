-- ===== src/VirtioBlk/Tests.antt =====
-- A request on a queue of four entries that the device serves at once, and one that it leaves.
use archarch.Base.{
  ℕ, zero, suc, ap, ◌+◌, ◌≡◌, refl, arith, ◌==◌, if◌then◌else◌, [], ◌∷◌, upd, minus_one,
}
use archarch.Kmalloc.{kern_va_offset}
use archarch.Virtqueue.{virtqueue_add_chain, enough, Desc, no_desc}
use archarch.Virtqueue.Chains.{FreeList, Distinct}
use archarch.VirtioBlk.{request_chain, Blk, ended, timeout, blk_do_request}
use archarch.VirtioBlk.Serving.{
  LeavesDriver, IsSilent, Reports, Served, run, started, blk_do_request-Served,
  blk_do_request_times_out,
}

abbrev four : ℕ → Desc
four i = record { addr = 0; len = 0; flags = 0; next = if i == 3 then no_desc else i + 1 }

abbrev idle : Blk
idle = record {
  vq = record {
    slot = 0;
    desc = four;
    avail_ring = λ i. 0;
    avail_ring_idx = 0;
    used_ring = λ i. (0, 0);
    used_ring_idx = 0;
    num = 4;
    free_head = 0;
    last_used_idx = 0;
    avail_idx = 0;
    queue_index = 0;
    notify_addr = 0x3000;
  };
  mem = λ a. 0;
}

abbrev hdr : ℕ
hdr = kern_va_offset + 0x40200000

abbrev status : ℕ
status = kern_va_offset + 0x40200010

-- It reports descriptor 0 and puts 0 into the status byte.
abbrev prompt : Blk → Blk
prompt s = record s {
  vq = record s.vq { used_ring = upd s.vq.used_ring 0 (0, 513); used_ring_idx = 1 };
  mem = upd s.mem status 0;
}

prompt-LeavesDriver : LeavesDriver prompt
prompt-LeavesDriver = record {
  desc = λ s. refl;
  free_head = λ s. refl;
  last_used_idx = λ s. refl;
  num = λ s. refl;
}

four_free : FreeList four 0 (0 ∷ 1 ∷ 2 ∷ 3 ∷ [])
four_free = ground arith

four_Distinct : Distinct (0 ∷ 1 ∷ 2 ∷ 3 ∷ [])
four_Distinct = ground arith

prompt-Reports : Reports prompt 0 (run prompt 0 (started hdr status 0 7 0x5000 512 idle))
unfolding run virtqueue_add_chain request_chain enough
prompt-Reports = record { fresh = omega arith; id = refl }

-- A device that does nothing.
abbrev still : Blk → Blk
still s = s

still-LeavesDriver : LeavesDriver still
still-LeavesDriver = record {
  desc = λ s. refl;
  free_head = λ s. refl;
  last_used_idx = λ s. refl;
  num = λ s. refl;
}

run-still : (n : ℕ) (s : Blk) → run still n s ≡ s
unfolding run
run-still zero s = refl
run-still (suc n) s = run-still n s

still-IsSilent : (n : ℕ) → IsSilent still n (started hdr status 0 7 0x5000 512 idle)
unfolding run virtqueue_add_chain request_chain enough
still-IsSilent n j h =
    ap (λ s. s.vq.used_ring_idx) (run-still j (started hdr status 0 7 0x5000 512 idle))

blk_do_request-Served_example :
    Served status
      (0 ∷ 1 ∷ 2 ∷ 3 ∷ [])
      (prompt (run prompt 0 (started hdr status 0 7 0x5000 512 idle)))
      (blk_do_request hdr status prompt 0 7 0x5000 512 idle)
blk_do_request-Served_example =
    blk_do_request-Served hdr status prompt prompt-LeavesDriver 0 7 0x5000 512 idle
      (0 ∷ 1 ∷ 2 ∷ 3 ∷ []) four_free four_Distinct (omega arith) 0 (omega arith) (omega arith)
      (omega arith) (λ j h. absurd (omega arith)) prompt-Reports

blk_do_request_times_out_example :
    let s' = run still timeout (started hdr status 0 7 0x5000 512 idle) in
    (blk_do_request hdr status still 0 7 0x5000 512 idle ≡ ended minus_one s')
    × FreeList s'.vq.desc s'.vq.free_head (3 ∷ [])
blk_do_request_times_out_example =
    blk_do_request_times_out hdr status still still-LeavesDriver 0 7 0x5000 512 idle
      (0 ∷ 1 ∷ 2 ∷ 3 ∷ []) four_free four_Distinct (omega arith) (still-IsSilent timeout)
