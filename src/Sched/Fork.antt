-- ===== src/Sched/Fork.antt =====
-- `sched_fork` as a whole: what the child has of its parent, and what it starts with.
use archarch.Base.{
  ℕ, ◌+◌, ◌-◌, ◌*◌, ◌/◌, ◌^◌, ◌≤◌, ◌<◌, ◌≡◌, ◌≢◌, ◌⊎◌, inl, inr, refl, ap, ◌∙◌, arith, true, false,
  leb, ◌==◌, if◌then◌else◌, ==_refl, Bool-cases, ℤ, pos, minus_one,
}
use native.Mathlib.Decide.{ℕ_discrete}
use archarch.Base.Word.{sub64}
use archarch.Memory.{
  Memory, load64, load_bytes_same, load_bytes-store_bytes_apart, load64-store64,
  store_bytes_elsewhere,
}
use archarch.Kmalloc.{phys_to_virt}
use archarch.Mmu.Pgd.{KeepsFree}
use archarch.Pmm.{Pmm, total_pages, ram_base, page_to_addr, bit_test}
use archarch.Pmm.Valid.{IsValid}
use archarch.Mmu.{Space, entry}
use archarch.Mmu.Alloc.{slot, page_to_addr-eq}
use archarch.Mmu.Walk.{translate}
use archarch.Mmu.User.{user_map}
use archarch.Fd.Objects.{max_fds}
use archarch.Fd.Refs.{count_refs}
use archarch.Fd.Dup2.{fd_table_dup_lem, fd_table_dup-descriptors}
use archarch.Task.{Task, Kernel, Image, is_ready, sched_max_tasks, sched_stack_size}
use archarch.Signal.Deliver.{Regs, save_regs}
use archarch.Signal.Frames.{Words, load64-save_regs, load_regs_lem, save_regs_elsewhere}
use archarch.Sched.{first_context}
use archarch.Sched.User.{
  user_task, kstack_top, child_frame, push_child_frame, fork_child_return, copy_image, enter_child,
  sched_fork, put_pmm,
}
use archarch.Sched.Copy.{IsRun}
use archarch.Sched.Twin.{NoRoom, Twin, twinned, failed, new_image-Twinned}

module _ (image : Image) (id : ℕ) (regs : Regs) (m : Memory) where
  -- The child's frame is read back with 0 for the register that holds the result of the call.
  pub fork_child_return-push_child_frame :
      (regs' : Regs) (j : ℕ)
      → Words regs
      → j < 34
      → fork_child_return (child_frame image id) (push_child_frame image id regs m) regs' j
        ≡ (if j == 0 then 0 else regs j)
  unfolding fork_child_return push_child_frame
  fork_child_return-push_child_frame regs' j words hj =
      let frame = child_frame image id in
      let m1 = save_regs 34 0 frame regs m in
      load_regs_lem 34 0 frame (archarch.Memory.store64 frame 0 m1) regs' j
      ∙ elim (ℕ_discrete j 0) [
        | yes e ↦
            let at : frame + j * 8 ≡ frame = omega (arith, e) in
            ground (
              arith,
              ap (λ a. load64 a (archarch.Memory.store64 frame 0 m1)) at,
              load64-store64 frame 0 m1 (omega arith),
            )
        | no ne ↦ ground (
          arith,
          load_bytes-store_bytes_apart 8 (frame + j * 8) 8 frame 0 m1 (inl (omega (arith, ne))),
          load64-save_regs 34 0 j frame regs m (omega arith) (omega arith) (words j hj),
        )
      ]

  -- A page above the kernel stacks keeps its words.
  pub slot-push_child_frame :
      (q j : ℕ)
      → 272 ≤ kstack_top image id
      → kstack_top image id < 2 ^ 64
      → kstack_top image id ≤ phys_to_virt q
      → slot q j (push_child_frame image id regs m) ≡ slot q j m
  unfolding slot entry push_child_frame child_frame
  slot-push_child_frame q j room word above =
      let frame = sub64 (kstack_top image id) 272 in
      let top : frame + 272 ≡ kstack_top image id = omega arith in
      load_bytes_same 8 _ m _ (λ b lo hi.
        store_bytes_elsewhere 8 frame 0 b (save_regs 34 0 frame regs m) (inr (omega arith))
        ∙ save_regs_elsewhere 34 0 frame b regs m (omega arith))

-- The kernel's stacks lie below every page that is not reserved.
abbrev pub StacksReserved : Image → Pmm → Type 0
StacksReserved image p =
    (q : ℕ)
    → q < total_pages
    → bit_test q p ≡ false
    → image.task_stacks + sched_max_tasks * sched_stack_size ≤ phys_to_virt (page_to_addr q)

-- The task `t` is the child of the current task of `k`, in the state after the fork.
pub record IsChild (image : Image) (regs : Regs) (k : Kernel) (m : Memory) (t : Task) (k' : Kernel)
    (m' : Memory) : Type 0 where
  pub counted : k'.num_tasks ≡ k.num_tasks + 1
  pub is : k'.tasks k.num_tasks ≡ t
  pub others : (j : ℕ) → j ≢ k.num_tasks → k'.tasks j ≡ k.tasks j
  pub runs : is_ready t.state ≡ true
  pub parent : t.parent_tid ≡ pos k.current_task
  pub handlers : (s : ℕ) → t.sig.handlers s ≡ (k.tasks k.current_task).sig.handlers s
  pub quiet : (s : ℕ) → t.sig.pending s ≡ false
  pub descriptors : (j : ℕ) → j < max_fds → t.fdt j ≡ (k.tasks k.current_task).fdt j
  pub references :
      (f c : ℕ)
      → f ≢ 0
      → (k.io.files f).ref_count ≡ pos c
      → (k'.io.files f).ref_count ≡ pos (c + count_refs max_fds f (k.tasks k.current_task).fdt)
  pub resumes :
      (regs' : Regs) (j : ℕ)
      → j < 34
      → fork_child_return t.ctx.sp m' regs' j ≡ (if j == 0 then 0 else regs j)
  pub at : t.ctx.x30 ≡ image.fork_child_return
  pub maps :
      (va : ℕ)
      → va < 2 ^ 39
      → translate t.ttbr0 va m' ≡ user_map t.code_pa t.code_pages t.stack_pa 4 va
  pub code_words :
      (i j : ℕ)
      → i < (k.tasks k.current_task).code_pages
      → j < 512
      → slot (t.code_pa + i * 4096) j m' ≡ slot ((k.tasks k.current_task).code_pa + i * 4096) j m
  pub stack_words :
      (i j : ℕ)
      → i < 4
      → j < 512
      → slot (t.stack_pa + i * 4096) j m' ≡ slot ((k.tasks k.current_task).stack_pa + i * 4096) j m

le→leb_false : (a b : ℕ) → b < a → leb a b ≡ false
le→leb_false a b h = ground arith

-- The outcomes of `sched_fork`.
abbrev pub Forked : Image → Regs → Kernel → Memory → ℤ × Kernel × Memory → Type 0
Forked image regs k m (r, k', m') =
    ((r ≡ pos k.num_tasks) × (t : Task) × IsChild image regs k m t k' m')
    ⊎ ((r ≡ minus_one)
        × (k'.tasks ≡ k.tasks)
        × (k'.num_tasks ≡ k.num_tasks)
        × NoRoom (k.tasks k.current_task).code_pages k.io.heap.pmm)

module _ (image : Image) (regs : Regs) (k : Kernel) (m : Memory) (room : k.num_tasks < 8)
    (word : image.task_stacks + 65536 < 2 ^ 64) (reserved : StacksReserved image k.io.heap.pmm)
    (words : Words regs) where
  abbrev me : Task
  me = k.tasks k.current_task

  kstack_top_bounds :
      (272 ≤ kstack_top image k.num_tasks)
      × (kstack_top image k.num_tasks < 2 ^ 64)
      × (kstack_top image k.num_tasks ≤ image.task_stacks + 65536)
  unfolding kstack_top
  kstack_top_bounds = omega arith

  page_kept :
      (q j : ℕ) (m1 : Memory)
      → q < total_pages
      → bit_test q k.io.heap.pmm ≡ false
      → slot (page_to_addr q) j (push_child_frame image k.num_tasks regs m1)
        ≡ slot (page_to_addr q) j m1
  page_kept q j m1 inside free =
      let (a, b, c) = kstack_top_bounds in
      slot-push_child_frame image k.num_tasks regs m1 (page_to_addr q) j a b
        (omega (arith, c, reserved q inside free))

  module _ {c st pgd : ℕ} {s' : Space}
      (twin : Twin me.code_pages me.code_pa me.stack_pa c st pgd k.io.heap.pmm m s') where
    abbrev after : ℤ × Kernel
    after = enter_child image c st pgd (put_pmm s'.pmm k)

    abbrev memory : Memory
    memory = push_child_frame image k.num_tasks regs s'.mem

    page_at :
        (a i n : ℕ) → a + n ≤ total_pages → i < n → page_to_addr a + i * 4096 ≡ page_to_addr (a + i)
    page_at a i n fits h =
        omega (arith, page_to_addr-eq a (omega arith), page_to_addr-eq (a + i) (omega arith))

    code_copied :
        (i j : ℕ)
        → i < me.code_pages
        → j < 512
        → slot (c + i * 4096) j memory ≡ slot (me.code_pa + i * 4096) j m
    code_copied i j hi hj =
        rw (twin.code_is, page_at twin.code_start i me.code_pages twin.code_fits hi)
          (page_kept (twin.code_start + i) j s'.mem (omega (arith, twin.code_fits))
              (twin.code_free (twin.code_start + i) (omega arith) (omega arith))
            ∙ twin.code_words i j hi hj)

    stack_copied :
        (i j : ℕ)
        → i < 4
        → j < 512
        → slot (st + i * 4096) j memory ≡ slot (me.stack_pa + i * 4096) j m
    stack_copied i j hi hj =
        rw (twin.stack_is, page_at twin.stack_start i 4 twin.stack_fits hi)
          (page_kept (twin.stack_start + i) j s'.mem (omega (arith, twin.stack_fits))
              (twin.stack_free (twin.stack_start + i) (omega arith) (omega arith))
            ∙ twin.stack_words i j hi hj)

    free_kept : KeepsFree k.io.heap.pmm s'.mem memory
    free_kept q j free page hj =
        let n = (q - ram_base) / 4096 in
        let at : q ≡ page_to_addr n =
          omega (arith, page, page_to_addr-eq n (omega (arith, page))) in
        elim (Bool-cases (bit_test n k.io.heap.pmm)) [
          | inl used ↦
              absurd
                (free (record { number = n; inside = omega (arith, page); is = at; used = used }))
          | inr clear ↦ rw at (page_kept n j s'.mem (omega (arith, page)) clear)
        ]

    twin-IsChild : IsChild image regs k m (after.1.tasks k.num_tasks) after.1 memory
    unfolding enter_child user_task first_context
    twin-IsChild = record {
      counted = refl;
      is = refl;
      others = λ j ne. ground (arith, ne);
      runs = rw (==_refl k.num_tasks) refl;
      parent = rw (==_refl k.num_tasks) refl;
      handlers = λ s. rw (==_refl k.num_tasks) refl;
      quiet = λ s. rw (==_refl k.num_tasks) refl;
      descriptors = λ j h.
          rw (==_refl k.num_tasks)
            (fd_table_dup-descriptors ((k.tasks k.num_tasks).fdt) me.fdt (put_pmm s'.pmm k).io j h);
      references = λ f n ne e.
          (fd_table_dup_lem ((k.tasks k.num_tasks).fdt) me.fdt (put_pmm s'.pmm k).io f n ne e).1;
      resumes = λ regs' j h.
          rw (==_refl k.num_tasks)
            (fork_child_return-push_child_frame image k.num_tasks regs s'.mem regs' j words h);
      at = rw (==_refl k.num_tasks) refl;
      maps = λ va h. rw (==_refl k.num_tasks) (twin.maps memory free_kept va h);
      code_words = λ i j hi hj. rw (==_refl k.num_tasks) (code_copied i j hi hj);
      stack_words = λ i j hi hj. rw (==_refl k.num_tasks) (stack_copied i j hi hj);
    }

  -- `sched_fork` in a user task with a free table entry, where the allocator is valid, the task's
  -- code and stack are runs of pages in use, at most 512 of code, and the kernel's stacks lie below
  -- the free pages: either it returns the new task's number, or it returns -1, the task table is as
  -- before, and the RAM has no room for the child's pages. The child is ready, starts with the
  -- parent's registers but 0 for its result, has the parent's handlers, no pending signal, and the
  -- parent's descriptors, which are counted; its code and stack are copies of the parent's, word for
  -- word, and they are all that its page table maps below 2^39.
  pub sched_fork-Forked :
      me.is_user ≡ true
      → IsValid k.io.heap.pmm
      → IsRun me.code_pa me.code_pages k.io.heap.pmm
      → IsRun me.stack_pa 4 k.io.heap.pmm
      → 0 < me.code_pages
      → me.code_pages ≤ 512
      → Forked image regs k m (sched_fork image regs k m)
  unfolding sched_fork copy_image
  sched_fork-Forked user v code stack positive few =
      elim (new_image-Twinned code stack positive few m v) [
        | failed e full ↦
            rw (user, le→leb_false 8 k.num_tasks room, e, sched_fork) (inr (refl, refl, refl, full))
        | twinned c st pgd e twin ↦
            rw (user, le→leb_false 8 k.num_tasks room, e, sched_fork)
              (inl (unfold enter_child in refl, _, twin-IsChild twin))
      ]
