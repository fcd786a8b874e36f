-- ===== src/Syscall/Tests.antt =====
-- Runs of syscall.c, and its theorems at a concrete machine.
use archarch.Base.{◌+◌, ◌-◌, ◌^◌, ◌≤◌, ◌<◌, refl, arith, length}
use archarch.Sched.Sample.{image, user_kernel-IsValid, user_kernel, io}
use archarch.Signal.Deliver.{Regs}
use archarch.Mmu.{user_va_guard}
use archarch.Mmu.Sample.{empty-IsTree}
use archarch.Syscall.{syscall_handler, resume_call}
use archarch.Syscall.Files.{Machine, Pending}
use archarch.Syscall.Break.{sys_sbrk}
use archarch.Syscall.Listing.{listdir_text}
use archarch.Syscall.Bounds.{listdir_text-fits}
use archarch.Syscall.Sbrk.{SbrkDone, sys_sbrk-SbrkDone, sys_sbrk_below}
use archarch.Syscall.Handler.{HandledKeeps, syscall_handler-HandledKeeps}

abbrev machine : Machine
machine = record { kernel = user_kernel; user = λ a. 0; mem = λ a. 0 }

-- The registers of `fork()`.
abbrev fork_regs : Regs
fork_regs i = 11

syscall_handler-HandledKeeps_example :
    HandledKeeps (syscall_handler image fork_regs machine)
    × ((pending : Pending) → HandledKeeps (resume_call image fork_regs pending machine))
syscall_handler-HandledKeeps_example =
    syscall_handler-HandledKeeps image fork_regs machine user_kernel-IsValid (omega arith)

sys_sbrk-SbrkDone_example : SbrkDone 5000 user_kernel (λ a. 0) (sys_sbrk 5000 user_kernel (λ a. 0))
sys_sbrk-SbrkDone_example =
    sys_sbrk-SbrkDone user_kernel (λ a. 0) (λ q. 0) empty-IsTree 5000 (omega arith) refl
      (omega arith) (omega arith)

sys_sbrk_below_example :
    ((sys_sbrk (2 ^ 64 - 1) user_kernel (λ a. 0)).1.tasks 1).heap_break < user_va_guard
sys_sbrk_below_example = sys_sbrk_below (2 ^ 64 - 1) user_kernel (λ a. 0) 1 (omega arith)

listdir_text-fits_example : length (listdir_text 16 io.root_fs) + 1 ≤ 16
listdir_text-fits_example = listdir_text-fits 16 io.root_fs (omega arith) (omega arith)
