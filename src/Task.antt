-- ===== src/Task.antt =====
-- The task table: `struct task` and `struct task_context` of sched.h, `struct signal_state` of
-- signal.h, and the state that the scheduler works on. A task's kernel stack and the user pages are
-- named by their addresses here.
use archarch.Base.{ℕ, Bool, true, false, List, upd, ℤ}
use archarch.Fd.Objects.{Io, FdTable}

pub data TaskState : Type 0 where
  unused : TaskState
  ready : TaskState
  running : TaskState
  blocked : TaskState
  finished : TaskState

-- The registers that `context_switch` saves and restores.
pub record Context : Type 0 where
  pub x19 : ℕ
  pub x20 : ℕ
  pub x21 : ℕ
  pub x22 : ℕ
  pub x23 : ℕ
  pub x24 : ℕ
  pub x25 : ℕ
  pub x26 : ℕ
  pub x27 : ℕ
  pub x28 : ℕ
  pub x29 : ℕ
  pub x30 : ℕ
  pub sp : ℕ

-- `pending` holds the bits of the 32-bit mask.
pub record SignalState : Type 0 where
  pub handlers : ℕ → ℕ
  pub pending : ℕ → Bool

pub record Task : Type 0 where
  pub ctx : Context
  pub state : TaskState
  pub id : ℕ
  pub name : List ℕ
  pub ticks : ℕ
  pub is_user : Bool
  pub user_entry : ℕ
  pub user_sp : ℕ
  pub ttbr0 : ℕ
  pub code_pa : ℕ
  pub code_pages : ℕ
  pub stack_pa : ℕ
  pub heap_break : ℕ
  pub wait_for_tid : ℤ
  pub parent_tid : ℤ
  pub fdt : FdTable
  pub sig : SignalState

-- The task table with its counts, what the descriptor layer works on, and of the processor the
-- registers that a switch changes. `start_info` holds an entry point and its argument.
pub record Kernel : Type 0 where
  pub tasks : ℕ → Task
  pub current_task : ℕ
  pub num_tasks : ℕ
  pub start_info : ℕ → ℕ × ℕ
  pub io : Io
  pub cpu : Context
  pub ttbr0_el1 : ℕ

-- The addresses that the linker gives to what the scheduler refers to.
pub record Image : Type 0 where
  pub console_file : ℕ
  pub task_stacks : ℕ
  pub task_wrapper : ℕ
  pub boot_l1_pa : ℕ
  pub fork_child_return : ℕ

abbrev pub sched_max_tasks : ℕ
sched_max_tasks = 8

abbrev pub sched_stack_size : ℕ
sched_stack_size = 8192

abbrev pub is_unused : TaskState → Bool
is_unused unused = true
is_unused _ = false

abbrev pub is_ready : TaskState → Bool
is_ready ready = true
is_ready _ = false

abbrev pub is_running : TaskState → Bool
is_running running = true
is_running _ = false

abbrev pub is_blocked : TaskState → Bool
is_blocked blocked = true
is_blocked _ = false

abbrev pub is_finished : TaskState → Bool
is_finished finished = true
is_finished _ = false

abbrev pub set_task : ℕ → Task → Kernel → Kernel
set_task i t k = record k { tasks = upd k.tasks i t }

abbrev pub set_state : ℕ → TaskState → Kernel → Kernel
set_state i s k = set_task i (record (k.tasks i) { state = s }) k
