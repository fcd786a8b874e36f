-- ===== src/Sched/Sample.antt =====
-- A machine to run the scheduler's tests on: an empty heap and no disk, and a task by its state.
use archarch.Sched.Valid.{IsValid}
use archarch.Base.{refl, ◌==◌, arith, ℕ, true, none, [], ℤ, minus_one, if◌then◌else◌}
use archarch.Pmm.{all_free, ram_base}
use archarch.Mmu.Sample.{some_used}
use archarch.Fat16.{Bpb}
use archarch.Pipe.{new_pipe}
use archarch.Fd.Objects.{Io, no_file}
use archarch.Task.{Task, TaskState, Context, Image, Kernel, unused, ready, running}
use archarch.Signal.Send.{signal_init}

abbrev pub bpb : Bpb
bpb = record {
  bytes_per_sector = 512;
  sectors_per_cluster = 1;
  reserved_sectors = 1;
  num_fats = 1;
  root_entry_count = 16;
  total_sectors_16 = 8;
  total_sectors_32 = 0;
  fat_size_16 = 1;
  root_dir_sector = 2;
  root_dir_sectors = 1;
  data_start_sector = 3;
}

abbrev pub image : Image
image = record {
  console_file = 0x9000;
  task_stacks = 0x80000;
  task_wrapper = 0x1234;
  boot_l1_pa = 0x7000;
  fork_child_return = 0x5678;
}

abbrev pub zeroed : Context
zeroed = record {
  x19 = 0;
  x20 = 0;
  x21 = 0;
  x22 = 0;
  x23 = 0;
  x24 = 0;
  x25 = 0;
  x26 = 0;
  x27 = 0;
  x28 = 0;
  x29 = 0;
  x30 = 0;
  sp = 0;
}

abbrev pub task : TaskState → ℤ → ℤ → Task
task s wait parent = record {
  ctx = zeroed;
  state = s;
  id = 0;
  name = [];
  ticks = 0;
  is_user = true;
  user_entry = 0;
  user_sp = 0;
  ttbr0 = 0;
  code_pa = 0;
  code_pages = 0;
  stack_pa = 0;
  heap_break = 0;
  wait_for_tid = wait;
  parent_tid = parent;
  fdt = λ i. 0;
  sig = signal_init;
}

abbrev pub io : Io
io = record {
  heap = record {
    blocks = [];
    heap_end = 0;
    total_allocated = 0;
    total_freed = 0;
    heap_size = 0;
    pmm = all_free;
  };
  files = λ f. no_file;
  pipes = λ a. new_pipe;
  root_fs = record { blk = λ s. none; bpb = bpb; fat_table = λ c. 0xFFFF };
  uart_in = [];
  uart_out = [];
}

-- A kernel in which task 1 is the current one, a user task: the first page of the RAM is the root of
-- its page table, then come two pages of code and four of stack.
abbrev pub user_tasks : ℕ → Task
user_tasks i =
    if i == 0
    then task ready minus_one minus_one
    else if i == 1
    then record (task running minus_one minus_one) {
      code_pa = 0x40001000;
      code_pages = 2;
      stack_pa = 0x40003000;
      heap_break = 0x402000;
      ttbr0 = ram_base;
    }
    else task unused minus_one minus_one

abbrev pub user_kernel : Kernel
user_kernel = record {
  tasks = user_tasks;
  current_task = 1;
  num_tasks = 2;
  start_info = λ i. (0, 0);
  io = record io { heap = record io.heap { pmm = some_used } };
  cpu = zeroed;
  ttbr0_el1 = ram_base;
}

pub user_kernel-IsValid : IsValid user_kernel
user_kernel-IsValid = record {
  inside = omega arith;
  bounded = omega arith;
  current_runs = refl;
  one_runs = λ j h other. ground arith;
  idle_lives = refl;
}
