-- ===== src/Fd/Tests.antt =====
-- Runs of fd.c, and the layer's theorems at a concrete table.
use archarch.Base.{ℕ, ◌<◌, ◌≡◌, ◌≢◌, ap, arith, false, none, [], ◌∷◌, upd, pos, if◌then◌else◌, ◌==◌}
use archarch.Pmm.{all_free}
use archarch.Kmalloc.{Heap}
use archarch.Fat16.{Bpb, Fs}
use archarch.Pipe.{new_pipe}
use archarch.Fd.Objects.{Io, FdTable, no_file, max_fds, pipe_end}
use archarch.Fd.{fd_close, fd_dup2, fault, fd_table_destroy}
use archarch.Fd.Refs.{count_refs, RefsOk, Closed, fd_close-Closed, fd_table_destroy_lem}
use archarch.Fd.Dup2.{Shared, fd_dup2-Shared, fd_dup2_self_faults}

-- Descriptor 3 is one end of a pipe, 5 the other.
abbrev table : FdTable
table = upd (upd (λ i. 0) 3 0x5000) 5 0x6000

abbrev small_heap : Heap
small_heap = record {
  blocks =
      record { addr = 0x4fe0; size = 48; free = false }
      ∷ record { addr = 0x5030; size = 4000; free = false }
      ∷ [];
  heap_end = 0x5030;
  total_allocated = 4048;
  total_freed = 0;
  heap_size = 4112;
  pmm = all_free;
}

abbrev bpb : Bpb
bpb = record {
  bytes_per_sector = 512;
  sectors_per_cluster = 1;
  reserved_sectors = 1;
  num_fats = 1;
  root_entry_count = 16;
  total_sectors_16 = 8;
  total_sectors_32 = 0;
  fat_size_16 = 1;
  root_dir_sector = 2;
  root_dir_sectors = 1;
  data_start_sector = 3;
}

abbrev small_fs : Fs
small_fs = record { blk = λ s. none; bpb = bpb; fat_table = λ c. 0xFFFF }

abbrev running : Io
unfolding count_refs
running = record {
  heap = small_heap;
  files = λ f. record no_file {
    type = pipe_end;
    pipe = 0x7000;
    flags = if f == 0x6000 then pos 1 else pos 0;
    ref_count = pos (count_refs max_fds f table);
  };
  pipes = λ a. new_pipe;
  root_fs = small_fs;
  uart_in = [];
  uart_out = [];
}

running-RefsOk : RefsOk (λ f. 0) table running
unfolding running count_refs
running-RefsOk f ne = ap pos (omega arith)

fd_close-Closed_example :
    Closed (λ f. 0) table (pos 3) running (fd_close 0x9000 table (pos 3) running)
fd_close-Closed_example = fd_close-Closed 0x9000 (λ f. 0) table (pos 3) running running-RefsOk

fd_dup2-Shared_example : Shared (λ f. 0) 3 5 table (fd_dup2 0x9000 table (pos 3) (pos 5) running)
fd_dup2-Shared_example =
    fd_dup2-Shared 0x9000 (λ f. 0) 3 5 table running (omega arith) (omega arith) (omega arith)
      (omega arith) running-RefsOk

fd_dup2_self_faults_example : fd_dup2 0x9000 table (pos 3) (pos 3) running ≡ fault
fd_dup2_self_faults_example = fd_dup2_self_faults 0x9000 3 table running (omega arith) (omega arith)

fd_table_destroy_lem_example :
    let (fdt', io') = fd_table_destroy 0x9000 table running in
    ((j : ℕ) → j < max_fds → fdt' j ≡ 0) × ((f : ℕ) → f ≢ 0 → (io'.files f).ref_count ≡ pos 0)
fd_table_destroy_lem_example = fd_table_destroy_lem 0x9000 (λ f. 0) table running running-RefsOk
