-- ===== src/Lib.antt =====
-- A verification library for archarch, a small kernel for the QEMU virt machine (AArch64).
--
-- The kernel's memory comes from the page allocator (pmm.c), a bitmap over the RAM. The heap
-- (kmalloc.c) takes pages from it and hands out blocks. The FAT16 file system (fat16.c) reads a block
-- device. The descriptor layer (fd.c) gives tasks files, pipes and the console through open files on
-- the heap, which count the descriptors that stand for them. The scheduler (sched.c) runs tasks round
-- robin, signals (signal.c) wake, interrupt and end them, and the timer's interrupt (irq.c) makes the
-- scheduler switch. Device drivers pass buffers to their devices through virtqueues (virtqueue.c).
--
--   Base         names shared by all: lists, machine words, C's int
--   Pmm          pmm.c: bitmap, free_pages and used_pages as a record; pmm_init is init, and so on
--   Kmalloc      kmalloc.c and kva.h: the chain of block headers as a list with addresses
--   Fat16        fat16.c: Fat16 has mounting, listing and opening, Fat16/Name the 8.3 names,
--                Fat16/Read fat16_read_file; Fat16/Format, Fat16/Found and Fat16/Shown describe
--                names, lookups and listings from the bytes of a directory
--   Pipe         the ring buffer of fd.h and the two loops over it in fd_read and fd_write
--   Fd           fd.c: Fd/Objects has the records, Fd closing, duplicating, opening and pipes,
--                Fd/Read reading and writing
--   Task         the task table of sched.h and signal.h
--   Sched        sched.c, context_switch.S and mmu_switch_ttbr0 of mmu.c
--   Virtqueue    virtqueue.c: the free list and the chains of descriptors
--   Irq          irq.c: the dispatch table, irq_handler and the faults of user tasks
--   Signal       signal.c: Signal/Send has signal_send, Signal/Deliver the rest
--   Memory       bytes and the words made of them
--   Mmu          mmu.c: user page tables; Mmu/Walk has the walk of the hardware over them
--   Sched/User   user tasks: sched_create_user and sched_fork
--   Syscall      syscall.c: one function for each case of the switch, and syscall_handler; Syscall/Files
--                has the calls on descriptors, Syscall/Break SYS_SBRK, Syscall/Listing SYS_LISTDIR. A
--                read or a write that waits at a pipe gives up the processor with what is left of
--                the call, and resume_call is the call when its task runs again
--   Pci          pci.c: assigning the regions of a device, and the search for one; the registers are an
--                interface
--   VirtioBlk    virtio_blk.c: a request to the block device, from the chain to its end
--   Uart         uart.c: what the printing functions send
--
-- A function of the source is a function of the same name here, without the prefix that its module
-- gives (pmm_alloc_pages is alloc_pages of Pmm). State is passed along. A pointer is an address, 0 is
-- NULL, and the objects at addresses are functions. A string in memory is a list of bytes that ends
-- at its first NUL. Machine integers are native numbers, with the wrap
-- of the type written out where the code can reach it.
--
-- Loops over a fixed range recurse on the number of rounds that are left. kmalloc calls itself
-- again after the heap has grown: it recurses on fuel, and two rounds are enough whenever it
-- returns. The walk along a used chain of a virtqueue has one round for each entry of the queue,
-- enough for a chain without a double. fat16_read_file follows a cluster chain on fuel, and as many
-- rounds as bytes to read are enough. The digits of uart_putdec are at most the 20 of its buffer. A
-- request to the block device looks 50000000 times at the used ring, as the source does. The loop
-- of SYS_SBRK has a round for each page between the two breaks. A path that a user passes is read
-- up to 4096 characters, more than an 8.3 name has. A call of the scheduler ends at the switch to
-- another task; the caller goes on when a later switch comes back to it.
--
-- Not modelled: lines for the log, caches and barriers, the set-up of devices, and the other
-- drivers, which are I/O. To the file system the block device is a function from a sector to its
-- bytes or to a failure. Pages that the kernel touches are taken as mapped. User memory, as the
-- kernel sees it through the current page table, and the kernel's own memory are two states: that
-- both show the same RAM is left out, with the one exception of page tables, which the walk reads
-- from the kernel's memory. The boot code, the start-up demonstrations and the user programs are
-- left out.
pub mod Base
pub mod Pmm
pub mod Kmalloc
pub mod Fat16
pub mod Pipe
pub mod Fd
pub mod Memory
pub mod Task
pub mod Virtqueue
pub mod Signal
pub mod Sched
pub mod VirtioBlk
pub mod Irq
pub mod Mmu
pub mod Syscall
pub mod Pci
pub mod Uart
