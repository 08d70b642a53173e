-- ===== src/Lib.antt =====
-- VerveOS, a small i386 kernel: what its parts promise, and that the code keeps it.
--
-- The kernel starts from a Multiboot2 information structure in physical memory (kernel/mboot2.c).
-- kernel/pmm.c reads the memory map there, and allocates 4 KiB frames by a bitmap that it places
-- behind the kernel's image. kernel/sched.c counts timer ticks, and hands every fifth to a ring that
-- kernel code drains outside interrupts. kernel/vfs_ram.c serves two files from the image to user
-- programs. All print by kernel/serial.c.
-- arch/i386/paging.c makes page tables of frames that the allocator gives; kernel/proc.c grows the heap
-- of the one process by them, and kernel/syscall.c answers its calls.
-- kernel/heap.c serves the kernel's own requests for memory from a static arena, and
-- kernel/acpi_hw.c reads the CPUs and the I/O APIC from the firmware's tables. kernel/thread.c
-- links the threads of the kernel in a ring, from which the CPUs claim them. kernel/exec_flat.c and
-- kernel/user_bringup.c make a process of pages and enter it. arch/i386/gdt.c and idt.c fill the tables
-- of the processor, whose stubs call kernel/interrupt.c; that serves the system calls and the timers,
-- over the drivers pic.c, pit.c, lapic.c and ioapic.c, and kernel/smp.c starts the other CPUs.
--
-- Files:
--   Base: shared names; Tests (comparisons), Lists (arrays), Word (casts and shifts of 8, 32 and 64
--     bits), Bits (laws of & and |), Memory (bytes at 32-bit addresses, words low byte first).
--   Mboot2: kernel/mboot2.c. The walks of the source share one loop over tags, scan_tags, whose fuel
--     is the size of the structure: each tag takes eight bytes. Queries has the functions for
--     clients, Layout the structure as a list of tags, Walk (with Unaligned, where a size is not a multiple
--     of 8), Agree and Basic the proofs.
--   Pmm: kernel/pmm.c. The static variables are the record Pmm, whose memory holds the bitmap.
--     Bitmap, Ranges and Alloc prove what the operations do, Clients follows a sequence of requests,
--     Init is pmm_init. A loop over frames has fuel for the 2 ^ 20 frames of a 32-bit space.
--   Serial: kernel/serial.c, as the list of bytes sent; Hex reads a printed number back.
--   Sched: kernel/sched.c. Ring sees the deferred ring of a CPU as a queue, Loop follows the loop that
--     drains it, whose fuel is the ring's 16 places, Deferred the whole call, History a sequence of
--     interrupts and drains, and Start sched_init.
--   Vfs: kernel/vfs_ram.c. Find is the lookup of names, Table the descriptors, Read one read, Stream
--     a sequence of reads, Open a file from its name on, Kernel the reads into kernel buffers,
--     Selftest the self-test.
--   Paging: arch/i386/paging.c. Boot has the static tables, Tables and Space say what a table and an
--     address space are, Link, Fresh and Map follow paging_map_page, Clone
--     paging_clone_kernel_pd, Range is the check of user
--     ranges, whose fuel is a round for each page of the address space and one more, and Rights
--     compares it with the rights in the directory.
--   Proc: kernel/proc.c. Space, Break, Loop and Call follow brk; its loop has fuel for the 1022 pages of
--     the heap.
--   User: kernel/exec_flat.c (Exec) and kernel/user_bringup.c (Bringup). Pages are the frames of a
--     program, Store and Fill the bytes that are stored there, Load and Smoke lead up to the entry of
--     Ring 3, Running and Run add the clone of the directory, and Decode reads the bytes that
--     emit_user_phase3 writes as instructions. verve_enter_user is assembly: the model ends there.
--   Syscall: kernel/syscall.c over Vfs, Proc and Paging. Write is sys_write, Invariant one call, Run
--     a sequence of calls.
--   Acpi: kernel/acpi_hw.c and, in Smp, kernel/acpi_smp.c. Sums is the checksum, Madt the table as a list of
--     entries, Collect and Fields follow the loop over them, Parse the RSDP and one MADT, and Start has
--     the rest of acpi_hw_init. The loop over the MADT has fuel for each byte of the table and one
--     more, as an entry takes two bytes at least.
--   Heap: kernel/heap.c. Blocks has the blocks and the list of the free ones in memory, Fit the loop over
--     them, Alloc kmalloc and Free kfree. A block has 32 bytes at least, so the fuel of 8193 rounds
--     is more than the free blocks of the 256 KiB arena.
--   Thread: kernel/thread.c on i386, over Heap; threads are numbers, 64 the main one. Start makes threads
--     and ends them, Ring is the ring as a list and pick_next along it, Yield the claims of the
--     CPUs, Unlink the changes of the ring, Checkpoint and Check the points where a thread lets the
--     scheduler in, Demo the demonstration threads as lists of calls. A walk has fuel for the 65 threads. The switch of
--     stacks is assembly; sched_yield returns the pair that it is called with.
--   Devices: the drivers of arch/i386, as lists of accesses with the newest first. What a device answers
--     is a parameter; Pic/Chip has the 8259 by its data sheet, Idt/Gates and Gdt/Segments the entries as
--     the processor reads them, Ioapic/Registers the registers behind the window, Lapic/Send the wait for
--     a delivery, whose fuel is the number of polls.
--   Interrupt: kernel/interrupt.c over Syscall, Sched and Devices. Serve is one interrupt, History a
--     sequence of them.
--   Smp: kernel/smp.c over Acpi, Pmm, Paging and Devices. Index is the map of identifiers, Mail the frame
--     of the mailbox, Round one CPU and Start the loop over them.
--
-- Numbers are natural numbers with the wrap of each width written out; uintptr_t and size_t have 32
-- bits. Pointers are addresses of the modelled memory, which the kernel maps identically. The bounds
-- of the kernel's image are parameters, since the linker sets them.
--
-- The check of user ranges, paging_user_range_ok, is a parameter of Vfs, which Syscall gives as the
-- one of Paging. Where it does not come back, as its loop can wrap round on the last page, its result is
-- none, and so is that of the calls that use it; Syscall calls this hangs. User memory is a memory of its own, by user addresses: the translation to frames is
-- not followed.
--
-- Not modelled: the locks, which one CPU at a time holds; assembly, with the stubs of the vectors and the
-- trampoline; kernel/main.c, which calls the parts in order and prints; the variants for x86_64.
pub mod Base
pub mod Mboot2
pub mod Pmm
pub mod Serial
pub mod Sched
pub mod Vfs
pub mod Paging
pub mod Heap
pub mod Proc
pub mod Syscall
pub mod Acpi
pub mod Thread
pub mod User
pub mod Devices
pub mod Interrupt
pub mod Smp
