-- ===== src/Lib.antt =====
-- Verification of CharisOS: the boot memory map, the physical page allocator, the page tables, the
-- heap, the scheduler, tasks, file descriptors, signals, pipes, IPC channels, sockets, the TCP client,
-- input events, the window manager, the configuration, strings and the IL runtime of the kernel, from the C code under
-- kernel/ and include/kernel/.
--
-- The parts and their files
--
-- - Base: the helpers that every part uses: Boolean tests on ℕ, updates of a function at a point,
--   lists with ℕ lengths, C's int as ℤ with its division towards zero.
-- - Pmm: kernel/pmm.c. The bitmap is a function from byte numbers to bytes, with the cursor
--   `last_free`. `pmm_init`, `pmm_reserve_range`, `pmm_alloc_page`, `pmm_free_page`,
--   `pmm_used_pages` and `pmm_free_pages` are `init`, `reserve_range`, `alloc_page`, `free_page`,
--   `used_pages` and `free_pages`. Where the code stores a page number in a u32 the model takes it
--   modulo 2 ^ 32.
-- - Kernel: the state that the kernel's files share, one record: the task table, the scheduler's
--   list and current task, the stack that a dead task left, the signal tables, CR3, and what was
--   passed to `kfree` and to the `close` of a node. A pointer to a task is its slot in the table.
-- - Sched: kernel/scheduler.c, `task_release_pending` of kernel/task.c and `vmm_switch` of
--   kernel/vmm.c. `schedule` is `scheduler_schedule`: it goes on until the task that was chosen
--   runs, and where that task had been switched away from before, until it has released what is
--   pending, since it resumes inside the same function. The context switch itself is assembly.
-- - Task: kernel/task.c: slots, lookup by pid, exit, sleep and the wake-up by the timer; Task/Fd:
--   the descriptor table of kernel/vfs.c, which exit closes.
-- - Signal: kernel/signal.c. The handlers that tasks register are functions outside the kernel: the
--   parameter `call` says what one does to the state. A dispatch either returns or ends the task.
-- - Pipe: kernel/pipe.c. A call blocks through `scheduler_block_task`, which dispatches signals, so
--   it may end the task that makes it.
--
-- - Ipc: kernel/ipc.c. `ipc_recv` is cut where the task yields: `recv` goes up to that point, and
--   `resume` is what the task does when the scheduler comes back to it, in whatever state that is.
--   The caller's bytes are a list, and a message keeps the bytes that its size counts.
-- - Str: kernel/string.c: `katoi`, `kutoa`, `kmemset`, `kmemcpy`, `kmemmove`, `kstrncpy` and
--   `kstrncmp`. Memory is a function of the address, a string the list of its characters.
-- - Il: kernel/il_runtime.c: `il_run`, `il_load_program`, `il_reset`, `il_destroy` and
--   `il_compile_source`. Both loops run on fuel, since neither ends on every input; the compiler
--   reads numbers with `katoi` of Str.
-- - Socket: kernel/socket.c, the table of sockets; what the network interface sends and receives is
--   a parameter.
-- - Input: kernel/input.c, the ring of events. Its operations run with interrupts off, so each is one
--   step.
-- - Heap: kernel/heap.c. Memory is the block headers at its addresses; Heap/Tiles says how a list of
--   sizes and flags lies in it.
-- - Wm: kernel/wm.c. The windows are a list in the order of the links, and a pointer to a window is
--   its address. `wm_process_mouse` and a round of `wm_main_loop` are steps on the list and the
--   drag; a step that would follow a pointer to a window that is gone has no result.
-- - Tcp: kernel/tcp.c, the client with its one connection. Tcp/Segment has the bytes of a segment and
--   the checksum. What `net_ipv4_send` returns for each segment, and what a callback does to the
--   connection, are parameters. Two rounds of folding the carries are enough for a u32.
-- - Vmm: kernel/vmm.c. Memory is the 64-bit words at its addresses; new tables come from the page
--   allocator of Pmm. The TLB is left out.
-- - Bootmem: kernel/bootmem.c. The structure of the boot loader is its bytes. The walk over the tags
--   takes at most 256 steps, so 257 rounds of fuel are enough for the loops behind it.
-- - Config: the table of kernel/config.c with its setters and getters, a list of entries in use.
-- - Fs: kernel/fs.c, a FAT32 volume on a disk. Fs/Names has the 8.3 names, Fs/Table the allocation
--   table, Fs/Dir opening and creating, Fs/Data reading, extending and writing; Fs/Geometry is about
--   the layout of a volume. The disk is part of the state: its sectors, and which of them can be read
--   and written. A round of the loops of `fs_read` and `fs_write` moves at least one byte, so as many
--   rounds as there are bytes are enough; searches are bounded by the number of clusters.
-- - Net: kernel/net_stack.c, ARP, IPv4, ICMP and UDP. Packets are lists of bytes. Net/Setup has the
--   configuration, Net/Arp the cache, Net/Udp datagrams and handlers, Net/Ipv4 what is sent and what is
--   done with a frame that was received. What the driver returns is a parameter.
-- - Dns: kernel/dns.c, lookups over the UDP of Net. A name is skipped in at most 128 steps.
-- - User: the copies of kernel/syscall.c between the kernel and a user task, over the tables of Vmm. A
--   round copies at least one byte.
--
-- Loops over tables are recursion on the number of entries left. The search of
-- `scheduler_find_next` goes round a linked list and has `max_tasks` rounds of fuel: a list without
-- repetition has no more entries than the table. A search that does not end has no result, and
-- `schedule` then leaves the state as it is, since nothing more happens.
--
-- Not modelled: task creation with its stacks and the copy of the kernel's mappings, console output,
-- the spin lock (which nothing takes), what windows draw, and the components outside these files:
-- the handlers of the system calls, mounts and the configuration file, HTTP and the network driver,
-- graphics and drivers.
pub mod Base
pub mod Str
pub mod Pmm
pub mod Kernel
pub mod Sched
pub mod Task
pub mod Signal
pub mod Pipe
pub mod Ipc
pub mod Il
pub mod Socket
pub mod Input
pub mod Heap
pub mod Wm
pub mod Tcp
pub mod Vmm
pub mod Bootmem
pub mod Config
pub mod Fs
pub mod Net
pub mod Dns
pub mod User
