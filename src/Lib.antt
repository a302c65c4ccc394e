-- ===== src/Lib.antt =====
-- A model of the kernel of ilo pali, a RISC-V microkernel in C, with theorems about its parts.
--
-- The parts, the file of the repository that each one is, and the modules that model it:
--
-- - kernel/src/memory.c, the page allocator: Pages. `Pages` is the table of reference counts;
--   `alloc_pages`, `dealloc_pages`, `incr_page_ref_count`, `mark_as_used` and `page_ref_count` are
--   the functions of that name, and Pages.Layout has the arithmetic of `init_pages`.
-- - kernel/src/memory.c, `malloc`, `free` and `realloc`: Malloc, on the headers of the buckets,
--   with pages from Pages. A header
--   is no byte of a bucket. Malloc.Linked and Malloc.Unlink have the list of used buckets,
--   Malloc.Chains the lists of free ones, Malloc.Debug what is printed of the used ones.
-- - kernel/src/memory.c, `memcpy`, `memset` and `memeq`: Bytes, on regions of bytes that do not
--   overlap; `memcpy_within` is `memcpy` inside one memory, as `realloc` calls it.
-- - kernel/src/mmu.c and mmu.h: Mmu.Address (the direct map), Mmu.Entry (page table entries),
--   Mmu.Table (walking and translating), Mmu.Map (`mmu_map`, `mmu_alloc`, `mmu_change_flags`,
--   `mmu_remove`) and Mmu.Create (`create_mmu_table`); proofs in Mmu.Leaf, Mmu.Walk and
--   Mmu.Mapping, and for tables that are missing in Mmu.Growing and Mmu.Fresh. The tables take
--   their pages from Pages.
-- - kernel/src/queue.c: Queue, against the sequence that queue.h promises, in Queue.Fifo.
-- - kernel/src/hashmap.c: HashMap, with the hash in HashMap.Hash; keys and values are Bytes.
-- - kernel/src/sync.c: Sync, a step relation for any number of threads at one lock.
-- - kernel/src/schedulers/roundrobin.c: Scheduler.
-- - kernel/src/fat16.c and fat16.h: Fat; `verify_initrd`, `get_fat_cluster_data` and
--   `get_next_cluster` by name; Fat.Directory has `find_file_in_root_directory` and
--   `read_file_full`, whose loop is `read_clusters`, which copies with Bytes. Its buffer is taken
--   to lie apart from the image.
-- - kernel/src/elf.c and elf.h: Elf, which reads words as Fat does.
-- - kernel/src/string.c: Strings, on strings that end with a zero byte.
-- - kernel/src/fdt.c and fdt.h: Fdt, on the bytes of memory, with the switch on a token and the
--   loop over the tokens as `switch` and `search`; Fdt/Property and Fdt/Path have
--   `fdt_get_property` and `fdt_path`, Fdt/NodeAddress `fdt_get_node_addr`, Fdt/Dump `dump_fdt`. A
--   node's key is compared by the model of `strcmp`.
-- - kernel/src/console.c: Console, as the bytes that are written in order; `console_vprintf` is a
--   machine over the characters of its format.
-- - kernel/src/process.c (the task table and the choice of a pid) and `timer_switch` of
--   kernel/src/interrupt.c: Process. `timer_switch` calls Scheduler.
-- - kernel/src/process.c, `spawn_task_from_elf`: Spawn has the segments, Spawn.Arguments the
--   arguments and Spawn.Start the task, with `init_processes`. It reads headers by Elf and takes
--   pages by Mmu.Map; its memory is that of Mmu.Table, with bytes as in Mmu.Bytes, whose `memcpy`
--   Mmu.Copying compares with that of Bytes. The strings of the arguments are given as lists of
--   bytes, and the fields of a program header are read once.
-- - kernel/src/kernel.c: Kinit has `init_hart_helper` and the loops over the harts. Kinit.Boot goes
--   from `init_processes` to the first task, and Kinit.Count is about the harts in the device tree.
-- - kernel/src/interrupt.c: Interrupt, with the handler as `interrupt_handler`, its first part as
--   `asynchronous`, its second as `synchronous` and its last statement as `go_on`. It calls
--   Process, Scheduler and Console. Interrupt.Steps has the steps of
--   one hart as a relation, with no steps of other harts between them, Interrupt.Boot a
--   hart without a task; Interrupt.Controller has `init_interrupts`, which asks Fdt and
--   Mmu.Address, and Interrupt.Lock `lock_stop`.
--
-- Numbers are natural numbers; a sum, difference or product of type `size_t` or `uint64_t` that
-- could wrap is written `add64`, `sub64` or `mul64`. An operation that changes an object returns
-- the new object. A NULL pointer is `none`, or 0 where the code computes with it as an address. In
-- the models of its callers, memory that `malloc` hands out is an argument `junk`, and `malloc` is
-- taken to succeed, as the callers take it.
--
-- Loops are recursions on the number of rounds left. The `while (true)` of `hashmap_insert` takes a
-- bound on its rounds: one round is enough where the bucket has room, and where it is full of one
-- key no number of rounds is. The loop over a file's clusters takes a bound too, for which a
-- measure that every link lowers is enough, and the loops over strings one, for which the length of
-- the string is. A search in the device tree takes a bound on its turns, for which one more than
-- the number of tokens is enough, and one on the loops over a name; the search in the root
-- directory has the same two. The loop over fresh buckets runs as often as buckets fit in the
-- pages.
--
-- A pid is below 2^31, so that the `int` variables of the scheduler hold it.
--
-- Not modelled: `kinit` but for its loops over the harts, the name of a task, what assembly code
-- does, the system calls of the interrupt handler that are commented out, and the user programs.
-- The locks of the page allocator and of the bucket allocator are modelled by themselves, in Sync.
pub mod Prelude
pub mod Queue
pub mod Pages
pub mod Mmu
pub mod Bytes
pub mod HashMap
pub mod Sync
pub mod Scheduler
pub mod Process
pub mod Fat
pub mod Strings
pub mod Elf
pub mod Console
pub mod Fdt
pub mod Malloc
pub mod Interrupt
pub mod Spawn
pub mod Kinit
