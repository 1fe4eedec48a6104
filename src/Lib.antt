-- ===== src/Lib.antt =====
-- PennOS: a Unix-like kernel inside one process, with a FAT file system and a shell.
--
-- Parts and their interaction. Every process has a process control block (PCB). One
-- vector holds all PCBs, three linked queues hold the runnable ones by priority.
-- System calls of a process change the status of PCBs; at every tick the scheduler
-- scans the vector, links PCBs that are ready into the queue of their priority, and
-- lets the first PCB that runs of the chosen queue have the quantum. The file system
-- works on an image whose first blocks, the allocation table (FAT), are mapped into
-- memory and shared, so that a write to one of them is a write to the table; the other
-- blocks are data. Directories are chains of blocks of entries, paths are resolved
-- through them, and open files are rows of a system-wide table, which descriptors
-- refer to. The shell parses command lines into pipelines. The shell keeps a table of
-- jobs, which its SIGCHLD handler updates from wait statuses.
--
-- Files, with the code each one models (paths from the repository's root):
-- - Prelude: lists, optional slots, the errors of src/common/pennfat_errors.h, and the
--   arithmetic of C integers. Array: reads and writes of C arrays.
-- - Vec: src/util/Vec.c. A vector is its capacity, length and cells; the state also
--   records the elements given to the destructor. One function for each vec_ function;
--   the capacities are size_t values that wrap around. Growth has the capacities,
--   Contents the operations that add, Access the others.
-- - Pcb: src/kernel/PCB.c and PCB.h. The record Pcb has the C fields. Children is
--   about the child table.
-- - PcbQueue: src/kernel/pcb_queue.c. PCBs live in a heap from addresses to PCBs and
--   are linked by their next field, so aliasing is that of the code. Chain relates a
--   queue to the list of its addresses; Push, Pop and PopByPid are about the
--   operations, with the interrupt mask that the code sets.
-- - PcbVec: src/kernel/pcb_vec.c, the vector of PCB addresses on Vec's pattern.
-- - Kernel: k_get_self_pcb, k_proc_create, k_proc_cleanup and the other calls on the
--   kernel's state of src/kernel/kernel_syscall.c, and pcb_disconnect_child and
--   pcb_disconnect_parent of src/kernel/PCB.c. Seek, Live and Pids are about the
--   searches of the vector, Create, Adopt and Orphans about the operations.
-- - Syscalls: k_kill, k_exit, k_waitpid, k_nice, k_sleep of
--   src/kernel/kernel_syscall.c and the macros on wait statuses of
--   src/kernel/kernel_definition.h. k_waitpid is two functions, before and after the
--   join of the child's thread, since other processes run in between. Signals and Exit
--   are about k_kill and k_exit, Wait about k_waitpid, Change about a change of one
--   status.
-- - Scheduler: src/kernel/scheduler.c. scan_one and scan are the scan of the vector,
--   refresh and pick the choice, before_quantum and after_quantum the two halves of a
--   slot around its sigsuspend.
-- - Fat: the mapped table and the blocks, read_block, write_block,
--   locate_block_in_chain, free_block_chain and allocate_free_block of
--   src/internal/pennfat_kernel.c. A block below fat_block_count is part of the FAT: a
--   read of it gives the bytes of its entries, a write sets them. Region is about the
--   blocks beside the FAT, Alloc, Chain, Free and Locate about chains.
-- - Bytes and Dirent: the packed 64-byte entries of src/common/pennfat_definitions.h,
--   and read_dirent and write_dirent.
-- - File: the system-wide and the descriptor table, k_read, k_write, k_lseek and
--   k_close of src/internal/pennfat_kernel.c. Rows is about the rows of the table that
--   an open takes, with First about searches of an array.
-- - Dir: add_dirent_to_dir and find_entry_in_dir. Block is about one block of entries,
--   Walks about the loops over a chain, Add and Extend about an entry that goes to a
--   free slot or to a new block, Lookup about the two functions, Frame about changes
--   beside a directory, Chains about the chain after an addition.
-- - Resolve: resolve_path and resolve_path_no_follow, with read_symlink_target. A path
--   is a list of bytes. A round of the loop over the components is step, and what a
--   symbolic link leads to is resolved by an argument of it, which
--   resolve_path_internal gives. Components is about strtok, Names about entries made
--   for a name, Total about termination.
-- - Open: k_open, with the mode and permission macros of
--   src/common/pennfat_definitions.h. Existing is about files that are there.
-- - Tree: k_unlink, k_touch, k_chmod, k_chdir, k_symlink, k_mkdir, k_rmdir and
--   k_rename, the last in Rename. Guards is about their early returns, and one module
--   each about k_touch, k_chmod, k_unlink, k_rmdir, k_mkdir and k_symlink, with NewDir
--   about the first block of a directory.
-- - Cwd: k_getcwd and find_dir_name_in_parent. Total is about k_getcwd.
-- - Parser: parse_command and print_parsed_command of src/util/parser.c. A position in
--   the line is the rest of the line; the round of each pass is one function. Words
--   and Spell are about the characters, Shape about commands as tokens, Passes and
--   RoundTrip about printed commands, Agree, Moves, Counts and Sound about any line.
-- - Jobs: src/user/jobs.c.
-- - Tests: concrete vectors, queues, processes, files, directories and command lines,
--   and the examples.
--
-- FAT sizes. Block numbers count from the beginning of the image, the root directory
-- is block 1 and allocation begins at block 2, so only an image with one FAT block
-- keeps its directories and files beside the FAT. The results on operations that write
-- say so: they take a FAT of one block, or blocks that lie beside the FAT.
--
-- Loops. The loops over a range are structural. The others have fuel: the walk along a
-- queue its length + 1, the search of a free pid the length of the vector + 1, the
-- choice of a PCB the length of the queue + 1, the loop that frees a chain 65538 (each
-- round but the last frees one of the 65536 entries), the search of the last block
-- 65536, the loops of k_read and k_write the number of bytes + 1 (each round moves at
-- least one byte), the walks along a directory 65537 (a chain of 16-bit block numbers
-- has at most 65536 blocks), symbolic links the 9 levels that the code allows,
-- k_getcwd the code's own 64 levels, each pass of the parser the length of the line
-- (each round passes a character), the doubling of a capacity 64 (a size_t has 64
-- bits). Where a result below says that such a function returns, it shows that the
-- fuel is enough under the result's conditions.
--
-- Parameters. Whether malloc and realloc succeed, what read and write deliver for a
-- block of the image, and the clock are arguments of the definitions that use them. In
-- the parts on the file system malloc is taken to succeed. The calls of the thread
-- library are recorded in order.
--
-- Not modelled. Functions that only print or log, k_ls and k_ls_long among them.
-- Mounting and mkfs, which are system calls on the image. lookup_entry of
-- src/internal/pennfat_kernel.c, which has no caller. The thread library
-- src/kernel/spthread.c, the start and the shutdown of the kernel, which create and
-- join threads, the wrappers of src/user that forward to the kernel, the shell's
-- terminal handling, and the standalone tool src/pennfat.c, which loops over commands.

pub mod Prelude
pub mod Array
pub mod Vec
pub mod Pcb
pub mod PcbQueue
pub mod First
pub mod Fat
pub mod Bytes
pub mod Dirent
pub mod File
pub mod PcbVec
pub mod Kernel
pub mod Syscalls
pub mod Scheduler
pub mod Dir
pub mod Resolve
pub mod Open
pub mod Tree
pub mod Cwd
pub mod Parser
pub mod Jobs
pub mod Tests
