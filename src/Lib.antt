-- ===== src/Lib.antt =====
-- The kernel of the Weenix operating system: its processes and threads (K1), file descriptors
-- (K2) and virtual memory (K3), as state passing over the records of the source.
--
-- Proc/Kernel.antt is the state of the scheduler: tables of threads, queues and mutexes, which
-- are named by numbers that stand for their addresses. Proc/Sched.antt is K1/sched.c and
-- K1/sched_helper.c; a call of sched_switch ends in another thread, so that what follows it in
-- the source is a function of its own (cancellable_sleep_resume, waitpid_resume), and interrupts
-- are a list of functions on the state, of which one arrives in each round of the wait for a
-- runnable thread. Proc/Kmutex.antt is K1/kmutex.c, and Proc/Kmutex/Exclusion.antt the steps of
-- threads that lock and unlock a mutex, with how long they wait. Proc/Pid.antt is _proc_getid,
-- Proc/Waitpid.antt is do_waitpid, and Proc/Process.antt the rest of K1/proc.c, with kthread_create, kthread_cancel
-- and kthread_exit of K1/kthread.c.
--
-- Vm/Vmmap.antt and Vm/Vmmap/ are K3/vmmap.c: an address space is a list of areas in the order
-- of vmm_list. Operations that also change memory objects are in Vm/Vmmap/Remove.antt and
-- Vm/Vmmap/Map.antt, over the interface of Vm/Mmobj.antt, which stands for K3/shadow.c,
-- K3/anon.c, the page table and the TLB; the theorems hold for any implementation of it.
-- Vm/Access.antt is addr_perm and range_perm of K3/access.c, Vm/Brk.antt is K3/brk.c and
-- Vm/Mmap.antt K3/mmap.c. The calls meet the address spaces through vmmap_lookup,
-- vmmap_is_range_empty, vmmap_map and vmmap_remove only. Vm/Fork.antt is K3/fork.c with
-- kthread_clone of K3/kthread.c, where processes, threads, maps, files and the page table meet;
-- Vm/Fork/Objects.antt states what is relied on of memory objects.
--
-- Vfs/Files.antt is get_empty_fd of K2/open.c and the calls of K2/vfs_syscall.c on descriptors:
-- the table of the current process and the open files are state, and fget, fput and the
-- operations of vnodes are parameters, of which Vfs/Files/Balance.antt states what is relied on.
-- Vfs/Vnode.antt is the interface to a file system (vref, vput and the operations of a vnode
-- over a store), Vfs/Namev.antt is K2/namev.c, Vfs/Paths.antt the calls of K2/vfs_syscall.c on
-- path names, and Vfs/Open.antt is do_open, which meets the descriptors through get_empty_fd and
-- the path names through open_namev. Vfs/Namev/Balance.antt states what is relied on of a file
-- system: how its operations change the reference counts. The current directory is an argument.
-- Vfs/Inuse.antt is the table of vnodes in use of K3/vnode.c, which is behind vref and vput.
--
-- Mm/Frames.antt is the part of K3/pframe.c that works on the frames and their lists alone;
-- Mm/Lookup.antt is pframe_get and pframe_lookup with the operations of K3/anon.c and
-- K3/shadow.c that look up and fill a page, and Mm/Put.antt is dirtying, cleaning, freeing and
-- migrating pages with the operations that drop the last reference to an object. Frames and
-- objects are tables named by numbers, and a page is a function from offsets to bytes. The
-- operations of objects call each other in a circle, which is closed with fuel. A lookup that
-- finds a busy frame ends in the result waits, since what follows runs after a switch.
-- Mm/Pagefault.antt is K3/pagefault.c, which finds the area with vmmap_lookup and the frame with
-- pframe_lookup. Mm/Copying.antt is vmmap_read and vmmap_write of K3/vmmap.c with copy_from_user
-- and copy_to_user of K3/access.c, which meet the permissions, the areas and the frames.
--
-- Api/Calls.antt is what the system calls of K3/syscall.c use: the argument structures, the calls
-- of the rest of the kernel over a state that is a parameter, and the thread's kt_errno with the
-- kernel's temporary buffers. Api/Paths.antt is user_strdup of K3/access.c with the calls on path
-- names, Api/Wrappers.antt the other calls, Api/Execve.antt user_vecdup and sys_execve, and
-- Api/Dispatch.antt syscall_dispatch and syscall_handler.
--
-- A failed KASSERT or a use of a NULL pointer is the result panic; error codes are constructors, and
-- numbers in Api.
-- The constants and macros of headers that the repository does not hold are the fields of
-- Vm/Layout.antt or of the kernel's state. Numbers of 32 bits wrap around as add32 and sub32 of
-- Common/Tests.antt. Loops are structural over lists or bounds, except for those with fuel:
-- _proc_getid has PROC_MAX_COUNT, since it tries each number once; range_perm has one more than
-- the length of its range, since each round moves on by a page; sched_broadcast_on has the
-- length of the queue, since each round takes a thread off; the lookups of pages take any fuel
-- above the length of the chain of shadow objects. The shell of sys_kshell runs as long as its
-- user wants; without fuel left the outcome is that it still runs. The walk of free_vector to a
-- NULL has fuel too, and nothing is stated of it. The other theorems show that this is enough.
--
-- Not modelled: the rest of K3/vnode.c and K2/vnode.c (special files, pages of a vnode);
-- start-up and the page-out daemon; sys_mount and sys_umount, which only a kernel with
-- __MOUNTING__ has; printing. do_mount and do_umount are not written in the source. Slab allocations of areas, maps and processes are taken to succeed, as
-- the source does.
pub mod Common
pub mod Vm
pub mod Proc
pub mod Vfs
pub mod Mm
pub mod Api
