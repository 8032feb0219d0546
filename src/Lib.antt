-- ===== src/Lib.antt =====
-- ShadowBox OS: a model of the kernel's core components in cubical type theory, and the theorems
-- that make them correct.
--
-- The kernel is a set of C files, each with static state and functions that change it under a lock.
-- Each modelled file is a module here: its static state is a record, each function takes that state
-- and returns it with the result, and a spinlock section is one such call, so that an interleaving of
-- calls on several processors is a list of calls. A null pointer is `none`, a `false` or an argument
-- left out, as the comment at the definition says; an errno is `Common.Errno`.
--
-- The parts, by file (paths from the repository's root):
--   Common       lists, options, numbers and bits that the parts share
--   Fifo         the abstract bounded queue that a ring promises to be
--   Ring         the ring of kernel/ipc.c, kernel/pty.c, kernel/input.c and net/socket.c: `head` is
--                where the next item goes, `tail` the oldest one, and one slot stays empty
--   Ipc.Pipe     kernel/ipc.c: pipe_create, pipe_read, pipe_write, pipe_close
--   Input        kernel/input.c: input_push, input_poll_event
--   Pty          kernel/pty.c: the table of pseudo-terminals, two rings each
--   Signal       kernel/signal.c: send_signal, sys_sigaction, sys_signal, sys_sigprocmask,
--                check_and_deliver_signals
--   Pmm          arch/x86_64/mm/pmm.c: pmm_alloc_page, pmm_free_page, pmm_get_info; Pmm.Boot:
--                pmm_init from the tags of the boot loader
--   Sched        kernel/sched.c: the run queue, a binary heap; the loops of heapify_up and
--                heapify_down have as fuel the slot's number and the slots from it on
--   Malloc       arch/x86_64/mm/malloc.c: malloc_init, kmalloc, kfree; the loop of kmalloc has fuel
--                for two turns
--   Tcp          net/tcp.c: tcp_socket_create, _bind, _connect, _listen, _send, _recv,
--                tcp_handle_packet, tcp_congestion_control, tcp_update_rtt; a copy past a
--                packet is `none`
--   Calendar     kernel/calendar.c: calendar_get_date, calendar_get_time
--   Ipc.Messages kernel/ipc.c: msgget, msgsnd, msgrcv
--   Softirq      kernel/softirq.c: softirq_register, softirq_raise, softirq_do_pending,
--                tasklet_schedule, tasklet_action, whose loop is turns between other calls
--   Notification kernel/notification.c: notification_send, notification_dismiss,
--                notification_peek
--   Kstring      lib/kstring.c: the string and memory functions over a memory of bytes; the loops
--                over a string have fuel, enough of which the theorems name
--   Tmpfs        fs/tmpfs.c: the entries by address (Tree), tmpfs_read and tmpfs_write; the loop
--                that grows a buffer has fuel for nine turns; Mounted: a tmpfs behind the
--                virtual file system
--   Vfs          kernel/vfs.c: vfs_mount, vfs_unmount, vfs_get_mount, vfs_finddir,
--                vfs_resolve_path, the read-only test of vfs_write, the file locks; Calls:
--                vfs_create, vfs_mkdir, vfs_rmdir, vfs_unlink, with the file system as a record
--   Security     kernel/security.c: capability sets; Log: the audit log; Modules: the security
--                modules; Sandboxes; Checks: who may kill and use a file
--   Dns          net/dns.c: dns_resolve
--   Sockets      net/socket.c: sb_socket_create, _bind, _connect, socket_read, socket_write
--   MicroIpc     kernel/micro_ipc.c: sys_sb_ipc_call, sys_sb_ipc_reply_wait; the walk to the end of
--                the waiters has fuel
--   Descriptors  kernel/task.c: process_fd_install, process_fd_get, process_fd_close
--
-- Numbers are natural numbers. Where the C type wraps, the wrap-around is written out (`% 2 ^ 32`); a
-- signed argument that can be negative is an integer. Loops over an array are structural recursion on
-- the array or on the count of the steps that the C loop makes, so no fuel is used but where a module
-- says so, with the theorem that it is enough.
--
-- Not modelled: drivers, boot code and the hardware abstraction, which only touch hardware; the file
-- systems on disks, the address space of processes and the other kernel files that no line above
-- names; the window manager, the desktop and the userland programs; printing. Pipes, pseudo-
-- terminals, input events and sockets share Ring, and a tmpfs stands behind the virtual file system
-- (Tmpfs.Mounted). Elsewhere, where one part calls another, the call is recorded (`System.enqueued`
-- for sched_enqueue in Signal) or its outcome is an argument (a flag for kmalloc in Ipc and
-- Notification, the address in Tmpfs, what a node's finddir gives in Vfs, what the network brings in
-- Dns); Malloc takes the pages of pmm_alloc_page for granted, since the kernel panics without them.
pub mod Common
pub mod Fifo
pub mod Ring
pub mod Ipc
pub mod Input
pub mod Pty
pub mod Signal
pub mod Pmm
pub mod Sched
pub mod Malloc
pub mod Tcp
pub mod Calendar
pub mod Softirq
pub mod Notification
pub mod Kstring
pub mod Tmpfs
pub mod Vfs
pub mod Security
pub mod Dns
pub mod Sockets
pub mod MicroIpc
pub mod Descriptors
