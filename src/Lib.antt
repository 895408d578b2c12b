-- ===== src/Lib.antt =====
-- V4V, messages between the domains of a Xen host: the ring that a guest shares with the hypervisor,
-- the hypervisor's insertion into it, the Linux guest driver that gives its messages to sockets, and
-- the queues of the Windows guest driver.
--
-- The parts. A domain that receives owns a ring: a header and `len` bytes of storage, written by the
-- hypervisor at tx_ptr and read by the guest at rx_ptr. A sender asks the hypervisor, which copies
-- the message into the ring or answers EAGAIN and later says that there is room (notify). The
-- driver's interrupt takes messages out of the rings and queues them at sockets, moves the sockets'
-- state machines, and sends or wakes what waited for room. The Windows driver does the same for
-- files: what a file asks for is an IRP, which waits in one queue of the device; a list of
-- destinations holds the writes that wait for room at each peer.
--
-- The files, and the code they are about.
--   Prelude              numbers, Booleans and lists as the other files use them
--   Abi                  linux/include/xen/v4v.h: addresses, headers, V4V_ROUNDUP
--   Errno                the results of the driver and of the hypercalls
--   Ring                 linux/include/xen/v4v.h: v4v_ring_bytes_to_read, v4v_copy_out
--     Ring/Rotate, Frames, CopyOut, Receive    storage as a circle; the messages that a ring holds;
--                        what v4v_copy_out gives of them
--   Xen                  xen/v4v.patch: v4v_ringbuf_payload_space, v4v_ringbuf_insert
--     Xen/Copy, Wrap, Insert, Channel          page-wise copies; the two wraps; insertion; a ring
--                        used by both sides, against a queue of messages
--   Driver               linux/v4v.c: struct ring, struct v4v_private, struct pending_recv,
--                        struct pending_xmit, and the monad of the driver's code
--     Driver/Ports       v4v_id_in_use to v4v_find_spare_port_number, find_ring_by_id(_type)
--     Driver/Socket      allocate_ring to put_ring, v4v_open_*, v4v_bind, v4v_listen, sizes, names
--     Driver/Xmit        xmit_queue_wakeup_private and _sponsor, xmit_queue_inline, _rst_to
--     Driver/Notify      wakeup_privates, wakeup_sponsor, v4v_notify, v4v_null_notify
--     Driver/Machine     connector_state_machine, acceptor_state_machine
--     Driver/Interrupt   copy_into_pending_recv, connector_interrupt
--     Driver/Listener    acceptor_interrupt, listener_interrupt, v4v_interrupt, v4v_fake_irq
--     Driver/Send        the senders, v4v_send_stream
--     Driver/Stream      v4v_recv_stream
--     Driver/Dgram       v4v_recvfrom_dgram
--     Driver/Connect     v4v_connect
--     Driver/Accept      v4v_accept, v4v_release
--     Driver/Fops        v4v_sendto, v4v_poll
--     Driver/Loads, Live, Delivery, and the modules below the others' names: proofs
--   Windows/Offset       windows/inc/xen/v4v.h: v4v_memcpy_skip, v4v_copy_out_offset
--   Windows/Csq          windows/xenv4v/csq.c: the queue of IRPs and the list of destinations
--     Csq/Pending, Addresses, Insert, Shrink, Queued, Remove, Matching, RingData
--                        the two in step
--   Windows/Machine      windows/xenv4v/create.c, hypercall.c, xenv4v.c: file contexts, the trace,
--                        cancellation
--   Windows/Writes       windows/xenv4v/rw.c: V4vDoWrite, V4vProcessNotify, V4vDispatchWrite
--     Writes/Tally, Steps, Conserved, Destination, Cancelled, Order    where each IRP goes
--   Windows/Reads        windows/xenv4v/rw.c: V4vProcessDatagramReads; Reads/Datagrams proves it
--   Windows/Syn          windows/xenv4v/ioctl.c, rw.c: the array of a listener's SYNs
--     Syn/Chain, Backlog, Refines, Drain    the chain in the array; against a bounded queue
--   Windows/Accepts      windows/xenv4v/ioctl.c: V4vDoAccepts; Accepts/Pairs proves it
--   Windows/Rings        windows/xenv4v/ring.c, ioctl.c: ring objects and V4vCtrlBind
--     Rings/Counts, Reach, Ports, Bind    reference counts; spare ports; the ends of a bind
--
-- The correspondence. A function of the code has the same name here, less a leading v4v_, and a
-- field keeps its name. Storage is a list of bytes, a machine integer a number with its wrap-around
-- written out where the code can reach it. In the driver a pointer to a ring or a socket is an
-- address; ring_list is a list with the newest ring first; a read through a dangling or NULL
-- pointer is a fault, the `none` of the monad. `trace` has what the driver did to the outside:
-- hypercalls, wakeups, allocations. An `Env` answers the hypercalls and allocations, each answer a
-- function of the trace, and says what interrupts and other processes do to the driver while a
-- process sleeps.
--
-- In the Windows part V4vCsqX is x in snake_case, and V4vX is x, or v4v_x where
-- the Linux driver has x. An IRP is a number and the fields
-- that the code reads. The links of a list of IRPs or destinations, and nextIrp with nextXDst, are
-- positions in lists; the next field of a SYN is an index in its array. A context is a function of
-- its file object. IoCsqRemoveNextIrp and its like call the driver's peek and remove callbacks, as
-- documented. An `Env` answers the hypercalls and the lookaside lists from the trace. Sizes are those
-- of a 64-bit system.
--
-- Bounds and fuel. Rings are smaller than 2^31 bytes. `patience` bounds how often a sleeper is woken
-- before a signal ends its sleep, so that every blocking call ends. The interrupt's loop over a ring
-- has fuel `len / 16 + 1`, one more than the messages that fit. The lumps of v4v_send_stream have a
-- fuel of the bytes to send, each lump being one byte at least.
--
-- The loop of v4v_connect, which the code repeats as long as another process keeps the socket in a
-- state that is neither CONNECTING, CONNECTED nor DISCONNECTED, has the same bound. The loops of the
-- Windows driver that write, read, accept or cancel have the length of the queue of IRPs and one
-- more as their fuel, as each round takes one IRP out.
--
-- Not modelled. Locks: what a lock protects runs without interruption. Checks of user memory, except
-- in v4v_recv_stream and v4v_sendto, where they are parameters. The 5 second timer of v4v_connect is
-- one of the things that others do. allocate_fd_with_private belongs to the kernel and is a
-- parameter. Of the page list of a ring only the length is kept. Messages to the log and statistics
-- are left out, as are v4v_recvfrom, v4v_ioctl, v4v_resume and the device's registration, the rest
-- of xen/v4v.patch (v4v_ringbuf_insertv, the ring tables, v4v_fill_ring_data, viptables). Of
-- windows/xenv4v the reads of streams, the dispatch of reads, ioctls other than the bind, the
-- listener's queue and its accepts, the reference counts of contexts, the work items of send.c, and
-- plug and play are left out; windows/xenutil and windows/xenevtchn, which give every driver of the
-- guest the hypervisor's bus and event channels, are left out as a whole.
pub mod Prelude
pub mod Abi
pub mod Ring
pub mod Errno
pub mod Xen
pub mod Driver
pub mod Windows
