-- ===== src/Lib.antt =====
-- ququmatz, a Linux io_uring library without a runtime: its rings, and the requests that own
-- their buffers.
--
-- The program has a submission queue, which the program fills and the kernel empties, and a
-- completion queue the other way round, both in memory that the two share (src/ring/mod.rs). A ring
-- is used whole, by `IoUring`, or split in two halves, `Submitter` and `Completer`, which share the
-- descriptor and the mappings by a count of owners (src/ring/resources.rs). Blocking operations
-- push one entry and wait for its completion (src/ring/ops.rs). A pool of buffers from which the
-- kernel chooses is a third ring (src/ring/pbuf.rs). Over these stand the owned requests
-- (src/owned): a prepared request moves its buffer into a ticket when it is pushed, and only a
-- receipt made of its own terminal completion gives it back.
--
-- Base and its children: shared names, Boolean tests, lists, i32 values and u32 words.
-- Types, Error: src/types/sqe_cqe.rs, src/types/ring_ctrl.rs, src/error.rs; Types.Fs: src/types/fs.rs,
--   as far as requests read it.
-- Ring: the shared memory and the local fields of each half. Window: cells between two u32
--   positions. Syscall: src/syscall/mod.rs over a kernel that is a parameter.
-- Ring.Sq, Ring.Cq: the queues, `push`, `submit`, `complete`, `wait`; Sq.Queue and Cq.Unread view
--   them as lists.
-- Ring.Steps: the program and the kernel as interleaved steps, with the history of both queues.
-- Ring.Resources: `retain`, `release` and the setup guard. Ring.IoUring: `IoUring`, with `split`.
-- Ring.Kernel: the calls of a setup, as a parameter, with what their manual pages say of them; its
--   child Debt counts what a program still has to give back. Ring.Layout, Ring.NoMmap: the files of
--   these names. Ring.Setup: `IoUring::from_params`, by its stages. Ring.Builder: src/ring/builder.rs.
-- Ring.Ops: `run_one`; its loop is `await_tag`.
-- Ring.Pbuf: the pool, with its ledger, its tokens, its registration and its `drop`. Circulation
--   follows the buffers between the ring and their leases.
-- Ring.Register, Ring.Probe: src/ring/register.rs, src/ring/rsrc_tags.rs and src/ring/probe.rs, with
--   the arguments of src/types/napi.rs and src/types/cancel.rs in Types.Napi and Types.SyncCancel.
--   The kernel is a parameter, and an address in an argument is what it points at.
-- Op: the entry builders of src/op that the requests use.
-- Owned: src/owned/identity.rs and event.rs; Request, ZeroCopy, Queue, Slot, Multishot, Timeout and
--   FilesUpdate are the files of those names. Outcomes is about the last two. MsgRegion, Sendmsg and
--   Recvmsg are the messages, with a memory of whole values that the kernel follows pointers in;
--   StagedValue and Epoll the requests that stage one value, as Timeout does; StagedAddr, Bind and
--   Connect those that stage a socket address, in a memory of bytes. Path is the storage of a path,
--   in the same memory, which Path.Scan reads as the kernel does; PathOp, Open, Direct, Rename,
--   Link and Openat2 are the requests that name paths. Vectored, SendmsgZc, Cancel, Accept,
--   DirectAccept, Pipe and Futex are the files of those names. Queue.Requests has the push methods
--   of these, Queue.Kinds what each kind of request keeps to, and Queue.Cycle what follows for all of
--   them.
-- Types.RecvmsgOut: the buffers of a multishot `recvmsg`, in src/types/net.rs.
-- The modules named Tests: the properties at concrete inputs, those of a setup on Ring.Setup.Machine.
--
-- A position is a number below 2 ^ 32 and wraps; a queue has 2 ^ k cells, k at most 31, and a
-- position's cell is the position under the mask. The kernel and the shared memory are explicit
-- state, and each function returns the state it leaves. Memory that the program reads in one call
-- does not change during that call, unless the call enters the kernel; a call is one step where
-- interleavings matter. The loops of `run_one` and of `reap` run on fuel: one round more than the
-- unread entries to be passed over is enough. A usize has 64 bits where it wraps.
--
-- A setup runs on any kernel of which the manual pages are true: a call makes or undoes what it
-- returns and nothing else, and a mapping has a length. Pointers are the numbers of their bytes, of
-- which one has 8. A power of two is doubled at most 32 times, which reaches every u32.
--
-- The shared resources of a ring are an argument beside it and not one of its fields, since both
-- halves point at the same ones. A buffer of a request is of any type, and its address and length
-- are parameters. The push methods of the owned halves have one shape, which stands here once.
--
-- Not modelled: the status query of pools, the requests of src/owned that are
-- not named above, the entry builders that no modelled request uses, memory orderings of single
-- atomics, texts of errors, and the wrappers of files, sockets and notifications.
pub mod Base
pub mod Types
pub mod Error
pub mod Ring
pub mod Op
pub mod Owned
