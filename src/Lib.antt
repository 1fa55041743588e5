-- ===== src/Lib.antt =====
-- fisslock_BMv2_java: in-network locks, the host's side.
--
-- A switch keeps the state of its locks and grants them; the first host that gets a lock becomes
-- its agent, keeps its holders and its wait queue, and gives the role up when it frees the lock
-- or transfers it to a waiter's host. Locks beyond the switch's range are managed by a host
-- alone.
--
-- lib/post.h, lib/post.c, lib/lock.h: Post. A packet is a record of its headers and its wait
-- queue entries; the send_post_* functions return what goes out (Sent). Post.Modes is about the
-- mode byte.
--
-- lib/lock.cc: Lock. Lock.State has the record InnetLock (innet_lock) and the helpers on it,
-- Lock.Lm the two functions of a lock manager, Lock.Acquire, Lock.Grant, Lock.Release and
-- Lock.Packets the cases of lock_packet_process, whose result is an Outcome (the lock, the
-- packet, what was sent, the return value). Whether a returned packet goes out depends on the
-- network layer (Outcome.goes_on): lib/net.cc sends it, lib/bmv2/bmv2_net.cc drops it. Two fields
-- follow the buffers of fixed size: Packet's room, the bytes that a packet's buffer has behind
-- the lock header, and InnetLock's overrun, which is no field of the source and marks a lock once
-- the code has written beyond its array of 1024 handles (lock_digest_wq) or beyond a packet's
-- buffer (lock_transfer_helper); of a lock with the mark the model says nothing. Lock.Client and
-- Lock.Unlock have the calls of applications, and Lock.Table the lock table: two maps of
-- pointers, places in a store, so that sharing is seen. The proofs stand beside: Lock.Digest,
-- Lock.Manager (a step relation of remote and local clients of a lock manager, who ask only when
-- they neither own the lock nor wait for it and release only what they own; tests/txnbench.cc
-- also releases locks that it still waits for, and Lock.Tests.Managing shows what comes of it),
-- Lock.Roles (what the agent's flag says), Lock.PushBack (frees and transfers that the switch
-- refuses), Lock.Delays (packets out of order), Lock.Waiting, Lock.Table.Sharing.
--
-- baseline/ParLock: ParLock, lock servers on the hosts. ParLock.Queue has one lock's queue and
-- the table (lib/lock_queue.cc), ParLock.Server the handlers (lib/server.cc), ParLock.Client the
-- local calls (lib/client.cc), ParLock.Waits the flags of waiting requesters
-- (lib/coroutine_wait_queue.cc) and ParLock.Api the packet handlers and the calls (lib/lock.cc,
-- lib/net.cc). ParLock.System is a step relation of remote and local clients, ParLock.Dequeue,
-- ParLock.Local and ParLock.Flags have the other proofs. The policy is PARLOCK_READER_FIRST,
-- without PARLOCK_ENQUEUE_HOLDERS, as utils/conf.h says; ParLock.Fifo and its children are about
-- the other policy, first come, first served.
--
-- baseline/NetLock: NetLock, a lock server behind a switch that holds the heads of the queues.
-- NetLock.Queue has the nodes, one lock's queue and the table (lib/request.cc), NetLock.Server
-- the handlers of the primary role and NetLock.Dispatch those of the secondary and the dispatch
-- (lib/lock_server.cc), NetLock.Wire the frames (lib/net.cc, lib/post.h), NetLock.Client the
-- calls of an application (lib/lock.cc), NetLock.Waits the flags (lib/coroutine_wait_queue.cc),
-- NetLock.Main the set-up and the receive loop (server/main.cc). NetLock.System is a step
-- relation of one lock with its clients; NetLock.Backup, NetLock.Frames, NetLock.Grants and
-- NetLock.Stray have the other proofs. Here holders stay in the queue until they release.
--
-- rpc/main.cc: Recovery, the registry of locks and the coordinator of a recovery.
-- Recovery.Registering is about the numbers of locks, Recovery.Holders about what is collected
-- and given back, Recovery.Ready about the answer of recovery_ready. The host's part is
-- lib/lock.cc's integrity_check (Recovery.Host, Recovery.Integrity) and lib/fault.cc;
-- Recovery.Restoring runs it against the coordinator, Recovery.Failed is about the entries of a
-- failed host.
--
-- lib/bmv2: Bmv2, the network layer beside a BMv2 switch (lib/bmv2/bmv2_net.cc). Bmv2.Frame has
-- the sending half, on frames that are lists of bytes, and Bmv2.Pcap the dispatch table and the
-- polling of the capture files. Bmv2.Checksums is about the loops over words, Bmv2.Building about
-- the frame of a post, Bmv2.Delivery about what is sent and received, Bmv2.Scans, Bmv2.Growth and
-- Bmv2.Polling about files that grow; a poll reads one state of the files. checksum_fold runs on
-- a fuel of 3, which is enough for any positive sum of 32 bits
-- (Bmv2.Checksums.checksum_fold_ends). What libpcap answers is an argument: whether an interface
-- opens, whether a packet is injected, and which packets a file has. Bmv2.Host has the calls of
-- lib/bmv2/fisslock_host_api.cc over those of Lock, and Bmv2.Abandoned is about an attempt that
-- runs out of time; what other threads do between its questions is a list of functions.
--
-- experiments/trace_gen/tpcc_trace_gen: Tpcc. Tpcc.Draws has the state of the generator
-- (tpcc_lock_gen.h), with the numbers of rand_r as a function of the draw, and Tpcc.Generator the
-- transactions as functions of the state (tpcc_lock_gen.cc). Tpcc.Ownership, Tpcc.Transactions
-- and Tpcc.Traces tell whose locks they ask for, by the test that lib/lock.cc has for TPCC. The
-- two loops that draw again run on fuel, since only the numbers decide when they end; a run that
-- spends it is `stuck`, and keeps what it had asked for.
--
-- Base has the tests on numbers, and lists, sets and association lists with their lemmas.
--
-- A handler runs under the mutex of its lock, so it is one step. The wait for a grant is the busy
-- loop that utils/conf.h selects. FISSLOCK_BMV2 and TPCC_ENB_LOCAL are fields of Conf;
-- FISSLOCK_FAILURE_RECOVERY is off, as utils/conf.h leaves it. Assertions are compiled out. The
-- application's packet modifier and preprocessor are parameters, the registry's answer to
-- lock_init is an argument, and addresses and the content of an uninitialised variable are
-- arguments of lock_acquire. Numbers are natural numbers, cut where the source narrows them: 32
-- bits for ncnt and wq_size, 8 for the packet's ncnt, 30 for a waiter's task.
--
-- Not modelled: timers, counters and logs, which decide nothing; sockets, DPDK and libpcap; the
-- switch itself (P4); the benchmarks and the TATP trace generator.
--
-- The daemon's answer to RPC_CHECK_HOLDER is a parameter of integrity_check, and its repeated
-- answers are lists; an undefined step, such as the use of an iterator to an erased element,
-- gives none.
--
-- The loop of dequeue_shared_requests runs on a bound, the length of the queue, which its theorem
-- shows to be enough.
pub mod Base
pub mod Bmv2
pub mod Post
pub mod Lock
pub mod NetLock
pub mod ParLock
pub mod Recovery
pub mod Tpcc
