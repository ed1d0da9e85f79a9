-- ===== src/Lib.antt =====
-- scx_imperator: the BPF side of the scheduler, the C code of src/bpf, modelled and verified.
--
-- The program is a sched_ext scheduler. The kernel calls it when a task is woken, queued, run,
-- stopped and at every timer tick. Each task has a context of one cache line, with a tier from T0
-- (critical) to T3 (bulk), which a stop recomputes from the runtime of the task. A queued task goes
-- into the queue of its last-level cache, ordered by a deadline that its tier gives. The tick
-- preempts tasks whose slice is used up or that starve others. Futex probes mark lock holders, whom
-- the tick spares for a while and the deadline favours.
--
-- The files, and the code that each one models:
--   Common        casts, shifts and bit operations of C, with their laws at variables
--   Compat        src/bpf/bpf_compat.h: the De Bruijn bit scans (imperator_ctz64, imperator_ctz32)
--   Intf          src/bpf/intf.h: tiers, flags, the packed words and the fused configuration
--   State         src/bpf/intf.h and the globals of src/bpf/imperator.bpf.c: the records of the
--                 state, the kernel's constants, the calls into the kernel, and the counters that
--                 README.md says always read 0 (Counters)
--   Task          alloc_task_ctx_cold, get_task_ctx, imperator_enable (Alloc), imperator_init_task
--                 (InitTask), and the well-formedness of a context
--   Deadline      tier_deadline
--   Reclassify    reclassify_task_cold
--   Tick          imperator_tick, with its labels as an enumeration, the slice check before the
--                 starvation check (Unreached), and the backoff of the latter (Saturation)
--   Enqueue       imperator_enqueue: the sleep recovery (Recovery), the burst credit (Burst), the
--                 tier boosts (Boost), the kick (Kick), the paths and the insertion (Enqueue), and
--                 the order of the deadlines (Aging, Ahead)
--   Lock          src/bpf/lock.bpf.c
--   Switch        imperator_running and imperator_stopping, over both the CPU masks (Masks), and a
--                 run that is stamped with 0 (Stale)
--   Init          imperator_init
--   Dispatch      imperator_dispatch: the order of the queues as specification (Spec), the steal mask
--                 and its scan (Scan, Refine, Order), what has been tried (Tried, Work)
--   SelectCpu     imperator_select_cpu with consume_irq_wake_get_tier_slice, and the search for a
--                 P-core (Hint)
--   System        all callbacks and probes as steps of one machine, in any order; in Runs also the
--                 context switches of the kernel, with the task that each CPU runs, to which Tiers,
--                 Roster, Exact and Kicks relate the CPU masks and the kick; in Counters
--                 the counters of the code that does not act; in Race an enqueue between the
--                 two halves of a dispatch
--   Tests         the models at concrete inputs
--
-- State and operations. A callback is a function from the global arrays (World), the constants of
-- the loader (Rodata) and what the kernel answers during the call (a record per callback) to the new
-- World and the list of its calls into the kernel, in order (Outcome). The task storage is a function
-- from a task to an optional context. Numbers are natural numbers with the wrap-around of their
-- width written out; `-` stops at 0, so a wrapping difference adds 2 ^ w first. A callback is one
-- step: its stores by atomic instructions and relaxed accesses are plain reads and writes, and other
-- CPUs do not run in between. A store that is left out when the value is there already is a store.
--
-- How the parts interact. imperator_select_cpu either inserts a task at an idle CPU or leaves it
-- to imperator_enqueue, to which it speaks by the interrupt flag of the context. imperator_enqueue
-- and imperator_dispatch share the queues of the LLCs, which the kernel keeps, and the flags which
-- say that a queue is not empty. imperator_init comes before all others and makes the masks by
-- which a kick finds a CPU of an LLC, and imperator_running and imperator_stopping those by which
-- it finds one that runs a lower tier. In Runs a task is prepared, enabled, woken and queued only
-- while no CPU runs it; that no run is stamped at a time whose low 32 bits are 0 is a condition of
-- its own there (NonzeroClock). In System the number of waiting tasks of a queue may grow only by an
-- insertion that a callback makes, and a dispatch is told that number.
--
-- Code that does not act. By README.md the kernel passes SCX_ENQ_PREEMPT to no imperator_enqueue,
-- calls nothing at an exec, and loads no futex probe by default, and the slice check of the tick comes
-- before its starvation check in each profile. The burst credit, the reset at an exec, the probes and
-- the starvation preemption are modelled as they are written.
--
-- Bounds of loops. The loops over CPU and LLC masks run on the bound of their source: 64 in
-- imperator_select_cpu, one round for each bit of the mask, and the number of LLCs in
-- imperator_dispatch, one round for each LLC that can be marked. The other loops are over lists or
-- fixed numbers of bits: the bit scans search at most 64 or 32 bits, and the population count 8.
--
-- Not modelled: imperator_exit, which records the exit information by a macro of other headers;
-- the interleaving of callbacks of different CPUs, but for the one in System/Race; the loader, the
-- calibration and the terminal interface in Rust, which do I/O; the scripts; the padding of
-- structures; memory barriers. The kernel's functions are either calls that are recorded, or
-- answers that are arguments; its constants are arguments (Kernel). A CPU number of -1 is the
-- absence of one.
pub mod Common
pub mod Compat
pub mod Intf
pub mod State
pub mod Task
pub mod Deadline
pub mod Reclassify
pub mod Tick
pub mod Enqueue
pub mod Lock
pub mod Switch
pub mod Init
pub mod Dispatch
pub mod SelectCpu
pub mod System
pub mod Tests
