-- ===== src/Tests.antt =====
-- Runs of the models at concrete inputs: src/bpf/imperator.bpf.c and src/bpf/lock.bpf.c with the
-- default configuration.
mod Data
mod Reclassify
mod Tick
mod Enqueue
mod Rest
mod Switch
mod Dispatch
mod SelectCpu
mod System
mod Counters
mod Runs
mod Converge
mod Ahead
mod Race
