-- ===== src/Tests/Switch.antt =====
-- Context switches of src/bpf/imperator.bpf.c at concrete inputs.
use scx_imperator.Common.{◌+◌, refl, arith, none, some, update, ◌^◌, ◌≡◌, test_bit, true, false}
use scx_imperator.Intf.{get_tier}
use scx_imperator.State.{World}
use scx_imperator.Switch.{imperator_running, imperator_stopping}
use scx_imperator.Switch.Stale.{imperator_stopping_unstamped}
use scx_imperator.Switch.Masks.{Running, Switches, start, run, MasksExact, Switches-MasksExact}
use scx_imperator.Tests.Data.{task, task-IsWf, rodata, world}

-- No CPU is marked yet; CPU 5 then runs task 7.
abbrev idle_world : World
idle_world = record world { tier_cpu_mask = λ _. 0 }

abbrev after_run : World
after_run = imperator_running rodata 5 9000 7 idle_world

abbrev running : Running
running = update (λ _. none) 5 (some (get_tier task.packed_info))

one_run : Switches rodata after_run running
one_run = run 5 9000 7 task (start idle_world (λ tier. refl)) (omega arith) refl refl task-IsWf

after_run-MasksExact : MasksExact after_run running
after_run-MasksExact = Switches-MasksExact rodata after_run running one_run

-- CPU 5 runs task 7 from the instant at which the low 32 bits of the time start again.
imperator_stopping_unstamped_example :
    let w' = imperator_running rodata 5 (2 ^ 32) 7 idle_world in
    let w'' = imperator_stopping rodata false 5 (2 ^ 32 + 9000) (2 ^ 32 + 9001) 7 w' in
    (w'' ≡ w')
    × (test_bit (w''.tier_cpu_mask (get_tier task.packed_info)) 5 ≡ true)
    × ¬ MasksExact w'' (λ _. none)
imperator_stopping_unstamped_example =
    imperator_stopping_unstamped rodata 5 (2 ^ 32) 7 idle_world task (omega arith) refl task-IsWf
      false (2 ^ 32 + 9000) (2 ^ 32 + 9001) (λ _. none) (omega arith) refl
