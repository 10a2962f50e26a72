-- ===== src/Fiber/Tests.antt =====
-- A thread with one fiber beside its main one.
use chord_server.Prelude.{◌+◌, ◌==◌, if◌then◌else◌, false, ◌≡◌, refl, some, arith}
use chord_server.Fiber.{
  hold, ready, term, Thread, exits, new_main, new_fiber, yield_to_hold, yield_to_ready, finished,
  main_func, swap_in, total_fibers, get_fiber_id, u64,
}
use chord_server.Fiber.Switches.{entered, Ends, main_func-exits}
use chord_server.Fiber.Safety.{
  creates, swaps_in, step, Continues, first_thread, first_thread-IsSound, Runs, here, next,
  entered-IsSound, Runs-IsSound, Runs-Continues,
}
use chord_server.Fiber.Counts.{existing, Runs-counters}
use chord_server.Fiber.Turns.{Turns, swap_in-yield}

-- The callback 5 on a stack of the default size, 4096.
abbrev one_fiber : Thread
one_fiber = new_fiber 4096 (first_thread 0 0) (some 5) 0

one_fiber-Runs : Runs 4096 (first_thread 0 0) one_fiber
unfolding step
one_fiber-Runs = next (creates (some 5) 0) here tt refl

Runs-Continues_example : Continues (step 4096 one_fiber (swaps_in 1))
unfolding new_fiber new_main
Runs-Continues_example =
    Runs-Continues 0 0 4096 (swaps_in 1) one_fiber-Runs (refl, omega arith, omega arith, refl)

swap_in-yield_example :
    Turns one_fiber 1 hold yield_to_hold × Turns one_fiber 1 ready yield_to_ready
unfolding new_fiber new_main
swap_in-yield_example =
    swap_in-yield one_fiber 1 (Runs-IsSound (first_thread-IsSound 0 0) one_fiber-Runs) refl
      (omega arith) (omega arith) refl

main_func-exits_example :
    (u : Thread) × (main_func false (entered one_fiber 1) ≡ exits u)
    × Ends false (entered one_fiber 1) u
unfolding new_fiber new_main
main_func-exits_example = main_func-exits false (entered one_fiber 1) (
    entered-IsSound one_fiber 1 (Runs-IsSound (first_thread-IsSound 0 0) one_fiber-Runs) refl
      (omega arith) (omega arith))

-- The fiber that ran is in TERM, with its callback cleared.
finished_state : (finished false ((entered one_fiber 1).fiber 1)).state ≡ term
unfolding finished new_fiber new_main
finished_state = refl

-- The fiber that the switch resumes is the first one made, and two fibers exist.
in_fiber : Runs 4096 (first_thread 0 0) (entered one_fiber 1)
unfolding step new_fiber new_main swap_in
in_fiber = next (swaps_in 1) one_fiber-Runs (refl, omega arith, omega arith, refl) refl

Runs-counters_example :
    (total_fibers (entered one_fiber 1)
      ≡ u64 (0 + existing (entered one_fiber 1).next (entered one_fiber 1).fiber))
    × (get_fiber_id (entered one_fiber 1) ≡ (
        if (entered one_fiber 1).running == 0 then 0 else u64 (0 + (entered one_fiber 1).running)))
Runs-counters_example = Runs-counters 0 0 4096 in_fiber

two_fibers : total_fibers (entered one_fiber 1) ≡ 2
unfolding total_fibers new_fiber new_main
two_fibers = refl
