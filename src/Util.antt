-- ===== src/Util.antt =====
-- GetFiberId of chord/util.cpp, which the macros of the loggers call: the number of a fiber in 32
-- bits. GetThreadId is a system call, and the backtraces are in Backtrace.
use chord_server.Prelude.{
  ℕ, ◌+◌, ◌%◌, ◌^◌, ◌≤◌, ◌≡◌, ◌==◌, if◌then◌else◌, arith, Bool-cases, inl, inr,
}
use chord_server.Fiber.{Thread, u64}
use chord_server.Fiber
use chord_server.Fiber.Safety.{first_thread, first_thread-IsSound, Runs, Runs-IsSound}
use chord_server.Fiber.Counts.{Runs-counters}

-- `GetFiberId`: the number has 64 bits, and what is returned has 32.
unfoldable pub get_fiber_id : Thread → ℕ
get_fiber_id t = Fiber.get_fiber_id t % 2 ^ 32

-- While the numbers fit in 32 bits it answers zero on the main fiber, and on another one its place
-- in the order of making, counted on from the counter of numbers.
get_fiber_id-counts :
    (fiber_id fiber_count size : ℕ) {t : Thread}
    → Runs size (first_thread fiber_id fiber_count) t
    → fiber_id + t.next ≤ 2 ^ 32
    → get_fiber_id t ≡ (if t.running == 0 then 0 else fiber_id + t.running)
unfolding get_fiber_id
get_fiber_id-counts fiber_id fiber_count size {t} r h =
    let sound = Runs-IsSound (first_thread-IsSound fiber_id fiber_count) r in
    rw (Runs-counters fiber_id fiber_count size r).1 (elim (Bool-cases (t.running == 0)) [
      | inl e ↦ rw e (omega arith)
      | inr e ↦ rw e (omega (arith, h, sound.runs))
    ])
