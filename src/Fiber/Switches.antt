-- ===== src/Fiber/Switches.antt =====
-- What a switch does to a thread whose current fiber is the one that runs.
use chord_server.Prelude.{
  ℕ, ◌<◌, Bool, true, false, ◌||◌, ◌≡◌, refl, ap, ◌∙◌, none, some, if◌then◌else◌, ◌==◌, arith,
  ==_iff,
}
use chord_server.Fiber.{
  State, exec, same, Context, unset, got, starts, saved, Thread, ok, exits, set_fiber, set_this,
  resume, swap_context, from_main, to_main, swap_in, swap_out, this_or_main, get_this, yield_as,
  finished, main_func, is_none, except, term,
}

-- A context that goes on with the fiber at `i`.
abbrev pub Own : ℕ → Context → Type 0
Own i unset = ⊥
Own i got = ⊥
Own i (starts j) = j ≡ i
Own i (saved j) = j ≡ i

-- The main fiber is at place 0; the current fiber is the one that runs; a fiber but the main one is
-- in EXEC exactly if it runs, and its context goes on with it; and while another fiber runs, the
-- main fiber's context goes on with the main one.
pub record IsSound (t : Thread) : Type 0 where
  pub main : t.thread_fiber ≡ some 0
  pub this : t.current ≡ some t.running
  pub executes : (i : ℕ) → 0 < i → same (t.fiber i).state exec ≡ (t.running == i)
  pub contexts : (i : ℕ) → 0 < i → i < t.next → Own i (t.fiber i).ctx
  pub stacks : (i : ℕ) → 0 < i → i < t.next → (t.fiber i).has_stack ≡ true
  pub returns : 0 < t.running → (t.fiber 0).ctx ≡ saved 0
  pub runs : t.running < t.next

resume-Own :
    (t : Thread) (i : ℕ) (c : Context) → Own i c → resume t c ≡ ok (record t { running = i })
unfolding resume
resume-Own t i unset h = elim h [ ]
resume-Own t i got h = elim h [ ]
resume-Own t i (starts j) h = rw h refl
resume-Own t i (saved j) h = rw h refl

-- The thread behind a switch to the fiber at `i`.
abbrev pub switched : Thread → ℕ → ℕ → Thread
switched t from i = record (set_fiber t from (record (t.fiber from) { ctx = saved t.running })) {
  running = i;
}

swap_context-Own :
    (t : Thread) (from to : ℕ)
    → (from == to) ≡ false
    → Own to (t.fiber to).ctx
    → swap_context t from to ≡ ok (switched t from to)
unfolding swap_context
swap_context-Own t from to e h = rw e (
    resume-Own (set_fiber t from (record (t.fiber from) { ctx = saved t.running })) to
      (t.fiber to).ctx h)

abbrev pub chosen : Thread → ℕ → Thread
chosen t i = set_fiber (set_this t (some i)) i (record (t.fiber i) { state = exec })

-- The thread behind `swapIn` of the fiber at `i`, called by the main one.
abbrev pub entered : Thread → ℕ → Thread
entered t i = switched (chosen t i) 0 i

chosen-Own : (t : Thread) (i : ℕ) → Own i (t.fiber i).ctx → Own i ((chosen t i).fiber i).ctx
chosen-Own t i h = let self : (i == i) ≡ true = (==_iff i i).1 refl in rw self h

pub swap_in-entered :
    (t : Thread) (i : ℕ)
    → IsSound t
    → t.running ≡ 0
    → 0 < i
    → i < t.next
    → swap_in t i ≡ ok (entered t i)
unfolding swap_in from_main
swap_in-entered t i s r p n =
    let idle : same (t.fiber i).state exec ≡ false = s.executes i p ∙ rw r (ground arith) in
    rw idle (
      ap (λ m. from_main (chosen t i) m i) s.main
      ∙ swap_context-Own (chosen t i) 0 i (ground arith) (chosen-Own t i (s.contexts i p n)))

-- The thread behind a yield of the fiber that runs.
abbrev pub marked : State → Thread → Thread
marked state t = set_fiber t t.running (record (t.fiber t.running) { state = state })

abbrev pub yielded : State → Thread → Thread
yielded state t = switched (set_this (marked state t) t.thread_fiber) t.running 0

marked-Own :
    (state : State) (t : Thread)
    → (t.running == 0) ≡ false
    → (t.fiber 0).ctx ≡ saved 0
    → Own 0 ((marked state t).fiber 0).ctx
marked-Own state t e h = rw e (rw h refl)

swap_out-Own :
    (t : Thread) (from : ℕ)
    → t.thread_fiber ≡ some 0
    → (from == 0) ≡ false
    → Own 0 (t.fiber 0).ctx
    → swap_out t from ≡ ok (switched (set_this t t.thread_fiber) from 0)
unfolding swap_out to_main
swap_out-Own t from m e h =
    ap (to_main (set_this t t.thread_fiber) from) m
    ∙ swap_context-Own (set_this t t.thread_fiber) from 0 e h

get_this-running : (t : Thread) → IsSound t → get_this t ≡ ok (t, t.running)
unfolding get_this this_or_main
get_this-running t s = ap (this_or_main t) s.this

pub yield_as-yielded :
    (state : State) (t : Thread)
    → IsSound t
    → 0 < t.running
    → yield_as state t ≡ ok (yielded state t)
unfolding yield_as
yield_as-yielded state t s p =
    let other : (t.running == 0) ≡ false = ground arith in
    rw (get_this-running t s) (
      swap_out-Own (marked state t) t.running s.main other (marked-Own state t other (s.returns p)))

-- What the end of a callback leaves: the fiber that ran is in TERM with its callback cleared, or in
-- EXCEPT with its callback kept if it threw or there was none; the other fibers are as before, and
-- the processor is still on the stack of the fiber that ran, which is still the current one.
pub record Ends (throws : Bool) (t u : Thread) : Type 0 where
  pub state :
      (u.fiber t.running).state
      ≡ (if throws || is_none (t.fiber t.running).cb then except else term)
  pub cb :
      (u.fiber t.running).cb
      ≡ (if throws || is_none (t.fiber t.running).cb then (t.fiber t.running).cb else none)
  pub others : (j : ℕ) → (t.running == j) ≡ false → u.fiber j ≡ t.fiber j
  pub running : u.running ≡ t.running
  pub current : u.current ≡ some t.running

-- On a sound thread, when the callback of the fiber that runs ends, the fiber is in TERM with its
-- callback cleared, or in EXCEPT with its callback kept if it threw or there was none; no other
-- fiber changes; and the thread ends there: it resumes no context, the main fiber's neither.
pub main_func-exits :
    (throws : Bool) (t : Thread)
    → IsSound t
    → (u : Thread) × (main_func throws t ≡ exits u) × Ends throws t u
unfolding main_func finished
main_func-exits throws t s =
    let self : (t.running == t.running) ≡ true = (==_iff t.running t.running).1 refl in
    (
      set_fiber t t.running (finished throws (t.fiber t.running)),
      rw (get_this-running t s) refl,
      record {
        state = rw self (ground arith);
        cb = rw self (ground arith);
        others = λ j e. rw e refl;
        running = refl;
        current = s.this;
      },
    )
