-- ===== src/Fiber.antt =====
-- Fiber of chord/fiber.h and chord/fiber.cpp: one thread, its fibers as objects on a store, the
-- thread-local pointers, the counters, and the switches between contexts. What is logged is left
-- out.
pub mod Switches
pub mod Safety
pub mod Turns
pub mod Counts
mod Tests
use chord_server.Prelude.{
  ℕ, suc, ◌+◌, ◌-◌, ◌%◌, ◌^◌, Bool, true, false, not, ◌||◌, Option, none, some, ◌==◌, if◌then◌else◌,
}

-- `enum State`
pub data State : Type 0 where
  init hold exec term ready except : State

abbrev pub same : State → State → Bool
same init init = true
same hold hold = true
same exec exec = true
same term term = true
same ready ready = true
same except except = true
same _ _ = false

-- What `m_ctx` holds: nothing, what `getcontext` has read, a start of MainFunc on the stack of a
-- fiber, or the point where `swapcontext` left a fiber's stack.
pub data Context : Type 0 where
  unset got : Context
  starts saved : ℕ → Context

-- `class Fiber`; a callback is named by a number, and an empty one is `none`. `gone` says that the
-- object has been destroyed.
pub record Fiber : Type 0 where
  pub id : ℕ
  pub stacksize : ℕ
  pub state : State
  pub ctx : Context
  pub has_stack : Bool
  pub cb : Option ℕ
  pub gone : Bool

-- The thread: `t_fiber`, `t_threadFiber`, the counters `s_fiber_id` and `s_fiber_count`, and the
-- fiber on whose stack the processor runs.
pub record Thread : Type 0 where
  pub fiber : ℕ → Fiber
  pub next : ℕ
  pub fiber_id : ℕ
  pub fiber_count : ℕ
  pub current : Option ℕ
  pub thread_fiber : Option ℕ
  pub running : ℕ

-- A call returns, fails an assertion, follows a null pointer, resumes a context that nobody has
-- saved, or ends the thread.
pub data Outcome {ℓ} (A : Type ℓ) : Type ℓ where
  ok exits : A → Outcome A
  aborted null_pointer stray : Outcome A

infixl 5 ◌>>=◌
abbrev pub ◌>>=◌ {ℓ κ} : {A : Type ℓ} {B : Type κ} → Outcome A → (A → Outcome B) → Outcome B
ok a >>= f = f a
exits a >>= f = aborted
aborted >>= f = aborted
null_pointer >>= f = null_pointer
stray >>= f = stray

-- CHORD_ASSERT
abbrev pub check {ℓ} : {A : Type ℓ} → Bool → Outcome A → Outcome A
check b rest = if b then rest else aborted

abbrev pub set_fiber : Thread → ℕ → Fiber → Thread
set_fiber t i f = record t { fiber = λ j. if i == j then f else t.fiber j }

-- `SetThis`
abbrev pub set_this : Thread → Option ℕ → Thread
set_this t f = record t { current = f }

abbrev pub u64 : ℕ → ℕ
u64 n = n % 2 ^ 64

-- `Fiber::Fiber()`: the fiber of a thread's own stack, at the next free place.
unfoldable pub new_main : Thread → Thread
new_main t =
    set_fiber
      (record t { current = some t.next; next = suc t.next; fiber_count = u64 (t.fiber_count + 1) })
      t.next
      (record {
        id = 0;
        stacksize = 0;
        state = exec;
        ctx = got;
        has_stack = false;
        cb = none;
        gone = false;
      })

-- `Fiber::Fiber(cb, stacksize)`, given the value of `g_fiber_stack_size`; `m_stacksize` has 32
-- bits. Allocating the stack is taken to succeed.
unfoldable pub new_fiber : ℕ → Thread → Option ℕ → ℕ → Thread
new_fiber default_size t cb stacksize =
    set_fiber
      (record t {
        next = suc t.next;
        fiber_id = u64 (t.fiber_id + 1);
        fiber_count = u64 (t.fiber_count + 1);
      })
      t.next
      (record {
        id = u64 (t.fiber_id + 1);
        stacksize = (if stacksize == 0 then default_size else stacksize) % 2 ^ 32;
        state = init;
        ctx = starts t.next;
        has_stack = true;
        cb = cb;
        gone = false;
      })

-- `t_fiber == this`
abbrev pub points_to : Option ℕ → ℕ → Bool
points_to none i = false
points_to (some j) i = j == i

abbrev pub is_none : Option ℕ → Bool
is_none none = true
is_none (some i) = false

abbrev pub is_idle : State → Bool
is_idle s = same s init || (same s term || same s except)

-- `Fiber::~Fiber`, for the fiber at `i`. The second assertion of the main branch is
-- `m_state = EXEC`: it assigns, and EXEC is not zero.
unfoldable pub destroy : Thread → ℕ → Outcome Thread
destroy t i =
    let f = t.fiber i in
    let counted = record t { fiber_count = u64 (t.fiber_count + (2 ^ 64 - 1)) } in
    let assigned = set_fiber counted i (record f { state = exec; gone = true }) in
    if f.has_stack
    then check (is_idle f.state) (ok (set_fiber counted i (record f { gone = true })))
    else check (is_none f.cb)
        (ok (if points_to t.current i then set_this assigned none else assigned))

-- `Fiber::reset`
unfoldable pub reset : Thread → ℕ → Option ℕ → Outcome Thread
reset t i cb =
    let f = t.fiber i in
    check f.has_stack (
      check (is_idle f.state)
        (ok (set_fiber t i (record f { cb = cb; ctx = starts i; state = init }))))

-- The processor goes on with a context.
unfoldable pub resume : Thread → Context → Outcome Thread
resume t unset = stray
resume t got = stray
resume t (starts i) = ok (record t { running = i })
resume t (saved i) = ok (record t { running = i })

-- `swapcontext(&from->m_ctx, &to->m_ctx)`: what runs is saved, then `to` is resumed.
unfoldable pub swap_context : Thread → ℕ → ℕ → Outcome Thread
unfolding resume
swap_context t from to =
    let left = set_fiber t from (record (t.fiber from) { ctx = saved t.running }) in
    resume left (left.fiber to).ctx

-- The switch out of `t_threadFiber`, or into it, which must not be null.
unfoldable pub from_main : Thread → Option ℕ → ℕ → Outcome Thread
from_main t none to = null_pointer
from_main t (some main) to = swap_context t main to

unfoldable pub to_main : Thread → ℕ → Option ℕ → Outcome Thread
to_main t from none = null_pointer
to_main t from (some main) = swap_context t from main

-- `Fiber::swapIn`
unfoldable pub swap_in : Thread → ℕ → Outcome Thread
unfolding from_main swap_context
swap_in t i =
    let f = t.fiber i in
    check (not (same f.state exec))
      (from_main (set_fiber (set_this t (some i)) i (record f { state = exec })) t.thread_fiber i)

-- `Fiber::swapOut`
unfoldable pub swap_out : Thread → ℕ → Outcome Thread
unfolding to_main swap_context
swap_out t i = to_main (set_this t t.thread_fiber) i t.thread_fiber

unfoldable pub this_or_main : Thread → Option ℕ → Outcome (Thread × ℕ)
unfolding new_main
this_or_main t (some i) = ok (t, i)
this_or_main t none =
    let made = new_main t in
    check (points_to made.current t.next) (ok (record made { thread_fiber = some t.next }, t.next))

-- `Fiber::GetThis`
unfoldable pub get_this : Thread → Outcome (Thread × ℕ)
unfolding this_or_main
get_this t = this_or_main t t.current

unfoldable pub yield_as : State → Thread → Outcome Thread
unfolding get_this swap_out
yield_as state t = do
  (t', cur) ← get_this t
  swap_out (set_fiber t' cur (record (t'.fiber cur) { state = state })) cur

-- `Fiber::YieldToReady`
unfoldable pub yield_to_ready : Thread → Outcome Thread
unfolding yield_as
yield_to_ready t = yield_as ready t

-- `Fiber::YieldToHold`
unfoldable pub yield_to_hold : Thread → Outcome Thread
unfolding yield_as
yield_to_hold t = yield_as hold t

-- What is left of a fiber when `m_cb()` has returned, or thrown; an empty callback throws.
unfoldable pub finished : Bool → Fiber → Fiber
finished throws f =
    if throws || is_none f.cb
    then record f { state = except }
    else record f { cb = none; state = term }

-- `Fiber::MainFunc` from where its callback ends. It returns with `uc_link` null, which ends the
-- thread.
unfoldable pub main_func : Bool → Thread → Outcome Thread
unfolding get_this finished
main_func throws t = do
  (t', cur) ← get_this t
  exits (set_fiber t' cur (finished throws (t'.fiber cur)))

-- `Fiber::GetFiberId`
unfoldable pub id_of : Thread → Option ℕ → ℕ
id_of t none = 0
id_of t (some i) = (t.fiber i).id

unfoldable pub get_fiber_id : Thread → ℕ
unfolding id_of
get_fiber_id t = id_of t t.current

-- `Fiber::TotalFibers`
unfoldable pub total_fibers : Thread → ℕ
total_fibers t = t.fiber_count
