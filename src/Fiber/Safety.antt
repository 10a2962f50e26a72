-- ===== src/Fiber/Safety.antt =====
-- Whatever a thread does with its fibers.
use chord_server.Prelude.{
  ℕ, ◌<◌, true, false, ◌≡◌, refl, sym, subst, ap, ◌∙◌, Option, none, some, ◌==◌, arith, ==_iff,
  Bool-cases, inl, inr,
}
use chord_server.Fiber.{
  State, init, hold, exec, term, ready, except, same, unset, saved, Thread, Outcome, ok, is_idle,
  new_main, new_fiber, reset, destroy, swap_in, yield_to_ready, yield_to_hold, this_or_main,
  get_this,
}
use chord_server.Fiber.Switches.{Own, IsSound, entered, yielded, swap_in-entered, yield_as-yielded}

-- What the fiber that runs may do, but for what its callback does by itself.
pub data Act : Type 0 where
  creates : Option ℕ → ℕ → Act
  swaps_in destroys : ℕ → Act
  resets : ℕ → Option ℕ → Act
  yields_ready yields_hold : Act

unfoldable pub step : ℕ → Thread → Act → Outcome Thread
step size t (creates cb stacksize) = ok (new_fiber size t cb stacksize)
step size t (swaps_in i) = swap_in t i
step size t (destroys i) = destroy t i
step size t (resets i cb) = reset t i cb
step size t yields_ready = yield_to_ready t
step size t yields_hold = yield_to_hold t

-- The comments' rules: only the main fiber swaps in, and a fiber that exists; only another fiber
-- yields; and only a fiber that exists and is not under way is reset or destroyed.
abbrev pub Admits : Thread → Act → Type 0
Admits t (creates cb stacksize) = Unit
Admits t (swaps_in i) = (t.running ≡ 0) × (0 < i) × (i < t.next) × ((t.fiber i).gone ≡ false)
Admits t (destroys i) =
    (0 < i) × (i < t.next) × (is_idle (t.fiber i).state ≡ true) × ((t.fiber i).gone ≡ false)
Admits t (resets i cb) =
    (0 < i) × (i < t.next) × (is_idle (t.fiber i).state ≡ true) × ((t.fiber i).gone ≡ false)
Admits t yields_ready = 0 < t.running
Admits t yields_hold = 0 < t.running

-- The call returns, and the thread is sound again.
abbrev pub Continues : Outcome Thread → Type 0
Continues r = (t : Thread) × (r ≡ ok t) × IsSound t

pub entered-IsSound :
    (t : Thread) (i : ℕ) → IsSound t → t.running ≡ 0 → 0 < i → i < t.next → IsSound (entered t i)
entered-IsSound t i s r p n = record {
  main = s.main;
  this = refl;
  executes = λ j q. ground (arith, ==_iff i j, s.executes j q, r);
  contexts = λ j q m. elim (Bool-cases (i == j)) [
    | inl e ↦
        let z : (0 == j) ≡ false = ground arith in
        rw (z, e) (subst (λ k. Own j (t.fiber k).ctx) (sym ((==_iff i j).0 e)) (s.contexts j q m))
    | inr e ↦ let z : (0 == j) ≡ false = ground arith in rw (z, e) (s.contexts j q m)
  ];
  stacks = λ j q m. ground (arith, ==_iff i j, s.stacks j q m, s.stacks i p n);
  returns = λ _. ap saved r;
  runs = n;
}

yielded-IsSound :
    (state : State) (t : Thread)
    → same state exec ≡ false
    → IsSound t
    → 0 < t.running
    → IsSound (yielded state t)
yielded-IsSound state t h s p = record {
  main = s.main;
  this = s.main;
  executes = λ j q. ground (arith, ==_iff t.running j, s.executes j q, h);
  contexts = λ j q m. elim (Bool-cases (t.running == j)) [
    | inl e ↦ rw e ((==_iff t.running j).0 e)
    | inr e ↦ rw e (s.contexts j q m)
  ];
  stacks = λ j q m. ground (arith, ==_iff t.running j, s.stacks j q m, s.stacks t.running p s.runs);
  returns = λ q. absurd (omega arith);
  runs = omega (arith, s.runs);
}

new_fiber-IsSound :
    (size : ℕ) (t : Thread) (cb : Option ℕ) (stacksize : ℕ)
    → IsSound t
    → IsSound (new_fiber size t cb stacksize)
unfolding new_fiber
new_fiber-IsSound size t cb stacksize s = record {
  main = s.main;
  this = s.this;
  executes = λ j q. ground (arith, ==_iff t.next j, s.executes j q, s.runs);
  contexts = λ j q m. elim (Bool-cases (t.next == j)) [
    | inl e ↦ rw e ((==_iff t.next j).0 e)
    | inr e ↦ rw e (s.contexts j q (ground (arith, ==_iff t.next j)))
  ];
  stacks = λ j q m. ground (arith, ==_iff t.next j, s.stacks j q);
  returns = λ q. ground (arith, s.returns q, s.runs);
  runs = omega (arith, s.runs);
}

idle-exec : (s : State) → is_idle s ≡ true → same s exec ≡ false
idle-exec init h = refl
idle-exec hold h = refl
idle-exec exec h = absurd (ground arith)
idle-exec term h = refl
idle-exec ready h = refl
idle-exec except h = refl

reset-Continues :
    (t : Thread) (i : ℕ) (cb : Option ℕ)
    → IsSound t
    → 0 < i
    → i < t.next
    → is_idle (t.fiber i).state ≡ true
    → Continues (reset t i cb)
unfolding reset
reset-Continues t i cb s p n idle =
    let asleep : (t.running == i) ≡ false =
      sym (s.executes i p) ∙ idle-exec (t.fiber i).state idle in
    rw (s.stacks i p n, idle)
      (
        _,
        refl,
        record {
          main = s.main;
          this = s.this;
          executes = λ j q. ground (arith, ==_iff i j, s.executes j q, asleep);
          contexts = λ j q m. elim (Bool-cases (i == j)) [
            | inl e ↦ rw e ((==_iff i j).0 e)
            | inr e ↦ rw e (s.contexts j q m)
          ];
          stacks = λ j q m. ground (arith, ==_iff i j, s.stacks j q m);
          returns = λ q. ground (arith, s.returns q);
          runs = s.runs;
        },
      )

destroy-Continues :
    (t : Thread) (i : ℕ)
    → IsSound t
    → 0 < i
    → i < t.next
    → is_idle (t.fiber i).state ≡ true
    → Continues (destroy t i)
unfolding destroy
destroy-Continues t i s p n idle =
    rw (s.stacks i p n, idle)
      (
        _,
        refl,
        record {
          main = s.main;
          this = s.this;
          executes = λ j q. ground (arith, ==_iff i j, s.executes j q);
          contexts = λ j q m. elim (Bool-cases (i == j)) [
            | inl e ↦
                rw e (subst (λ k. Own k (t.fiber i).ctx) ((==_iff i j).0 e) (s.contexts i p n))
            | inr e ↦ rw e (s.contexts j q m)
          ];
          stacks = λ j q m. ground (arith, ==_iff i j, s.stacks j q m);
          returns = λ q. ground (arith, s.returns q);
          runs = s.runs;
        },
      )

-- On a sound thread every act by the rules returns and leaves the thread sound.
step-Continues :
    (size : ℕ) (t : Thread) (a : Act) → IsSound t → Admits t a → Continues (step size t a)
unfolding step yield_to_ready yield_to_hold
step-Continues size t (creates cb stacksize) s h =
    (_, refl, new_fiber-IsSound size t cb stacksize s)
step-Continues size t (swaps_in i) s (r, p, n, g) =
    (entered t i, swap_in-entered t i s r p n, entered-IsSound t i s r p n)
step-Continues size t (destroys i) s (p, n, idle, g) = destroy-Continues t i s p n idle
step-Continues size t (resets i cb) s (p, n, idle, g) = reset-Continues t i cb s p n idle
step-Continues size t yields_ready s h =
    (yielded ready t, yield_as-yielded ready t s h, yielded-IsSound ready t refl s h)
step-Continues size t yields_hold s h =
    (yielded hold t, yield_as-yielded hold t s h, yielded-IsSound hold t refl s h)

-- A thread that has called nothing yet, given the counters that other threads have moved.
abbrev pub new_thread : ℕ → ℕ → Thread
new_thread fiber_id fiber_count = record {
  fiber = λ i. record {
    id = 0;
    stacksize = 0;
    state = init;
    ctx = unset;
    has_stack = false;
    cb = none;
    gone = false;
  };
  next = 0;
  fiber_id = fiber_id;
  fiber_count = fiber_count;
  current = none;
  thread_fiber = none;
  running = 0;
}

-- The thread behind its first call of `GetThis`.
abbrev pub first_thread : ℕ → ℕ → Thread
first_thread fiber_id fiber_count =
    let t = new_thread fiber_id fiber_count in record (new_main t) { thread_fiber = some 0 }

pub data Runs (size : ℕ) (t : Thread) : Thread → Type 0 where
  here : Runs size t t
  next :
      {u v : Thread} (a : Act) → Runs size t u → Admits u a → step size u a ≡ ok v → Runs size t v

get_this-first :
    (fiber_id fiber_count : ℕ)
    → get_this (new_thread fiber_id fiber_count) ≡ ok (first_thread fiber_id fiber_count, 0)
unfolding get_this this_or_main new_main
get_this-first fiber_id fiber_count = refl

pub first_thread-IsSound : (fiber_id fiber_count : ℕ) → IsSound (first_thread fiber_id fiber_count)
unfolding new_main
first_thread-IsSound fiber_id fiber_count = record {
  main = refl;
  this = refl;
  executes = λ i p. ground arith;
  contexts = λ i p m. absurd (omega arith);
  stacks = λ i p m. absurd (omega arith);
  returns = λ p. absurd (omega arith);
  runs = omega arith;
}

abbrev OkSound : Outcome Thread → Type 0
OkSound (ok t) = IsSound t
OkSound _ = Unit

pub Runs-IsSound : {size : ℕ} {t u : Thread} → IsSound t → Runs size t u → IsSound u
Runs-IsSound s here = s
Runs-IsSound {size} s (next {u} a r h e) =
    let (v, e', w) = step-Continues size u a (Runs-IsSound s r) h in
    subst (λ (x : Outcome Thread). OkSound x) (sym e' ∙ e) w

-- A thread that has called `GetThis` first and then kept to the rules: its next act by the rules
-- returns, so no assertion fails, no null pointer is followed and only saved contexts are resumed;
-- and still the current fiber is the one that runs, and beside the main fiber exactly the one that
-- runs is in EXEC.
pub Runs-Continues :
    (fiber_id fiber_count size : ℕ) {t : Thread} (a : Act)
    → Runs size (first_thread fiber_id fiber_count) t
    → Admits t a
    → Continues (step size t a)
Runs-Continues fiber_id fiber_count size {t} a r h =
    step-Continues size t a (Runs-IsSound (first_thread-IsSound fiber_id fiber_count) r) h
