-- ===== src/Fiber/Counts.antt =====
-- The counters of fibers: TotalFibers, and the numbers that fibers get.
use chord_server.Prelude.{
  ℕ, zero, suc, ◌+◌, ◌-◌, ◌^◌, ◌<◌, true, false, ◌≡◌, refl, sym, subst, ◌∙◌, Option, ◌==◌,
  if◌then◌else◌, arith, ==_iff, Bool-cases, inl, inr,
}
use chord_server.Fiber.{
  State, ready, hold, Fiber, Thread, Outcome, ok, is_idle, new_main, new_fiber, reset, destroy,
  yield_to_ready, yield_to_hold, u64, set_fiber, total_fibers, id_of, get_fiber_id,
}
use chord_server.Fiber.Switches.{IsSound, entered, yielded, swap_in-entered, yield_as-yielded}
use chord_server.Fiber.Safety.{
  Act, creates, swaps_in, destroys, resets, yields_ready, yields_hold, step, Admits, first_thread,
  first_thread-IsSound, Runs, here, next, Runs-IsSound,
}

-- How many of the fibers at places below `n` still exist.
abbrev pub existing : ℕ → (ℕ → Fiber) → ℕ
existing zero fiber = 0
existing (suc n) fiber = (if (fiber n).gone then 0 else 1) + existing n fiber

existing-same :
    (n : ℕ) (f g : ℕ → Fiber)
    → ((j : ℕ) → j < n → (f j).gone ≡ (g j).gone)
    → existing n f ≡ existing n g
existing-same zero f g h = refl
existing-same (suc n) f g h =
    rw (h n (omega arith), existing-same n f g (λ j q. h j (omega (arith, q)))) refl

-- One fiber that exists and then does not.
existing-gone :
    (n i : ℕ) (f g : ℕ → Fiber)
    → i < n
    → (f i).gone ≡ false
    → (g i).gone ≡ true
    → ((j : ℕ) → (i == j) ≡ false → (g j).gone ≡ (f j).gone)
    → existing n f ≡ suc (existing n g)
existing-gone zero i f g p a b h = absurd (omega (arith, p))
existing-gone (suc n) i f g p a b h = elim (Bool-cases (i == n)) [
  | inl e ↦
      let same_place : i ≡ n = (==_iff i n).0 e in
      let before : existing n g ≡ existing n f =
        existing-same n g f (λ j q. h j (ground (arith, same_place, ==_iff i j))) in
      rw
        (
          before,
          subst (λ k. (f k).gone ≡ false) same_place a,
          subst (λ k. (g k).gone ≡ true) same_place b,
        )
        (omega arith)
  | inr e ↦
      let rest : existing n f ≡ suc (existing n g) =
        existing-gone n i f g (ground (arith, p, e, ==_iff i n)) a b h in
      rw (h n e) (omega (arith, rest))
]

-- The counters of a thread that found them at `fiber_id` and `fiber_count`.
pub record IsCounted (fiber_id fiber_count : ℕ) (t : Thread) : Type 0 where
  pub counts : t.fiber_count ≡ u64 (fiber_count + existing t.next t.fiber)
  pub last : u64 (t.fiber_id + 1) ≡ u64 (fiber_id + t.next)
  pub ids : (i : ℕ) → 0 < i → i < t.next → (t.fiber i).id ≡ u64 (fiber_id + i)
  pub main : (t.fiber 0).id ≡ 0
  pub started : 0 < t.next

first_thread-IsCounted :
    (fiber_id fiber_count : ℕ) → IsCounted fiber_id fiber_count (first_thread fiber_id fiber_count)
unfolding new_main
first_thread-IsCounted fiber_id fiber_count = record {
  counts = refl;
  last = refl;
  ids = λ i p q. absurd (omega (arith, p, q));
  main = refl;
  started = omega arith;
}

-- A thread with the same counters, whose fibers have the same numbers and exist as before.
abbrev SameCounts : Thread → Thread → Type 0
SameCounts t u =
    (u.fiber_id ≡ t.fiber_id)
    × (u.fiber_count ≡ t.fiber_count)
    × (u.next ≡ t.next)
    × ((j : ℕ) → ((u.fiber j).id ≡ (t.fiber j).id) × ((u.fiber j).gone ≡ (t.fiber j).gone))

-- The thread behind the destruction of the fiber at `i`.
abbrev destroyed : Thread → ℕ → Thread
destroyed t i =
    set_fiber (record t { fiber_count = u64 (t.fiber_count + (2 ^ 64 - 1)) }) i
      (record (t.fiber i) { gone = true })

destroy-destroyed :
    (t : Thread) (i : ℕ)
    → (t.fiber i).has_stack ≡ true
    → is_idle (t.fiber i).state ≡ true
    → destroy t i ≡ ok (destroyed t i)
unfolding destroy
destroy-destroyed t i s idle = rw (s, idle) refl

module _ (fiber_id fiber_count : ℕ) where
  abbrev pub Counted : Thread → Type 0
  Counted t = IsCounted fiber_id fiber_count t

  abbrev OkCounted : Outcome Thread → Type 0
  OkCounted (ok t) = Counted t
  OkCounted _ = Unit

  SameCounts-IsCounted : (t u : Thread) → SameCounts t u → Counted t → Counted u
  SameCounts-IsCounted t u (a, b, c, d) h = record {
    counts = rw (b, c, existing-same t.next u.fiber t.fiber (λ j _. (d j).1)) h.counts;
    last = rw (a, c) h.last;
    ids = λ i p q. (d i).0 ∙ h.ids i p (rw c at q);
    main = (d 0).0 ∙ h.main;
    started = rw c h.started;
  }

  new_fiber-IsCounted :
      (size : ℕ) (t : Thread) (cb : Option ℕ) (stacksize : ℕ)
      → Counted t
      → Counted (new_fiber size t cb stacksize)
  unfolding new_fiber
  new_fiber-IsCounted size t cb stacksize h = record {
    counts =
        let made : (t.next == t.next) ≡ true = (==_iff t.next t.next).1 refl in
        let others : existing t.next (new_fiber size t cb stacksize).fiber
            ≡ existing t.next t.fiber =
          existing-same t.next _ t.fiber (λ j q. ground (arith, ==_iff t.next j, q)) in
        rw (made, others) (omega (arith, h.counts));
    last = omega (arith, h.last);
    ids = λ i p q. elim (Bool-cases (t.next == i)) [
      | inl e ↦ rw e (omega (arith, h.last, (==_iff t.next i).0 e))
      | inr e ↦ rw e (h.ids i p (ground (arith, q, e, ==_iff t.next i)))
    ];
    main = ground (arith, h.main, h.started, ==_iff t.next 0);
    started = omega arith;
  }

  reset-IsCounted :
      (t : Thread) (i : ℕ) (cb : Option ℕ)
      → (t.fiber i).has_stack ≡ true
      → is_idle (t.fiber i).state ≡ true
      → Counted t
      → OkCounted (reset t i cb)
  unfolding reset
  reset-IsCounted t i cb s idle h =
      rw (s, idle) (SameCounts-IsCounted t _ (refl, refl, refl, λ j. ground (arith, ==_iff i j)) h)

  destroy-IsCounted :
      (t : Thread) (i : ℕ)
      → i < t.next
      → (t.fiber i).has_stack ≡ true
      → is_idle (t.fiber i).state ≡ true
      → (t.fiber i).gone ≡ false
      → Counted t
      → OkCounted (destroy t i)
  destroy-IsCounted t i n s idle g h =
      let self : (i == i) ≡ true = (==_iff i i).1 refl in
      let fewer : existing t.next t.fiber ≡ suc (existing t.next (destroyed t i).fiber) =
        existing-gone t.next i t.fiber (destroyed t i).fiber n g (rw self refl)
          (λ j e. rw e refl) in
      rw (destroy-destroyed t i s idle) (record {
        counts = omega (arith, h.counts, fewer);
        last = h.last;
        ids = λ j p q. ground (arith, ==_iff i j, h.ids j p q);
        main = ground (arith, ==_iff i 0, h.main);
        started = h.started;
      })

  yielded-IsCounted : (state : State) (t : Thread) → Counted t → Counted (yielded state t)
  yielded-IsCounted state t c =
      SameCounts-IsCounted t (yielded state t)
        (refl, refl, refl, λ j. ground (arith, ==_iff t.running j)) c

  step-IsCounted :
      (size : ℕ) (t : Thread) (a : Act)
      → IsSound t
      → Admits t a
      → Counted t
      → OkCounted (step size t a)
  unfolding step yield_to_ready yield_to_hold
  step-IsCounted size t (creates cb stacksize) s h c = new_fiber-IsCounted size t cb stacksize c
  step-IsCounted size t (swaps_in i) s (r, p, n, g) c = rw (swap_in-entered t i s r p n) (
      SameCounts-IsCounted t (entered t i)
        (refl, refl, refl, λ j. ground (arith, ==_iff 0 j, ==_iff i j)) c)
  step-IsCounted size t (destroys i) s (p, n, idle, g) c =
      destroy-IsCounted t i n (s.stacks i p n) idle g c
  step-IsCounted size t (resets i cb) s (p, n, idle, g) c =
      reset-IsCounted t i cb (s.stacks i p n) idle c
  step-IsCounted size t yields_ready s h c =
      rw (yield_as-yielded ready t s h) (yielded-IsCounted ready t c)
  step-IsCounted size t yields_hold s h c =
      rw (yield_as-yielded hold t s h) (yielded-IsCounted hold t c)

  pub Runs-IsCounted : {size : ℕ} {t u : Thread} → IsSound t → Counted t → Runs size t u → Counted u
  Runs-IsCounted s c here = c
  Runs-IsCounted {size} s c (next {u} a r h e) =
      subst (λ (x : Outcome Thread). OkCounted x) e
        (step-IsCounted size u a (Runs-IsSound s r) h (Runs-IsCounted s c r))

-- Behind any acts by the rules of a thread that called GetThis first, with no other thread making
-- or destroying fibers meanwhile: TotalFibers answers, up to a multiple of 2 ^ 64, how many of the
-- thread's fibers exist more than the counter said before; GetFiberId answers zero while the main
-- fiber runs, and otherwise the place of the fiber that runs in the order of making, counted on
-- from the counter of numbers, up to such a multiple.
pub Runs-counters :
    (fiber_id fiber_count size : ℕ) {t : Thread}
    → Runs size (first_thread fiber_id fiber_count) t
    → (total_fibers t ≡ u64 (fiber_count + existing t.next t.fiber))
      × (get_fiber_id t ≡ (if t.running == 0 then 0 else u64 (fiber_id + t.running)))
unfolding total_fibers get_fiber_id id_of
Runs-counters fiber_id fiber_count size {t} r =
    let first = first_thread fiber_id fiber_count in
    let s = Runs-IsSound (first_thread-IsSound fiber_id fiber_count) r in
    let c =
      Runs-IsCounted fiber_id fiber_count (first_thread-IsSound fiber_id fiber_count)
        (first_thread-IsCounted fiber_id fiber_count) r in
    (
      c.counts,
      rw s.this (elim (Bool-cases (t.running == 0)) [
        | inl e ↦ rw e (subst (λ i. (t.fiber i).id ≡ 0) (sym ((==_iff t.running 0).0 e)) c.main)
        | inr e ↦ rw e (c.ids t.running (ground (arith, e, ==_iff t.running 0)) s.runs)
      ]),
    )
