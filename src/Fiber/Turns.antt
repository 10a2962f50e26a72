-- ===== src/Fiber/Turns.antt =====
-- One turn of a fiber: the main fiber swaps it in, and it yields.
use chord_server.Prelude.{
  ℕ, ◌<◌, true, false, ◌≡◌, refl, some, ◌==◌, if◌then◌else◌, arith, ==_iff, Bool-cases, inl, inr,
}
use chord_server.Fiber.{
  State, ready, hold, saved, Fiber, Thread, Outcome, ok, swap_in, yield_as, yield_to_ready,
  yield_to_hold,
}
use chord_server.Fiber.Switches.{IsSound, entered, yielded, swap_in-entered, yield_as-yielded}
use chord_server.Fiber.Safety.{entered-IsSound}

-- What a turn leaves at place `j`.
abbrev pub after_turn : Thread → ℕ → State → ℕ → Fiber
after_turn t i state j =
    if 0 == j
    then record (t.fiber 0) { ctx = saved 0 }
    else if i == j
    then record (t.fiber i) { state = state; ctx = saved i }
    else t.fiber j

turn-fiber :
    (t : Thread) (i j : ℕ) (state : State)
    → t.running ≡ 0
    → 0 < i
    → (yielded state (entered t i)).fiber j ≡ after_turn t i state j
turn-fiber t i j state r p =
    let self : (i == i) ≡ true = (==_iff i i).1 refl in
    let left : (i == 0) ≡ false = ground arith in
    let right : (0 == i) ≡ false = ground arith in
    elim (Bool-cases (i == j)) [
      | inl e ↦ let z : (0 == j) ≡ false = ground arith in rw (e, z) (rw self (rw right refl))
      | inr e ↦ elim (Bool-cases (0 == j)) [
        | inl z ↦ rw (e, z) (rw (left, r) refl)
        | inr z ↦ rw (e, z) refl
      ]
    ]

-- The fiber at `i` runs in `u`, and `v` is what its yield leaves.
abbrev pub Turns : Thread → ℕ → State → (Thread → Outcome Thread) → Type 0
Turns t i state yield =
    (u : Thread) × (v : Thread) × (swap_in t i ≡ ok u)
    × (u.running ≡ i)
    × (u.current ≡ some i)
    × (yield u ≡ ok v)
    × (v.running ≡ 0)
    × (v.current ≡ some 0)
    × ((j : ℕ) → v.fiber j ≡ after_turn t i state j)

turn :
    (state : State) (t : Thread) (i : ℕ)
    → IsSound t
    → t.running ≡ 0
    → 0 < i
    → i < t.next
    → Turns t i state (yield_as state)
turn state t i s r p n = (
  entered t i,
  yielded state (entered t i),
  swap_in-entered t i s r p n,
  refl,
  refl,
  yield_as-yielded state (entered t i) (entered-IsSound t i s r p n) p,
  refl,
  s.main,
  λ j. turn-fiber t i j state r p,
)

-- On a sound thread whose main fiber runs, swapping in a fiber that exists makes it run and be
-- the current one; its yield gives the thread back to the main fiber, which is current again; the
-- fiber is then in HOLD or READY, as the yield says, where a further switch finds it, and no fiber
-- but these two has changed.
pub swap_in-yield :
    (t : Thread) (i : ℕ)
    → IsSound t
    → t.running ≡ 0
    → 0 < i
    → i < t.next
    → (t.fiber i).gone ≡ false
    → Turns t i hold yield_to_hold × Turns t i ready yield_to_ready
unfolding yield_to_hold yield_to_ready
swap_in-yield t i s r p n exists = (turn hold t i s r p n, turn ready t i s r p n)
