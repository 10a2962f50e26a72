-- ===== src/Lock/Exclusion.antt =====
-- Mutual exclusion under CASLock.
use chord_server.Prelude.{
  ℕ, Bool, true, false, ◌≡◌, refl, sym, ◌∙◌, ◌==◌, if◌then◌else◌, arith, ==_iff, Bool-cases, inl,
  inr,
}
use chord_server.Lock.{
  Place, inside, spinning, acquired, released, Guard, CasLock, new_lock, set_guard, begin_lock,
  test_and_set, mark, begin_unlock, unmark, Step, locks, locks_again, tests, marks, unlocks,
  unlocks_again, unmarks, Interleaves, start, step,
}

-- The thread has passed the loop and not cleared the flag.
abbrev pub holds : Place → Bool
holds acquired = true
holds inside = true
holds _ = false

abbrev pub is_marked : Place → Bool
is_marked inside = true
is_marked released = true
is_marked _ = false

-- At most one thread holds the lock, and one does exactly if the flag is set; a guard is marked
-- from behind its thread's entry till behind its exit.
pub record IsExclusive (s : CasLock) : Type 0 where
  pub only : (i j : ℕ) → holds (s.guard i).place ≡ true → holds (s.guard j).place ≡ true → i ≡ j
  pub sets : (i : ℕ) → holds (s.guard i).place ≡ true → s.flag ≡ true
  pub someone : s.flag ≡ true → (i : ℕ) × (holds (s.guard i).place ≡ true)
  pub marked : (i : ℕ) → (s.guard i).locked ≡ is_marked (s.guard i).place

-- A step that leaves the flag and who holds as they are.
same-IsExclusive :
    (s : CasLock) (i : ℕ) (g : Guard)
    → holds g.place ≡ holds (s.guard i).place
    → g.locked ≡ is_marked g.place
    → IsExclusive s
    → IsExclusive (set_guard s i g)
same-IsExclusive s i g h k x =
    let same : (j : ℕ) → holds ((set_guard s i g).guard j).place ≡ holds (s.guard j).place =
      λ j. ground (arith, ==_iff i j, h) in
    record {
      only = λ j l p q. x.only j l (sym (same j) ∙ p) (sym (same l) ∙ q);
      sets = λ j p. x.sets j (sym (same j) ∙ p);
      someone = λ f. let (j, p) = x.someone f in (j, same j ∙ p);
      marked = λ j. ground (arith, ==_iff i j, k, x.marked j);
    }

acquire-IsExclusive :
    (s : CasLock) (i : ℕ)
    → (s.guard i).place ≡ spinning
    → s.flag ≡ false
    → IsExclusive s
    → IsExclusive (test_and_set s i)
unfolding test_and_set
acquire-IsExclusive s i e f x = record {
  only = λ j l p q. ground (arith, ==_iff i j, ==_iff i l, x.sets j, x.sets l, f);
  sets = λ j p. refl;
  someone = λ _. (i, ground (arith, ==_iff i i, f));
  marked = λ j. ground (arith, ==_iff i j, x.marked j, x.marked i, e, f);
}

spin-IsExclusive :
    (s : CasLock) (i : ℕ)
    → (s.guard i).place ≡ spinning
    → s.flag ≡ true
    → IsExclusive s
    → IsExclusive (test_and_set s i)
unfolding test_and_set
spin-IsExclusive s i e f x =
    let g : Guard = record (s.guard i) { place = if s.flag then spinning else acquired } in
    let y : IsExclusive (set_guard s i g) =
      same-IsExclusive s i g (rw (f, e)) (x.marked i ∙ rw (e, f)) x in
    record { only = y.only; sets = λ j p. refl; someone = λ _. y.someone f; marked = y.marked }

then_case : (b : Bool) (s t : CasLock) → b ≡ true → IsExclusive s → IsExclusive (if b then s else t)
then_case b s t e x = rw e x

else_case :
    (b : Bool) (s t : CasLock) → b ≡ false → IsExclusive t → IsExclusive (if b then s else t)
else_case b s t e x = rw e x

release-IsExclusive :
    (s : CasLock) (i : ℕ)
    → (s.guard i).place ≡ inside
    → IsExclusive s
    → IsExclusive (begin_unlock s i)
unfolding begin_unlock
release-IsExclusive s i e x = then_case _ _ s (x.marked i ∙ rw e refl) (record {
  only = λ j l p q. absurd (none_left j p);
  sets = λ j p. absurd (none_left j p);
  someone = λ f. ground arith;
  marked = λ j. ground (arith, ==_iff i j, x.marked j, x.marked i, e);
})
  where
    none_left :
        (j : ℕ)
        → holds (if i == j then record (s.guard i) { place = released } else s.guard j).place ≡ true
        → ⊥
    none_left j p = ground (arith, ==_iff i j, x.only i j, e)

Step-IsExclusive : (s : CasLock) (i : ℕ) {t : CasLock} → Step s i t → IsExclusive s → IsExclusive t
unfolding begin_lock test_and_set mark begin_unlock unmark
Step-IsExclusive s i (locks e) x =
    else_case _ s _ (x.marked i ∙ rw e refl) (same-IsExclusive s i _ (rw e) (x.marked i ∙ rw e) x)
Step-IsExclusive s i (locks_again e) x = then_case _ s _ (x.marked i ∙ rw e refl) x
Step-IsExclusive s i (tests e) x = elim (Bool-cases s.flag) [
  | inr f ↦ acquire-IsExclusive s i e f x
  | inl f ↦ spin-IsExclusive s i e f x
]
Step-IsExclusive s i (marks e) x = same-IsExclusive s i _ (rw e) refl x
Step-IsExclusive s i (unlocks e) x = release-IsExclusive s i e x
Step-IsExclusive s i (unlocks_again e) x = else_case _ _ s (x.marked i ∙ rw e refl) x
Step-IsExclusive s i (unmarks e) x = same-IsExclusive s i _ (rw e) refl x

new_lock-IsExclusive : IsExclusive new_lock
new_lock-IsExclusive = record {
  only = λ i j p q. ground arith;
  sets = λ i p. ground arith;
  someone = λ f. ground arith;
  marked = λ i. refl;
}

-- In every state that the threads reach by steps in any order, at most one thread is between the
-- end of its `lock` and the clearing of the flag by its `unlock`; the flag is set exactly if there
-- is such a thread, so a spinning thread waits only while another holds the lock; and a guard is
-- marked exactly from behind its thread's entry till behind its exit.
pub Interleaves-IsExclusive : {s : CasLock} → Interleaves s → IsExclusive s
Interleaves-IsExclusive start = new_lock-IsExclusive
Interleaves-IsExclusive (step {s} i r h) = Step-IsExclusive s i h (Interleaves-IsExclusive r)
