-- ===== src/Lock/Tests.antt =====
-- Two threads on one lock.
use chord_server.Prelude.{true, ◌≡◌, refl}
use chord_server.Lock.{
  CasLock, new_lock, spinning, acquired, begin_lock, test_and_set, locks, tests, Interleaves, start,
  step,
}
use chord_server.Lock.Exclusion.{IsExclusive, Interleaves-IsExclusive}

-- Both call `lock`; the second one's round comes first, so the first one spins.
abbrev contended : CasLock
contended = test_and_set (test_and_set (begin_lock (begin_lock new_lock 0) 1) 1) 0

contended-Interleaves : Interleaves contended
unfolding begin_lock test_and_set
contended-Interleaves =
    step 0 (step 1 (step 1 (step 0 start (locks refl)) (locks refl)) (tests refl)) (tests refl)

Interleaves-IsExclusive_example : IsExclusive contended
Interleaves-IsExclusive_example = Interleaves-IsExclusive contended-Interleaves

contended_places :
    ((contended.guard 0).place ≡ spinning)
    × ((contended.guard 1).place ≡ acquired)
    × (contended.flag ≡ true)
unfolding begin_lock test_and_set
contended_places = (refl, refl, refl)
