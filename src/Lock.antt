-- ===== src/Lock.antt =====
-- ScopedLockImpl<CASLock> of chord/thread.h: one lock, and a guard of each thread on it. A step is
-- one atomic access to the flag or one assignment to a guard.
pub mod Exclusion
mod Tests
use chord_server.Prelude.{ℕ, Bool, true, false, ◌≡◌, ◌==◌, if◌then◌else◌}

-- Where a thread is: between calls without the lock or with it, in the loop of `CASLock::lock`,
-- behind that loop, or behind `CASLock::unlock`, with `m_locked` not yet assigned.
pub data Place : Type 0 where
  outside inside spinning acquired released : Place

-- `ScopedLockImpl`: its `m_locked`, and the place of its thread.
pub record Guard : Type 0 where
  pub locked : Bool
  pub place : Place

-- `CASLock`: its flag, with the guards.
pub record CasLock : Type 0 where
  pub flag : Bool
  pub guard : ℕ → Guard

-- `CASLock::CASLock`, and guards that hold nothing.
abbrev pub new_lock : CasLock
new_lock = record { flag = false; guard = λ i. record { locked = false; place = outside } }

abbrev pub set_guard : CasLock → ℕ → Guard → CasLock
set_guard s i g = record s { guard = λ j. if i == j then g else s.guard j }

-- `ScopedLockImpl::lock`, up to the loop.
unfoldable pub begin_lock : CasLock → ℕ → CasLock
begin_lock s i =
    let g = s.guard i in if g.locked then s else set_guard s i (record g { place = spinning })

-- One round of the loop of `CASLock::lock`: the flag is set, and the loop ends if it was not.
unfoldable pub test_and_set : CasLock → ℕ → CasLock
test_and_set s i =
    record (set_guard s i (record (s.guard i) { place = if s.flag then spinning else acquired })) {
      flag = true;
    }

-- `m_locked = true`
unfoldable pub mark : CasLock → ℕ → CasLock
mark s i = set_guard s i (record { locked = true; place = inside })

-- `ScopedLockImpl::unlock`, up to the flag's being cleared.
unfoldable pub begin_unlock : CasLock → ℕ → CasLock
begin_unlock s i =
    let g = s.guard i in
    if g.locked then record (set_guard s i (record g { place = released })) { flag = false } else s

-- `m_locked = false`
unfoldable pub unmark : CasLock → ℕ → CasLock
unmark s i = set_guard s i (record { locked = false; place = outside })

-- A thread between calls may call either function; in a call it goes on.
pub data Step (s : CasLock) (i : ℕ) : CasLock → Type 0 where
  locks : (s.guard i).place ≡ outside → Step s i (begin_lock s i)
  locks_again : (s.guard i).place ≡ inside → Step s i (begin_lock s i)
  tests : (s.guard i).place ≡ spinning → Step s i (test_and_set s i)
  marks : (s.guard i).place ≡ acquired → Step s i (mark s i)
  unlocks : (s.guard i).place ≡ inside → Step s i (begin_unlock s i)
  unlocks_again : (s.guard i).place ≡ outside → Step s i (begin_unlock s i)
  unmarks : (s.guard i).place ≡ released → Step s i (unmark s i)

-- The steps of all threads, in any order.
pub data Interleaves : CasLock → Type 0 where
  start : Interleaves new_lock
  step : {s t : CasLock} (i : ℕ) → Interleaves s → Step s i t → Interleaves t
