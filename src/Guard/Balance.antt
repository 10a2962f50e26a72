-- ===== src/Guard/Balance.antt =====
-- A guard acquires and releases in turn.
use chord_server.Prelude.{Bool, true, false, ◌≡◌, refl, List, [], ◌∷◌, Option, some}
use chord_server.Guard.{
  Locking, GuardCall, locks, unlocks, ScopedLock, new_guard, lock, unlock, call, call_each, guarded,
}

-- When the thread may acquire a mutex, and when release it.
pub record Turns (k : Locking) : Type 1 where
  pub IsFree : k.Mutex → Type 0
  pub IsHeld : k.Mutex → Type 0
  pub acquires : (m : k.Mutex) → IsFree m → (o : k.Mutex) × (k.acquire m ≡ some o) × IsHeld o
  pub releases : (m : k.Mutex) → IsHeld m → (o : k.Mutex) × (k.release m ≡ some o) × IsFree o

module _ (k : Locking) (t : Turns k) where
  -- `m_locked` tells whether the mutex is held.
  abbrev Matches : Bool → k.Mutex → Type 0
  Matches true m = t.IsHeld m
  Matches false m = t.IsFree m

  abbrev IsBalanced : ScopedLock k → Type 0
  IsBalanced g = Matches g.locked g.mutex

  abbrev Serves : Option (ScopedLock k) → Type 0
  Serves r = (g : ScopedLock k) × (r ≡ some g) × IsBalanced g

  lock-Serves :
      (b : Bool) (m : k.Mutex) → Matches b m → Serves (lock k (record { mutex = m; locked = b }))
  unfolding lock
  lock-Serves true m h = (record { mutex = m; locked = true }, refl, h)
  lock-Serves false m h =
      let (o, e, held) = t.acquires m h in (record { mutex = o; locked = true }, rw e refl, held)

  unlock-Serves :
      (b : Bool) (m : k.Mutex)
      → Matches b m
      → (o : k.Mutex) × (unlock k (record { mutex = m; locked = b })
          ≡ some (record { mutex = o; locked = false }))
        × t.IsFree o
  unfolding unlock
  unlock-Serves true m h = let (o, e, free) = t.releases m h in (o, rw e refl, free)
  unlock-Serves false m h = (m, refl, h)

  call-Serves : (c : GuardCall) (g : ScopedLock k) → IsBalanced g → Serves (call k c g)
  unfolding call
  call-Serves locks g h = lock-Serves g.locked g.mutex h
  call-Serves unlocks g h =
      let (o, e, free) = unlock-Serves g.locked g.mutex h in
      (record { mutex = o; locked = false }, e, free)

  call_each-Serves :
      (cs : List GuardCall) (g : ScopedLock k) → IsBalanced g → Serves (call_each k cs g)
  unfolding call_each
  call_each-Serves [] g h = (g, refl, h)
  call_each-Serves (c ∷ cs) g h =
      let (g', e, h') = call-Serves c g h in rw e (call_each-Serves cs g' h')

  -- On a mutex that its thread may acquire, a guard whose functions are called in any order, as
  -- often as one likes, makes no call that never returns or is undefined, and its destructor leaves
  -- the mutex one that the thread may acquire.
  pub guarded-IsFree :
      (cs : List GuardCall) (m : k.Mutex)
      → t.IsFree m
      → (o : k.Mutex) × (guarded k cs m ≡ some o) × t.IsFree o
  unfolding guarded new_guard
  guarded-IsFree cs m h =
      let (n, e, held) = t.acquires m h in
      let (g, e', h') = call_each-Serves cs (record { mutex = n; locked = true }) held in
      let (o, e'', free) = unlock-Serves g.locked g.mutex h' in
      (o, rw e (rw e' (rw e'' refl)), free)
