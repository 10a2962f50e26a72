-- ===== src/Guard.antt =====
-- ScopedLockImpl, ReadScopedLockImpl and WriteScopedLockImpl of chord/thread.h, for one thread: the
-- three differ only in the function of the mutex that they call to acquire it.
pub mod Balance
pub mod Mutexes
mod Tests
use chord_server.Prelude.{
  ◌>>=◌, Bool, true, false, not, List, [], ◌∷◌, Option, none, some, if◌then◌else◌,
}

-- A mutex: `lock`, `rdlock` or `wrlock`, and `unlock`; `none` where the call never returns or has
-- no defined behaviour.
pub record Locking : Type 1 where
  pub Mutex : Type 0
  pub acquire : Mutex → Option Mutex
  pub release : Mutex → Option Mutex

-- A mutex for readers and writers.
pub record RwLocking : Type 1 where
  pub Mutex : Type 0
  pub rdlock : Mutex → Option Mutex
  pub wrlock : Mutex → Option Mutex
  pub unlock : Mutex → Option Mutex

-- What a ReadScopedLockImpl and a WriteScopedLockImpl call.
abbrev pub read_scoped : RwLocking → Locking
read_scoped l = record { Mutex = l.Mutex; acquire = l.rdlock; release = l.unlock }

abbrev pub write_scoped : RwLocking → Locking
write_scoped l = record { Mutex = l.Mutex; acquire = l.wrlock; release = l.unlock }

-- The calls of a guard's functions.
pub data GuardCall : Type 0 where
  locks unlocks : GuardCall

module _ (k : Locking) where
  open k use {Mutex, acquire, release}

  -- The mutex that is referred to, and `m_locked`.
  pub record ScopedLock : Type 0 where
    pub mutex : Mutex
    pub locked : Bool

  -- The constructor.
  unfoldable pub new_guard : Mutex → Option ScopedLock
  new_guard m = do m' ← acquire m; some (record { mutex = m'; locked = true })

  -- `lock`
  unfoldable pub lock : ScopedLock → Option ScopedLock
  lock g =
      let acquired = (do m ← acquire g.mutex; some (record { mutex = m; locked = true })) in
      if not g.locked then acquired else some g

  -- `unlock`, which the destructor calls too.
  unfoldable pub unlock : ScopedLock → Option ScopedLock
  unlock g =
      let released = (do m ← release g.mutex; some (record { mutex = m; locked = false })) in
      if g.locked then released else some g

  unfoldable pub call : GuardCall → ScopedLock → Option ScopedLock
  call locks g = lock g
  call unlocks g = unlock g

  unfoldable pub call_each : List GuardCall → ScopedLock → Option ScopedLock
  call_each [] g = some g
  call_each (c ∷ cs) g = do g' ← call c g; call_each cs g'

  -- A guard's life: the constructor, calls, and the destructor; what is left is the mutex.
  unfoldable pub guarded : List GuardCall → Mutex → Option Mutex
  guarded cs m = do g ← new_guard m; g' ← call_each cs g; g'' ← unlock g'; some g''.mutex
