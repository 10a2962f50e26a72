-- ===== src/Guard/Mutexes.antt =====
-- Mutex, RWMutex, Spinlock, NullMutex and NullRWMutex of chord/thread.h. What pthread does is a
-- parameter; the answers of its functions are not read.
use chord_server.Prelude.{◌≡◌, refl, List, Option, some}
use chord_server.Guard.{Locking, RwLocking, GuardCall, read_scoped, write_scoped, guarded}
use chord_server.Guard.Balance.{Turns, guarded-IsFree}

-- What is used of pthread: the states of its locks, what initialising gives, and calls, which are
-- `none` where they never return or are undefined.
pub record Pthread : Type 1 where
  pub MutexState : Type 0
  pub RwlockState : Type 0
  pub SpinState : Type 0
  pub mutex_init : MutexState
  pub mutex_lock : MutexState → Option MutexState
  pub mutex_unlock : MutexState → Option MutexState
  pub rwlock_init : RwlockState
  pub rwlock_rdlock : RwlockState → Option RwlockState
  pub rwlock_wrlock : RwlockState → Option RwlockState
  pub rwlock_unlock : RwlockState → Option RwlockState
  pub spin_init : SpinState
  pub spin_lock : SpinState → Option SpinState
  pub spin_unlock : SpinState → Option SpinState

module _ (p : Pthread) where
  -- `class Mutex`
  abbrev pub mutex : Locking
  mutex = record { Mutex = p.MutexState; acquire = p.mutex_lock; release = p.mutex_unlock }

  abbrev pub new_mutex : p.MutexState
  new_mutex = p.mutex_init

  -- `class RWMutex`
  abbrev pub rw_mutex : RwLocking
  rw_mutex = record {
    Mutex = p.RwlockState;
    rdlock = p.rwlock_rdlock;
    wrlock = p.rwlock_wrlock;
    unlock = p.rwlock_unlock;
  }

  abbrev pub new_rw_mutex : p.RwlockState
  new_rw_mutex = p.rwlock_init

  -- `class Spinlock`
  abbrev pub spinlock : Locking
  spinlock = record { Mutex = p.SpinState; acquire = p.spin_lock; release = p.spin_unlock }

  abbrev pub new_spinlock : p.SpinState
  new_spinlock = p.spin_init

-- `class NullMutex`, which has no state.
abbrev pub null_mutex : Locking
null_mutex = record { Mutex = Unit {0}; acquire = some; release = some }

-- `class NullRWMutex`
abbrev pub null_rw_mutex : RwLocking
null_rw_mutex = record { Mutex = Unit {0}; rdlock = some; wrlock = some; unlock = some }

-- What pthread documents for one thread: a lock that it initialised can be acquired, an acquired
-- one can be released, and it is as before then.
pub record Documented (p : Pthread) : Type 0 where
  pub mutex_locked :
      (s : p.MutexState) × (p.mutex_lock p.mutex_init ≡ some s)
      × (p.mutex_unlock s ≡ some p.mutex_init)
  pub rwlock_read :
      (s : p.RwlockState) × (p.rwlock_rdlock p.rwlock_init ≡ some s)
      × (p.rwlock_unlock s ≡ some p.rwlock_init)
  pub rwlock_written :
      (s : p.RwlockState) × (p.rwlock_wrlock p.rwlock_init ≡ some s)
      × (p.rwlock_unlock s ≡ some p.rwlock_init)
  pub spin_locked :
      (s : p.SpinState) × (p.spin_lock p.spin_init ≡ some s) × (p.spin_unlock s ≡ some p.spin_init)

-- One state that is acquired from another and released to it.
between :
    (k : Locking) (free held : k.Mutex)
    → k.acquire free ≡ some held
    → k.release held ≡ some free
    → Turns k
between k free held a r = record {
  IsFree = λ m. m ≡ free;
  IsHeld = λ m. m ≡ held;
  acquires = λ m e. (held, rw e a, refl);
  releases = λ m e. (free, rw e r, refl);
}

guarded-fresh :
    (k : Locking) (free held : k.Mutex) (cs : List GuardCall)
    → k.acquire free ≡ some held
    → k.release held ≡ some free
    → guarded k cs free ≡ some free
unfolding between
guarded-fresh k free held cs a r =
    let (o, e, same) = guarded-IsFree k (between k free held a r) cs free refl in rw same at e

-- A guard on a new mutex of any class, its functions called in any order, leaves the mutex new.
pub guarded-new :
    (p : Pthread) (cs : List GuardCall)
    → Documented p
    → (guarded (mutex p) cs (new_mutex p) ≡ some (new_mutex p))
      × (guarded (spinlock p) cs (new_spinlock p) ≡ some (new_spinlock p))
      × (guarded (read_scoped (rw_mutex p)) cs (new_rw_mutex p) ≡ some (new_rw_mutex p))
      × (guarded (write_scoped (rw_mutex p)) cs (new_rw_mutex p) ≡ some (new_rw_mutex p))
      × (guarded null_mutex cs tt ≡ some tt)
guarded-new p cs d = (
  guarded-fresh (mutex p) _ d.mutex_locked.0 cs d.mutex_locked.1 d.mutex_locked.2,
  guarded-fresh (spinlock p) _ d.spin_locked.0 cs d.spin_locked.1 d.spin_locked.2,
  guarded-fresh (read_scoped (rw_mutex p)) _ d.rwlock_read.0 cs d.rwlock_read.1 d.rwlock_read.2,
  guarded-fresh (write_scoped (rw_mutex p)) _ d.rwlock_written.0 cs d.rwlock_written.1
      d.rwlock_written.2,
  guarded-fresh null_mutex tt tt cs refl refl,
)
