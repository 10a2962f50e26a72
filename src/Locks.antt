-- ===== src/Locks.antt =====
-- The locks that the logging and the configuration component take, as threads see them: the scoped
-- guards of chord/thread.h on the mutexes of chord/log.h and chord/config.h. What an operation does
-- between its guards is in the modules of the components.
pub mod Logging
pub mod Configuring
pub mod Threads
pub mod Nesting
pub mod Ordered
pub mod Progress
pub mod Reentry
pub mod Protection
mod Tests
use chord_server.Prelude.{
  ℕ, Bool, true, false, not, ◌&&◌, ◌||◌, List, [], ◌∷◌, ◌++◌, ◌==◌, if◌then◌else◌,
}

-- `Config::GetMutex()`, and the `m_mutex` of a ConfigVar, of the LoggerManager, of a Logger and of
-- a LogAppender; variables, loggers and appenders are named by their places.
pub data Mutex : Type 0 where
  registry manager : Mutex
  variable logger appender : ℕ → Mutex

abbrev pub same_mutex : Mutex → Mutex → Bool
same_mutex registry registry = true
same_mutex manager manager = true
same_mutex (variable i) (variable j) = i == j
same_mutex (logger i) (logger j) = i == j
same_mutex (appender i) (appender j) = i == j
same_mutex _ _ = false

-- A Spinlock has one way to be taken; a RWMutex may be taken for reading by several.
pub data Mode : Type 0 where
  reading alone : Mode

pub record Hold : Type 0 where
  pub mode : Mode
  pub mutex : Mutex

abbrev pub both_read : Mode → Mode → Bool
both_read reading reading = true
both_read _ _ = false

-- Two threads cannot have both.
abbrev pub conflicts : Hold → Hold → Bool
conflicts h k = same_mutex h.mutex k.mutex && not (both_read h.mode k.mode)

-- What a guard calls.
pub data Act : Type 0 where
  lock unlock : Hold → Act

-- A block with a guard at its start; the guard's destructor runs at its end.
abbrev pub scope : Hold → List Act → List Act
scope h inner = lock h ∷ (inner ++ unlock h ∷ [])

-- `MutexType::Lock`, `RWMutexType::ReadLock` and `RWMutexType::WriteLock`
abbrev pub locked : Mutex → List Act → List Act
locked m = scope (record { mode = alone; mutex = m })

abbrev pub read_locked : Mutex → List Act → List Act
read_locked m = scope (record { mode = reading; mutex = m })

abbrev pub write_locked : Mutex → List Act → List Act
write_locked m = scope (record { mode = alone; mutex = m })

-- The loop over the elements of a list.
abbrev pub each {ℓ} : {A : Type ℓ} → (A → List Act) → List A → List Act
each f [] = []
each f (x ∷ xs) = f x ++ each f xs
