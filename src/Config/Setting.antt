-- ===== src/Config/Setting.antt =====
-- ConfigVar::setValue of chord/config.h in several threads, under the variable's RWMutex. A step is
-- taking or releasing the lock, the comparison with what follows from it, or the assignment.
pub mod Told
pub mod Races
mod Tests
use chord_server.Prelude.{ℕ, Bool, true, false, ◌≡◌, List, [], ◌∷◌, ◌==◌, if◌then◌else◌}

-- Where a thread is: outside; with the lock for reading, before the comparison or behind the
-- callbacks; behind the block of the ReadLock; or with the lock for writing, before or behind the
-- assignment. It holds the value to set.
pub data Phase (T : Type 0) : Type 0 where
  outside assigned : Phase T
  reading told between writing : T → Phase T

abbrev pub holds_read : {T : Type 0} → Phase T → Bool
holds_read (reading v) = true
holds_read (told v) = true
holds_read _ = false

abbrev pub holds_write : {T : Type 0} → Phase T → Bool
holds_write (writing v) = true
holds_write assigned = true
holds_write _ = false

-- `m_val`, the calls of the listeners with the old and the new value, the last one first, and the
-- threads.
pub record Shared (T : Type 0) : Type 0 where
  pub val : T
  pub calls : List (T × T)
  pub phase : ℕ → Phase T

module _ {T : Type 0} where
  abbrev pub new_shared : T → Shared T
  new_shared v = record { val = v; calls = []; phase = λ i. outside }

  abbrev pub set_phase : Shared T → ℕ → Phase T → Shared T
  set_phase s i p = record s { phase = λ j. if i == j then p else s.phase j }

  -- `RWMutexType::ReadLock lock(m_mutex)`
  unfoldable pub lock_read : Shared T → ℕ → T → Shared T
  lock_read s i v = set_phase s i (reading v)

  -- `if(val == m_val) return;`
  unfoldable pub return_same : Shared T → ℕ → Shared T
  return_same s i = set_phase s i outside

  -- The loop over the callbacks.
  unfoldable pub call_back : Shared T → ℕ → T → Shared T
  call_back s i v = record (set_phase s i (told v)) { calls = (s.val, v) ∷ s.calls }

  -- The end of the block.
  unfoldable pub unlock_read : Shared T → ℕ → T → Shared T
  unlock_read s i v = set_phase s i (between v)

  -- `RWMutexType::WriteLock lock(m_mutex)`
  unfoldable pub lock_write : Shared T → ℕ → T → Shared T
  lock_write s i v = set_phase s i (writing v)

  -- `m_val = val`
  unfoldable pub assign : Shared T → ℕ → T → Shared T
  assign s i v = record (set_phase s i assigned) { val = v }

  -- The end of the function.
  unfoldable pub unlock_write : Shared T → ℕ → Shared T
  unlock_write s i = set_phase s i outside

  -- What the lock lets a thread do: read while nobody writes, and write while nobody reads or
  -- writes.
  pub data Step (eq : T → T → Bool) (s : Shared T) (i : ℕ) : Shared T → Type 0 where
    reads :
        (v : T)
        → s.phase i ≡ outside
        → ((j : ℕ) → holds_write (s.phase j) ≡ false)
        → Step eq s i (lock_read s i v)
    returns : (v : T) → s.phase i ≡ reading v → eq v s.val ≡ true → Step eq s i (return_same s i)
    calls_back :
        (v : T) → s.phase i ≡ reading v → eq v s.val ≡ false → Step eq s i (call_back s i v)
    releases : (v : T) → s.phase i ≡ told v → Step eq s i (unlock_read s i v)
    writes :
        (v : T)
        → s.phase i ≡ between v
        → ((j : ℕ) → holds_read (s.phase j) ≡ false)
        → ((j : ℕ) → holds_write (s.phase j) ≡ false)
        → Step eq s i (lock_write s i v)
    assigns : (v : T) → s.phase i ≡ writing v → Step eq s i (assign s i v)
    ends : s.phase i ≡ assigned → Step eq s i (unlock_write s i)

  -- The steps of all threads, in any order.
  pub data Interleaves (eq : T → T → Bool) (start : T) : Shared T → Type 0 where
    begin : Interleaves eq start (new_shared start)
    next :
        {s t : Shared T} (i : ℕ) → Interleaves eq start s → Step eq s i t → Interleaves eq start t
