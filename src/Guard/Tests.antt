-- ===== src/Guard/Tests.antt =====
-- A guard for reading on a lock that counts its readers.
use chord_server.Prelude.{
  Bool, true, false, ℕ, zero, suc, ◌≡◌, refl, [], ◌∷◌, Option, none, some, arith,
}
use chord_server.Guard.{RwLocking, read_scoped, locks, unlocks, guarded}
use chord_server.Guard.Balance.{Turns, guarded-IsFree}
use chord_server.Guard.Mutexes.{Pthread, Documented, spinlock, guarded-new}

-- The number of readers; a writer would wait for ever, as the readers stay.
abbrev release_reader : ℕ → Option ℕ
release_reader zero = none
release_reader (suc n) = some n

abbrev write_alone : ℕ → Option ℕ
write_alone n = none

abbrev readers : RwLocking
readers = record {
  Mutex = ℕ;
  rdlock = λ n. some (suc n);
  wrlock = write_alone;
  unlock = release_reader;
}

-- Three others read.
abbrev three_others : Turns (read_scoped readers)
three_others = record {
  IsFree = λ n. n ≡ 3;
  IsHeld = λ n. n ≡ 4;
  acquires = λ n h. (suc n, refl, omega (arith, h));
  releases = λ n h. (3, rw h refl, refl);
}

guarded-IsFree_example :
    (o : ℕ) × (guarded (read_scoped readers) (unlocks ∷ unlocks ∷ locks ∷ locks ∷ []) 3 ≡ some o)
    × (o ≡ 3)
guarded-IsFree_example =
    guarded-IsFree (read_scoped readers) three_others (unlocks ∷ unlocks ∷ locks ∷ locks ∷ []) 3
      refl

-- Locks that tell whether they are taken.
abbrev take_free : Bool → Option Bool
take_free true = none
take_free false = some true

abbrev free_taken : Bool → Option Bool
free_taken true = some false
free_taken false = none

abbrev flags : Pthread
flags = record {
  MutexState = Bool;
  RwlockState = Bool;
  SpinState = Bool;
  mutex_init = false;
  mutex_lock = take_free;
  mutex_unlock = free_taken;
  rwlock_init = false;
  rwlock_rdlock = take_free;
  rwlock_wrlock = take_free;
  rwlock_unlock = free_taken;
  spin_init = false;
  spin_lock = take_free;
  spin_unlock = free_taken;
}

flags-Documented : Documented flags
flags-Documented = record {
  mutex_locked = (true, refl, refl);
  rwlock_read = (true, refl, refl);
  rwlock_written = (true, refl, refl);
  spin_locked = (true, refl, refl);
}

spinlock_left_free : guarded (spinlock flags) (locks ∷ []) false ≡ some false
spinlock_left_free = (guarded-new flags (locks ∷ []) flags-Documented).1
