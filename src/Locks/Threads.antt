-- ===== src/Locks/Threads.antt =====
-- Threads that run their calls one after another, with the locks that they hold.
use chord_server.Prelude.{
  ℕ, suc, ◌+◌, Bool, true, false, not, ◌≡◌, List, [], ◌∷◌, ◌++◌, map, length, all, if◌then◌else◌,
}
use chord_server.Locks.{same_mutex, Hold, conflicts, Act, lock, unlock, each}
use chord_server.Locks.Configuring.{ProgramCall, program_locks}

-- What a thread holds, the last one first, and what it has still to do.
pub record LockThread : Type 0 where
  pub holds : List Hold
  pub rest : List Act

abbrev pub start_thread : List ProgramCall → LockThread
start_thread calls = record { holds = []; rest = each program_locks calls }

abbrev pub start_threads : List (List ProgramCall) → List LockThread
start_threads = map start_thread

-- Nothing that the thread holds keeps others from taking the lock.
abbrev pub leaves_free : Hold → LockThread → Bool
leaves_free h t = all (λ k. not (conflicts h k)) t.holds

-- Whether a thread's next act can be done now.
unfoldable pub is_able : List LockThread → List Act → Bool
is_able ts [] = false
is_able ts (lock h ∷ rest) = all (leaves_free h) ts
is_able ts (unlock h ∷ rest) = true

abbrev pub release : Hold → List Hold → List Hold
release h [] = []
release h (k ∷ ks) = if same_mutex k.mutex h.mutex then ks else k ∷ release h ks

-- The act is done.
unfoldable pub act : List Hold → List Act → LockThread
act holds [] = record { holds = holds; rest = [] }
act holds (lock h ∷ rest) = record { holds = h ∷ holds; rest = rest }
act holds (unlock h ∷ rest) = record { holds = release h holds; rest = rest }

abbrev pub advance : LockThread → LockThread
advance t = act t.holds t.rest

-- One act of one thread.
pub data Step : List LockThread → List LockThread → Type 0 where
  moves :
      (before behind : List LockThread) (t : LockThread) {ts us : List LockThread}
      → ts ≡ before ++ t ∷ behind
      → is_able ts t.rest ≡ true
      → us ≡ before ++ advance t ∷ behind
      → Step ts us

-- So many acts of any threads, in any order.
pub data Runs (calls : List (List ProgramCall)) : ℕ → List LockThread → Type 0 where
  start : Runs calls 0 (start_threads calls)
  next : {n : ℕ} {ts us : List LockThread} → Runs calls n ts → Step ts us → Runs calls (suc n) us

-- The number of acts still to do.
abbrev pub remaining : List LockThread → ℕ
remaining [] = 0
remaining (t ∷ ts) = length t.rest + remaining ts
