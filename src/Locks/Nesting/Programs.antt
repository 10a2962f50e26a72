-- ===== src/Locks/Nesting/Programs.antt =====
-- The operations of the configuration component take their locks in the order of their ranks.
use chord_server.Prelude.{ℕ, true, false, ◌≡◌, sym, subst, List, [], ◌∷◌, All, arith}
use chord_server.Locks.{Act, variable, read_locked, write_locked, each}
use chord_server.Locks.Logging.{LoggingCall, logging_locks}
use chord_server.Locks.Configuring.{
  VarCall, gets_value, gets_listener, adds_listener, deletes_listener, clears_listener, sets_value,
  fails_to_read, prints, fails_to_print, var_locks, Lookup, finds, differs, refuses, creates,
  lookup_locks, ProgramCall, logging, on_variable, looks_up_or_creates, looks_up, visits,
  program_locks,
}
use chord_server.Locks.Nesting.{Nested, done, Nested-mono, Nested-append, Nested-scope, Nested-each}
use chord_server.Locks.Nesting.Calls.{IsSoundLogging, logging_locks-Nested}

abbrev pub AllSound : List LoggingCall → Type 0
AllSound = All IsSoundLogging

-- Listeners that only make calls of the logging component.
abbrev pub OnlyLog : List Act → Type 0
OnlyLog acts = (cs : List LoggingCall) × (acts ≡ each logging_locks cs) × AllSound cs

abbrev pub IsSoundVar : VarCall → Type 0
IsSoundVar (sets_value same listeners) = OnlyLog listeners
IsSoundVar (fails_to_read report) = AllSound report
IsSoundVar (fails_to_print report) = AllSound report
IsSoundVar _ = Unit

abbrev pub IsSoundLookup : Lookup → Type 0
IsSoundLookup (finds report) = AllSound report
IsSoundLookup (differs v logged text report) = IsSoundVar text × AllSound report
IsSoundLookup (refuses report) = AllSound report
IsSoundLookup creates = Unit

-- The calls of the logging component within a call are sound, and listeners make no other calls.
abbrev pub IsSoundCall : ProgramCall → Type 0
IsSoundCall (logging c) = IsSoundLogging c
IsSoundCall (on_variable v c) = IsSoundVar c
IsSoundCall (looks_up_or_creates l) = IsSoundLookup l
IsSoundCall looks_up = Unit
IsSoundCall (visits calls) = All (λ (c : ℕ × VarCall). IsSoundVar c.1) calls

reports-Nested : (cs : List LoggingCall) → AllSound cs → Nested 2 (each logging_locks cs)
reports-Nested cs h = Nested-each logging_locks cs (go cs h)
  where
    go : (ds : List LoggingCall) → AllSound ds → All (λ c. Nested 2 (logging_locks c)) ds
    go [] k = tt
    go (d ∷ ds) k = (logging_locks-Nested d k.0, go ds k.1)

read-Nested :
    (v : ℕ) {inner : List Act} → Nested 2 inner → Nested 1 (read_locked (variable v) inner)
read-Nested v n = Nested-scope _ (omega arith) n

write-Nested : (v : ℕ) → Nested 1 (write_locked (variable v) [])
write-Nested v = Nested-scope _ (omega arith) done

var_locks-Nested : (v : ℕ) (c : VarCall) → IsSoundVar c → Nested 1 (var_locks v c)
unfolding var_locks
var_locks-Nested v gets_value h = read-Nested v done
var_locks-Nested v gets_listener h = read-Nested v done
var_locks-Nested v adds_listener h = write-Nested v
var_locks-Nested v deletes_listener h = write-Nested v
var_locks-Nested v clears_listener h = write-Nested v
var_locks-Nested v (sets_value true listeners) h = read-Nested v done
var_locks-Nested v (sets_value false listeners) (cs, e, h) =
    Nested-append (read-Nested v (subst (Nested 2) (sym e) (reports-Nested cs h))) (write-Nested v)
var_locks-Nested v (fails_to_read report) h = Nested-mono (omega arith) (reports-Nested report h)
var_locks-Nested v prints h = read-Nested v done
var_locks-Nested v (fails_to_print report) h =
    Nested-append (read-Nested v done) (Nested-mono (omega arith) (reports-Nested report h))

lookup_locks-Nested : (l : Lookup) → IsSoundLookup l → Nested 1 (lookup_locks l)
unfolding lookup_locks
lookup_locks-Nested (finds report) h = Nested-mono (omega arith) (reports-Nested report h)
lookup_locks-Nested (differs v true text report) h =
    Nested-append (var_locks-Nested v text h.0)
      (Nested-mono (omega arith) (reports-Nested report h.1))
lookup_locks-Nested (differs v false text report) h = done
lookup_locks-Nested (refuses report) h = Nested-mono (omega arith) (reports-Nested report h)
lookup_locks-Nested creates h = done

visits-Nested :
    (cs : List (ℕ × VarCall))
    → All (λ (c : ℕ × VarCall). IsSoundVar c.1) cs
    → Nested 1 (each (λ (v, c). var_locks v c) cs)
visits-Nested [] h = done
visits-Nested ((v, c) ∷ cs) h = Nested-append (var_locks-Nested v c h.0) (visits-Nested cs h.1)

pub program_locks-Nested : (c : ProgramCall) → IsSoundCall c → Nested 0 (program_locks c)
unfolding program_locks
program_locks-Nested (logging c) h = Nested-mono (omega arith) (logging_locks-Nested c h)
program_locks-Nested (on_variable v c) h = Nested-mono (omega arith) (var_locks-Nested v c h)
program_locks-Nested (looks_up_or_creates l) h =
    Nested-scope _ (omega arith) (lookup_locks-Nested l h)
program_locks-Nested looks_up h = Nested-scope _ (omega arith) done
program_locks-Nested (visits calls) h = Nested-scope _ (omega arith) (visits-Nested calls h)
