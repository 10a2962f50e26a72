-- ===== src/Locks/Configuring.antt =====
-- The locks of the operations of chord/config.h and chord/config.cpp. What is logged are calls of
-- the logging component.
use chord_server.Prelude.{ℕ, Bool, List, [], ◌++◌, if◌then◌else◌}
use chord_server.Locks.{Act, registry, variable, read_locked, write_locked, each}
use chord_server.Locks.Logging.{LoggingCall, logging_locks}

-- What a call of `ConfigVar` reads: whether `val == m_val`, what locks the listeners take and
-- release, which are any functions, and what the handler of an exception logs, if the conversion
-- throws.
pub data VarCall : Type 0 where
  gets_value gets_listener adds_listener deletes_listener clears_listener : VarCall
  sets_value : Bool → List Act → VarCall
  fails_to_read : List LoggingCall → VarCall
  prints : VarCall
  fails_to_print : List LoggingCall → VarCall

-- ConfigVar::setValue
unfoldable pub set_value_locks : ℕ → Bool → List Act → List Act
set_value_locks v same listeners =
    if same
    then read_locked (variable v) []
    else read_locked (variable v) listeners ++ write_locked (variable v) []

-- The calls on the variable at a place. A handler runs behind the guard of its `try` block;
-- `fromString` calls `setValue` if the text can be converted.
unfoldable pub var_locks : ℕ → VarCall → List Act
unfolding set_value_locks
var_locks v gets_value = read_locked (variable v) []
var_locks v gets_listener = read_locked (variable v) []
var_locks v adds_listener = write_locked (variable v) []
var_locks v deletes_listener = write_locked (variable v) []
var_locks v clears_listener = write_locked (variable v) []
var_locks v (sets_value same listeners) = set_value_locks v same listeners
var_locks v (fails_to_read report) = each logging_locks report
var_locks v prints = read_locked (variable v) []
var_locks v (fails_to_print report) = read_locked (variable v) [] ++ each logging_locks report

-- What `Lookup` with a default finds: a variable of the type, one of another type, no variable and
-- an invalid name, or no variable. The message for another type holds the variable's text, and is
-- made only if it is logged.
pub data Lookup : Type 0 where
  finds : List LoggingCall → Lookup
  differs : ℕ → Bool → VarCall → List LoggingCall → Lookup
  refuses : List LoggingCall → Lookup
  creates : Lookup

unfoldable pub lookup_locks : Lookup → List Act
unfolding var_locks
lookup_locks (finds report) = each logging_locks report
lookup_locks (differs v logged text report) =
    if logged then var_locks v text ++ each logging_locks report else []
lookup_locks (refuses report) = each logging_locks report
lookup_locks creates = []

-- The calls of `Config`, of variables and of the logging component. The callback of `Visit` calls
-- the variables that it is given. `LoadFromYaml` has no guard: it logs, looks names up, and calls
-- `fromString`.
pub data ProgramCall : Type 0 where
  logging : LoggingCall → ProgramCall
  on_variable : ℕ → VarCall → ProgramCall
  looks_up_or_creates : Lookup → ProgramCall
  looks_up : ProgramCall
  visits : List (ℕ × VarCall) → ProgramCall

unfoldable pub program_locks : ProgramCall → List Act
unfolding lookup_locks var_locks
program_locks (logging c) = logging_locks c
program_locks (on_variable v c) = var_locks v c
program_locks (looks_up_or_creates l) = write_locked registry (lookup_locks l)
program_locks looks_up = read_locked registry []
program_locks (visits calls) = read_locked registry (each (λ (v, c). var_locks v c) calls)
