-- ===== src/Locks/Tests.antt =====
-- Two threads: one sets a variable whose listener logs, the other prints all loggers and looks a
-- variable up.
use mathlib.Core.List.{Memᴰ}
use mathlib.Core.List.Memᴰ.{head}
use chord_server.Prelude.{none, ℕ, true, false, ◌≡◌, refl, List, [], ◌∷◌, ◌⊎◌, codes, pos}
use chord_server.Log.Level.{info}
use chord_server.Log.Event.{new_event}
use chord_server.Log.World.{System}
use chord_server.Log.Logger.{add_appender, new_logger}
use chord_server.Log.Manager.{LoggerManager, Call, new_manager, logs, step}
use chord_server.Log.Listener.Appenders.{Holds}
use chord_server.Locks.Protection.Calls.{Guards, step-Guards}
use chord_server.Locks.{Hold, lock, unlock, logger, appender, alone, each}
use chord_server.Locks.Logging.{
  LoggingCall, calls, manager_to_yaml, logging_locks, appender_log_locks, call_locks,
}
use chord_server.Locks.Configuring.{
  ProgramCall, logging, on_variable, looks_up, sets_value, adds_listener, program_locks, var_locks,
  set_value_locks,
}
use chord_server.Locks.Threads.{LockThread, start_threads, advance, moves, is_able}
use chord_server.Locks.Reentry.{Steps, here, more, setting, behind_call, in_listener, setting-waits}

abbrev sys : System
sys = record { now = 7; strftime = λ f t. f; can_open = λ p. true; fails_at = λ p t. none }

abbrev start_manager : LoggerManager
start_manager = new_manager (λ p. [])

abbrev log_it : Call
log_it = logs 0 info (new_event 0 info (codes "a.cc") (pos 3) 0 1 0 7)

abbrev log_call : LoggingCall
log_call = calls sys start_manager log_it

abbrev program : List (List ProgramCall)
program =
    (on_variable 5 (sets_value false (each logging_locks (log_call ∷ []))) ∷ [])
    ∷ (logging (manager_to_yaml start_manager) ∷ looks_up ∷ [])
    ∷ []

abbrev alone_at : ℕ → Hold
alone_at i = record { mode = alone; mutex = appender i }

log_call_acts :
    logging_locks log_call
    ≡ lock (record { mode = alone; mutex = logger 0 })
      ∷ lock (alone_at 0)
      ∷ unlock (alone_at 0)
      ∷ unlock (record { mode = alone; mutex = logger 0 })
      ∷ []
unfolding logging_locks new_manager add_appender new_logger appender_log_locks
log_call_acts = refl

-- The first act of each of the two threads.
abbrev after_one : List LockThread
after_one = elim (start_threads program) [ [] ↦ [] | t ∷ ts ↦ advance t ∷ ts ]

abbrev after_two : List LockThread
after_two = elim after_one [ t ∷ u ∷ ts ↦ t ∷ advance u ∷ ts | other ↦ other ]

-- A thread whose listener adds a listener, beside another one; its first act.
abbrev other_thread : LockThread
other_thread = record { holds = []; rest = program_locks looks_up }

abbrev caller : LockThread
caller = setting 5 adds_listener [] []

one-Steps : Steps (caller ∷ other_thread ∷ []) (advance caller ∷ other_thread ∷ [])
unfolding is_able var_locks set_value_locks
one-Steps = more here (moves [] (other_thread ∷ []) caller refl refl refl)

setting-waits_example :
    Memᴰ caller (advance caller ∷ other_thread ∷ [])
    ⊎ Memᴰ (in_listener 5 adds_listener (behind_call 5 [] [])) (advance caller ∷ other_thread ∷ [])
setting-waits_example = setting-waits 5 adds_listener [] [] tt one-Steps (head refl)

step-Guards_example :
    Holds
      (Guards (call_locks sys start_manager.world log_it) start_manager)
      (step sys start_manager log_it)
step-Guards_example = step-Guards sys start_manager log_it
