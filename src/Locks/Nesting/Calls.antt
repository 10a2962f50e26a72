-- ===== src/Locks/Nesting/Calls.antt =====
-- Every operation takes its locks in the order of their ranks.
use chord_server.Prelude.{
  ◌⊎◌, ℕ, zero, suc, ◌+◌, ◌≤◌, ◌≡◌, List, [], ◌∷◌, Option, none, some, leb, ◌==◌, Bool-cases, inl,
  inr, arith, ==_iff,
}
use chord_server.Log.Level.{Level}
use chord_server.Log.Formatter.{LogFormatter, new_formatter}
use chord_server.Log.World.{World, System, Target, std_out, file}
use chord_server.Log.Appender.{u64}
use chord_server.Log.Logger.{depth}
use chord_server.Log.Manager.{
  LoggerManager, Call, gets, makes_std_out, makes_file, adds, removes, clears, sets_level,
  sets_pattern, sets_formatter, appender_sets_formatter, appender_sets_level, logs,
}
use chord_server.Locks.{Act, logger, locked, alone}
use chord_server.Locks.Logging.{
  appender_locks, target_locks, appender_log_locks, own_locks, root_locks, log_locks,
  each_appender_locks, set_pattern_locks, give_formatter_locks, add_appender_locks, call_locks,
  manager_locks, LoggingCall, calls, logger_to_yaml, manager_to_yaml, logging_locks,
}
use chord_server.Locks.Nesting.{
  rank, Nested, done, Nested-mono, Nested-append, Nested-scope, Nested-each_any,
}

-- The root logger has none behind it, and every other logger has none or the root.
pub record IsRooted (w : World) : Type 0 where
  pub rooted : (l : ℕ) → ((w.logger l).root ≡ none) ⊎ ((w.logger l).root ≡ some 0)
  pub root_root : (w.logger 0).root ≡ none

-- Appenders are last.
appender_locks-Nested : (i : ℕ) → Nested 5 (appender_locks i)
appender_locks-Nested i = Nested-scope _ (omega arith) done

target_locks-Nested : (sys : System) (i : ℕ) (t : Target) → Nested 5 (target_locks sys i t)
unfolding target_locks
target_locks-Nested sys i std_out = done
target_locks-Nested sys i (file f) = elim (Bool-cases (sys.now == u64 (f.last_time + 3))) [
  | inl e ↦ rw e done
  | inr e ↦ rw e (appender_locks-Nested i)
]

appender_log_locks-Nested :
    (sys : System) (w : World) (level : Level) (i : ℕ) → Nested 5 (appender_log_locks sys w level i)
unfolding appender_log_locks
appender_log_locks-Nested sys w level i = elim (Bool-cases (leb (w.appender i).level level)) [
  | inl e ↦
      rw e
        (Nested-append (target_locks-Nested sys i (w.appender i).target) (appender_locks-Nested i))
  | inr e ↦ rw e done
]

own_locks-Nested :
    (k : ℕ) (sys : System) (w : World) (level : Level) (is : List ℕ) (up : List Act)
    → k ≤ 5
    → Nested k up
    → Nested k (own_locks sys w level is up)
unfolding own_locks
own_locks-Nested k sys w level [] up h n = n
own_locks-Nested k sys w level (i ∷ is) up h n = Nested-mono h (
    Nested-each_any (appender_log_locks sys w level) (i ∷ is)
      (appender_log_locks-Nested sys w level))

rank_logger_le : (l : ℕ) → suc (rank (logger l)) ≤ 5
rank_logger_le l = ground arith

-- Behind a logger there is none, or the root logger, which is another one.
root_locks-Nested :
    (w : World) (l : ℕ) (of : ℕ → List Act)
    → IsRooted w
    → Nested 4 (of 0)
    → Nested (suc (rank (logger l))) (root_locks of (w.logger l).root)
unfolding root_locks
root_locks-Nested w l of r n = elim (r.rooted l) [
  | inl e ↦ rw e done
  | inr e ↦ elim (Bool-cases (l == 0)) [
    | inl at_root ↦
        let z : l ≡ 0 = (==_iff l 0).0 at_root in
        absurd (ground (arith, e, r.root_root, z, rw z at e))
    | inr other ↦ rw (e, other) n
  ]
]

log_locks-Nested :
    (fuel : ℕ) (sys : System) (w : World) (l : ℕ) (level : Level)
    → IsRooted w
    → Nested (rank (logger l)) (log_locks fuel sys w l level)
unfolding log_locks
log_locks-Nested zero sys w l level r = done
log_locks-Nested (suc fuel) sys w l level r = elim (Bool-cases (leb (w.logger l).level level)) [
  | inr e ↦ rw e done
  | inl e ↦ rw e (
      Nested-scope (record { mode = alone; mutex = logger l }) (omega arith)
        (own_locks-Nested (suc (rank (logger l))) sys w level (w.logger l).appenders _
          (rank_logger_le l)
          (root_locks-Nested w l (λ q. log_locks fuel sys w q level) r
            (log_locks-Nested fuel sys w 0 level r))))
]

each_appender_locks-Nested : (w : World) (l : ℕ) → Nested 3 (each_appender_locks w l)
unfolding each_appender_locks
each_appender_locks-Nested w l = Nested-scope _ (ground arith) (
    Nested-mono (rank_logger_le l)
      (Nested-each_any appender_locks (w.logger l).appenders appender_locks-Nested))

set_pattern_locks-Nested :
    (w : World) (l : ℕ) (f : Option LogFormatter) → Nested 3 (set_pattern_locks w l f)
unfolding set_pattern_locks
set_pattern_locks-Nested w l none = done
set_pattern_locks-Nested w l (some f) = elim (Bool-cases f.is_error) [
  | inl e ↦ rw e done
  | inr e ↦ rw e (each_appender_locks-Nested w l)
]

give_formatter_locks-Nested :
    (i : ℕ) (f : Option LogFormatter) → Nested 5 (give_formatter_locks i f)
unfolding give_formatter_locks
give_formatter_locks-Nested i none = appender_locks-Nested i
give_formatter_locks-Nested i (some f) = done

logger_alone-Nested : (l : ℕ) → Nested 3 (locked (logger l) [])
logger_alone-Nested l = Nested-scope _ (ground arith) done

add_appender_locks-Nested : (w : World) (l i : ℕ) → Nested 3 (add_appender_locks w l i)
unfolding add_appender_locks
add_appender_locks-Nested w l i = Nested-scope _ (ground arith) (
    Nested-mono (rank_logger_le l) (
      Nested-append (appender_locks-Nested i)
        (give_formatter_locks-Nested i (w.appender i).formatter)))

call_locks-Nested :
    (sys : System) (w : World) (c : Call) → IsRooted w → Nested 2 (call_locks sys w c)
unfolding call_locks
call_locks-Nested sys w (gets name) r = Nested-scope _ (omega arith) done
call_locks-Nested sys w makes_std_out r = done
call_locks-Nested sys w (makes_file filename last_time) r =
    Nested-mono (omega arith) (appender_locks-Nested w.next_appender)
call_locks-Nested sys w (adds l i) r = Nested-mono (omega arith) (add_appender_locks-Nested w l i)
call_locks-Nested sys w (removes l i) r = Nested-mono (omega arith) (logger_alone-Nested l)
call_locks-Nested sys w (clears l) r = Nested-mono (omega arith) (logger_alone-Nested l)
call_locks-Nested sys w (sets_level l level) r = done
call_locks-Nested sys w (sets_pattern l pattern) r =
    Nested-mono (omega arith) (set_pattern_locks-Nested w l (new_formatter pattern))
call_locks-Nested sys w (sets_formatter l f) r =
    Nested-mono (omega arith) (each_appender_locks-Nested w l)
call_locks-Nested sys w (appender_sets_formatter i f) r =
    Nested-mono (omega arith) (appender_locks-Nested i)
call_locks-Nested sys w (appender_sets_level i level) r = done
call_locks-Nested sys w (logs l level event) r =
    Nested-mono (ground arith) (log_locks-Nested depth sys w l level r)

manager_locks-Nested : (m : LoggerManager) → Nested 2 (manager_locks m)
unfolding manager_locks
manager_locks-Nested m = Nested-scope _ (omega arith) (
    Nested-each_any (λ (name, l). each_appender_locks m.world l) m.loggers
      (λ x. each_appender_locks-Nested m.world x.1))

-- A call reads a store whose loggers lead to the root.
abbrev pub IsSoundLogging : LoggingCall → Type 0
IsSoundLogging (calls sys m c) = IsRooted m.world
IsSoundLogging _ = Unit

pub logging_locks-Nested : (c : LoggingCall) → IsSoundLogging c → Nested 2 (logging_locks c)
unfolding logging_locks
logging_locks-Nested (calls sys m c) r = call_locks-Nested sys m.world c r
logging_locks-Nested (logger_to_yaml m l) r =
    Nested-mono (omega arith) (each_appender_locks-Nested m.world l)
logging_locks-Nested (manager_to_yaml m) r = manager_locks-Nested m
