-- ===== src/Locks/Protection/Calls.antt =====
-- What a program's calls change, against the locks that they take.
use chord_server.Prelude.{
  ℕ, true, false, ◌≡◌, refl, List, [], Option, none, some, ◌==◌, Bytes, arith, ==_iff,
}
use chord_server.Log.Level.{Level}
use chord_server.Log.World.{Target, World, System, ok, set_appender}
use chord_server.Log.Appender
use chord_server.Log.Logger
use chord_server.Log.Logger.{depth}
use chord_server.Log.Manager.{
  LoggerManager, Call, gets, makes_std_out, makes_file, adds, removes, clears, sets_level,
  sets_pattern, sets_formatter, appender_sets_formatter, appender_sets_level, logs, find,
  make_appender, make_logger, get_found, get_logger, step,
}
use chord_server.Log.Listener.Appenders.{Holds, Holds-bind}
use chord_server.Locks.{manager, logger, appender, Act}
use chord_server.Locks.Logging.{call_locks, log_locks}
use chord_server.Locks.Protection.{
  takes, SameLogger, SameAppender, Protects, Protects-refl, set_appender-Protects,
}
use chord_server.Locks.Protection.Writes.{
  takes-appender, set_formatter-Protects, set_pattern-Protects, add_appender-Protects,
  logger_alone-Protects,
}
use chord_server.Locks.Protection.Logs.{log-Protects}

-- Objects that are there stay as they are, but for levels, unless their mutex is taken.
pub record Guards (acts : List Act) (m o : LoggerManager) : Type 0 where
  pub loggers :
      (l : ℕ)
      → (l == m.world.next_logger) ≡ false
      → takes (logger l) acts ≡ false
      → SameLogger (o.world.logger l) (m.world.logger l)
  pub appenders :
      (i : ℕ)
      → (i == m.world.next_appender) ≡ false
      → takes (appender i) acts ≡ false
      → SameAppender (o.world.appender i) (m.world.appender i)
  pub names : takes manager acts ≡ false → o.loggers ≡ m.loggers

on_world-Guards :
    (acts : List Act) (m : LoggerManager) (w : World)
    → Protects acts m.world w
    → Guards acts m (record m { world = w })
on_world-Guards acts m w p = record {
  loggers = λ l old h. p.loggers l h;
  appenders = λ i old h. p.appenders i h;
  names = λ h. refl;
}

get_found-Guards :
    (m : LoggerManager) (name : Bytes) (acts : List Act) (found : Option ℕ)
    → takes manager acts ≡ true
    → Guards acts m (get_found m name found).0
unfolding get_found make_logger
get_found-Guards m name acts (some l) t =
    on_world-Guards acts m m.world (Protects-refl acts m.world)
get_found-Guards m name acts none t = record {
  loggers =
      λ l old h. ground (arith, old, ==_iff m.world.next_logger l, ==_iff l m.world.next_logger);
  appenders = λ i old h. (refl, refl, refl);
  names = λ h. absurd (ground arith);
}

-- A new appender is not shared yet.
make_appender-Guards :
    (acts : List Act) (m : LoggerManager) (disk : Bytes → Bytes) (t : Target)
    → Guards acts m (record m { world = make_appender (record m.world { disk = disk }) t })
unfolding make_appender
make_appender-Guards acts m disk t = record {
  loggers = λ l old h. (refl, refl, refl, refl);
  appenders = λ i old h.
      ground (arith, old, ==_iff m.world.next_appender i, ==_iff i m.world.next_appender);
  names = λ h. refl;
}

-- Levels are set without a lock.
set_level-Guards :
    (acts : List Act) (m : LoggerManager) (l : ℕ) (level : Level)
    → Guards acts m (record m { world = Logger.set_level m.world l level })
set_level-Guards acts m l level = record {
  loggers = λ k old h. ground (arith, ==_iff l k);
  appenders = λ i old h. (refl, refl, refl);
  names = λ h. refl;
}

appender_set_level-Guards :
    (acts : List Act) (m : LoggerManager) (i : ℕ) (level : Level)
    → Guards acts m (record m {
      world = set_appender m.world i (Appender.set_level (m.world.appender i) level);
    })
appender_set_level-Guards acts m i level = record {
  loggers = λ l old h. (refl, refl, refl, refl);
  appenders = λ j old h. ground (arith, ==_iff i j);
  names = λ h. refl;
}

-- Every call of a program, if it ends, leaves a logger's name, formatter, appenders and root as
-- they are unless it takes that logger's mutex, an appender's formatter and file unless it takes
-- that appender's, and the names of the loggers unless it takes the manager's, but for the places
-- of new objects.
pub step-Guards :
    (sys : System) (m : LoggerManager) (c : Call)
    → Holds (Guards (call_locks sys m.world c) m) (step sys m c)
unfolding step call_locks get_logger takes Logger.clear_appenders Logger.del_appender
step-Guards sys m (gets name) = get_found-Guards m name _ (find name m.loggers) refl
step-Guards sys m makes_std_out = make_appender-Guards [] m m.world.disk _
step-Guards sys m (makes_file filename last_time) = make_appender-Guards _ m _ _
step-Guards sys m (adds l i) = on_world-Guards _ m _ (add_appender-Protects m.world l i)
step-Guards sys m (removes l i) = on_world-Guards _ m _ (logger_alone-Protects m.world l _)
step-Guards sys m (clears l) = on_world-Guards _ m _ (logger_alone-Protects m.world l _)
step-Guards sys m (sets_level l level) = set_level-Guards [] m l level
step-Guards sys m (sets_pattern l pattern) =
    on_world-Guards _ m _ (set_pattern-Protects m.world l pattern)
step-Guards sys m (sets_formatter l f) = on_world-Guards _ m _ (set_formatter-Protects m.world l f)
step-Guards sys m (appender_sets_formatter i f) =
    on_world-Guards _ m _ (set_appender-Protects _ m.world i _ (takes-appender i))
step-Guards sys m (appender_sets_level i level) = appender_set_level-Guards [] m i level
step-Guards sys m (logs l level event) =
    Holds-bind (Protects (log_locks depth sys m.world l level) m.world)
      (Guards (log_locks depth sys m.world l level) m) (Logger.log depth sys m.world l level event)
      (λ w. ok (record m { world = w })) (log-Protects sys m.world l level event)
      (λ w p. on_world-Guards _ m w p)
