-- ===== src/Locks/Logging.antt =====
-- The locks of the operations of chord/logger.cpp, in the order in which they are taken and
-- released. What an operation reads, and so the way it goes, is given by a store.
use chord_server.Prelude.{
  ℕ, ◌+◌, not, List, [], ◌∷◌, ◌++◌, Option, none, some, leb, ◌==◌, if◌then◌else◌, zero, suc,
}
use chord_server.Log.Level.{Level}
use chord_server.Log.Formatter.{LogFormatter, new_formatter}
use chord_server.Log.World.{LogFile, Target, std_out, file, World, System}
use chord_server.Log.Appender.{u64}
use chord_server.Log.Logger.{depth}
use chord_server.Log.Manager.{
  LoggerManager, Call, gets, makes_std_out, makes_file, adds, removes, clears, sets_level,
  sets_pattern, sets_formatter, appender_sets_formatter, appender_sets_level, logs,
}
use chord_server.Locks.{Act, manager, logger, appender, locked, each}

-- LogAppender::setFormatter and getFormatter, FileLogAppender::reopen, and both
-- toYamlString of appenders.
abbrev pub appender_locks : ℕ → List Act
appender_locks i = locked (appender i) []

-- `if(now != m_lastTime + 3) { reopen(); … }`
unfoldable pub refresh_locks : System → ℕ → LogFile → List Act
refresh_locks sys i f = if not (sys.now == u64 (f.last_time + 3)) then appender_locks i else []

unfoldable pub target_locks : System → ℕ → Target → List Act
unfolding refresh_locks
target_locks sys i std_out = []
target_locks sys i (file f) = refresh_locks sys i f

-- `log` of both appenders.
unfoldable pub appender_log_locks : System → World → Level → ℕ → List Act
unfolding target_locks
appender_log_locks sys w level i =
    let a = w.appender i in
    if leb a.level level then target_locks sys i a.target ++ appender_locks i else []

-- Logger::log, with the fuel of Log/Logger.
unfoldable pub own_locks : System → World → Level → List ℕ → List Act → List Act
own_locks sys w level [] up = up
own_locks sys w level (i ∷ is) up = each (appender_log_locks sys w level) (i ∷ is)

unfoldable pub root_locks : (ℕ → List Act) → Option ℕ → List Act
root_locks of none = []
root_locks of (some r) = of r

unfoldable pub log_locks : ℕ → System → World → ℕ → Level → List Act
unfolding own_locks root_locks
log_locks zero sys w l level = []
log_locks (suc fuel) sys w l level =
    let lg = w.logger l in
    let up = root_locks (λ r. log_locks fuel sys w r level) lg.root in
    if leb lg.level level then locked (logger l) (own_locks sys w level lg.appenders up) else []

-- The loops of Logger::setFormatter and Logger::toYamlString have a guard for each appender.
unfoldable pub each_appender_locks : World → ℕ → List Act
each_appender_locks w l = locked (logger l) (each appender_locks (w.logger l).appenders)

-- Logger::setFormatter(const std::string&)
unfoldable pub set_pattern_locks : World → ℕ → Option LogFormatter → List Act
unfolding each_appender_locks
set_pattern_locks w l none = []
set_pattern_locks w l (some f) = if f.is_error then [] else each_appender_locks w l

-- `if(!appender->getFormatter()) …`
unfoldable pub give_formatter_locks : ℕ → Option LogFormatter → List Act
give_formatter_locks i none = appender_locks i
give_formatter_locks i (some f) = []

unfoldable pub add_appender_locks : World → ℕ → ℕ → List Act
unfolding give_formatter_locks
add_appender_locks w l i =
    locked (logger l) (appender_locks i ++ give_formatter_locks i (w.appender i).formatter)

-- The calls of Log/Manager. `setLevel` takes no lock; the constructor of a file appender opens it.
unfoldable pub call_locks : System → World → Call → List Act
unfolding add_appender_locks set_pattern_locks each_appender_locks log_locks
call_locks sys w (gets name) = locked manager []
call_locks sys w makes_std_out = []
call_locks sys w (makes_file filename last_time) = appender_locks w.next_appender
call_locks sys w (adds l i) = add_appender_locks w l i
call_locks sys w (removes l i) = locked (logger l) []
call_locks sys w (clears l) = locked (logger l) []
call_locks sys w (sets_level l level) = []
call_locks sys w (sets_pattern l pattern) = set_pattern_locks w l (new_formatter pattern)
call_locks sys w (sets_formatter l f) = each_appender_locks w l
call_locks sys w (appender_sets_formatter i f) = appender_locks i
call_locks sys w (appender_sets_level i level) = []
call_locks sys w (logs l level event) = log_locks depth sys w l level

-- LoggerManager::toYamlString
unfoldable pub manager_locks : LoggerManager → List Act
unfolding each_appender_locks
manager_locks m = locked manager (each (λ (name, l). each_appender_locks m.world l) m.loggers)

-- A call of the logging component, with what it reads.
pub data LoggingCall : Type 0 where
  calls : System → LoggerManager → Call → LoggingCall
  logger_to_yaml : LoggerManager → ℕ → LoggingCall
  manager_to_yaml : LoggerManager → LoggingCall

unfoldable pub logging_locks : LoggingCall → List Act
unfolding call_locks manager_locks
logging_locks (calls sys m c) = call_locks sys m.world c
logging_locks (logger_to_yaml m l) = each_appender_locks m.world l
logging_locks (manager_to_yaml m) = manager_locks m
