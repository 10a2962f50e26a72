-- ===== src/Log/Manager.antt =====
-- LoggerManager of chord/log.h and chord/logger.cpp, and the calls that a program makes of the
-- logging component through it.
pub mod Safety
pub mod Names
mod Tests
use chord_server.Prelude.{
  ℕ, suc, ◌+◌, Bool, true, false, List, [], ◌∷◌, ◌++◌, Option, none, some, if◌then◌else◌, Bytes,
  codes, equal, less,
}
use chord_server.Log.Level.{Level}
use chord_server.Log.Event.{LogEvent}
use chord_server.Log.Formatter.{LogFormatter}
use chord_server.Log.World.{
  LogAppender, Logger, World, System, Target, std_out, file, Run, ok, ◌>>=◌, set_appender,
  set_logger,
}
use chord_server.Log.Appender.{new_appender, new_log_file}
use chord_server.Log.Appender
use chord_server.Log.Logger.{new_logger, depth}
use chord_server.Log.Logger

-- `std::map<std::string, Logger::ptr>`: entries in the order of their keys.
abbrev pub LoggerMap : Type 0
LoggerMap = List (Bytes × ℕ)

unfoldable pub find : Bytes → LoggerMap → Option ℕ
find name [] = none
find name ((key, l) ∷ m) = if equal key name then some l else find name m

-- `m_logger[name] = logger`
unfoldable pub insert : Bytes → ℕ → LoggerMap → LoggerMap
insert name l [] = (name, l) ∷ []
insert name l ((key, k) ∷ m) =
    let more = insert name l m in
    if equal key name
    then (key, l) ∷ m
    else if less name key
    then (name, l) ∷ (key, k) ∷ m
    else (key, k) ∷ more

-- `class LoggerManager`, with the store that its loggers live on.
pub record LoggerManager : Type 0 where
  pub world : World
  pub loggers : LoggerMap
  pub root : ℕ

-- Places of the store that nothing has taken hold fresh objects.
unfoldable pub empty_world : (Bytes → Bytes) → World
empty_world disk = record {
  appender = λ _. new_appender std_out;
  next_appender = 0;
  logger = λ _. new_logger (codes "root");
  next_logger = 0;
  std_out = [];
  disk = disk;
}

-- `new StdOutLogAppender` or `new FileLogAppender(name)`, given its target.
unfoldable pub make_appender : World → Target → World
make_appender w target =
    set_appender (record w { next_appender = suc w.next_appender }) w.next_appender
      (new_appender target)

unfoldable pub make_logger : World → Logger → World
make_logger w lg = set_logger (record w { next_logger = suc w.next_logger }) w.next_logger lg

-- `LoggerManager::LoggerManager`: the root takes place 0, with a standard output appender.
unfoldable pub new_manager : (Bytes → Bytes) → LoggerManager
unfolding empty_world make_appender make_logger
new_manager disk =
    let w = make_appender (make_logger (empty_world disk) (new_logger (codes "root"))) std_out in
    record { world = Logger.add_appender w 0 0; loggers = insert (codes "root") 0 []; root = 0 }

unfoldable pub get_found : LoggerManager → Bytes → Option ℕ → LoggerManager × ℕ
get_found m name (some l) = (m, l)
get_found m name none = (
  record m {
    world = make_logger m.world (record (new_logger name) { root = some m.root });
    loggers = insert name m.world.next_logger m.loggers;
  },
  m.world.next_logger,
)

-- `LoggerManager::getLogger`
unfoldable pub get_logger : LoggerManager → Bytes → LoggerManager × ℕ
unfolding get_found make_logger
get_logger m name = get_found m name (find name m.loggers)

-- What a program may ask for: loggers and appenders are named by their places; a null formatter is
-- `none`.
pub data Call : Type 0 where
  gets : Bytes → Call
  makes_std_out : Call
  makes_file : Bytes → ℕ → Call
  adds removes : ℕ → ℕ → Call
  clears : ℕ → Call
  sets_level : ℕ → Level → Call
  sets_pattern : ℕ → Bytes → Call
  sets_formatter : ℕ → Option LogFormatter → Call
  appender_sets_formatter : ℕ → Option LogFormatter → Call
  appender_sets_level : ℕ → Level → Call
  logs : ℕ → Level → LogEvent → Call

abbrev on_world : LoggerManager → World → Run LoggerManager
on_world m w = ok (record m { world = w })

-- A file appender is opened when it is made.
abbrev pub make_file : System → World → Bytes → ℕ → World
make_file sys w filename last_time =
    let st = new_log_file sys filename last_time w.disk in
    make_appender (record w { disk = st.disk }) (file st.file)

unfoldable pub step : System → LoggerManager → Call → Run LoggerManager
unfolding make_appender
step sys m (gets name) = ok (get_logger m name).0
step sys m makes_std_out = on_world m (make_appender m.world std_out)
step sys m (makes_file filename last_time) = on_world m (make_file sys m.world filename last_time)
step sys m (adds l i) = on_world m (Logger.add_appender m.world l i)
step sys m (removes l i) = on_world m (Logger.del_appender m.world l i)
step sys m (clears l) = on_world m (Logger.clear_appenders m.world l)
step sys m (sets_level l level) = on_world m (Logger.set_level m.world l level)
step sys m (sets_pattern l pattern) = on_world m (Logger.set_pattern m.world l pattern)
step sys m (sets_formatter l f) = on_world m (Logger.set_formatter m.world l f)
step sys m (appender_sets_formatter i f) =
    on_world m (set_appender m.world i (Appender.set_formatter (m.world.appender i) f))
step sys m (appender_sets_level i level) =
    on_world m (set_appender m.world i (Appender.set_level (m.world.appender i) level))
step sys m (logs l level event) = do w ← Logger.log depth sys m.world l level event; on_world m w

-- Calls one after another, each with what the system answers then.
unfoldable pub run : LoggerManager → List (System × Call) → Run LoggerManager
run m [] = ok m
run m ((sys, c) ∷ cs) = do m' ← step sys m c; run m' cs
