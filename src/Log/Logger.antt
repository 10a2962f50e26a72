-- ===== src/Log/Logger.antt =====
-- Logger of chord/log.h and chord/logger.cpp, on the store of loggers and appenders.
pub mod Safety
pub mod Calls
pub mod Outputs
pub mod Levels
pub mod Macros
mod Tests
use chord_server.Prelude.{
  ℕ, zero, suc, ◌+◌, Bool, true, false, not, List, [], ◌∷◌, ◌++◌, Option, none, some, leb, ◌==◌,
  if◌then◌else◌, Bytes, codes,
}
use chord_server.Log.Level.{Level, debug, info, warn, error, fatal}
use chord_server.Log.Event.{LogEvent, format}
use chord_server.Log.Formatter.{LogFormatter, new_formatter, constructor_output}
use chord_server.Log.World.{
  LogAppender, Logger, World, System, Run, ok, null_pointer, no_fuel, ◌>>=◌, set_appender,
  set_logger, cout,
}
use chord_server.Log.Appender

abbrev pub default_pattern : Bytes
default_pattern = codes "%d{%Y-%m-%d %H:%M:%S}%T%t%T%F%T[%p]%T[%c]%f:%l%T%m%n"

-- `Logger::Logger`; `root` is set by the manager behind it.
unfoldable pub new_logger : Bytes → Logger
new_logger name = record {
  name = name;
  level = debug;
  formatter = new_formatter default_pattern;
  appenders = [];
  root = none;
}

-- One round of the loop of `Logger::setFormatter`.
abbrev pub inherit : Option LogFormatter → World → ℕ → World
inherit val w i =
    if not (w.appender i).has_formatter
    then set_appender w i (record (w.appender i) { formatter = val })
    else w

unfoldable pub inherit_all : Option LogFormatter → World → List ℕ → World
inherit_all val w [] = w
inherit_all val w (i ∷ is) = inherit_all val (inherit val w i) is

-- `Logger::setFormatter(LogFormatter::ptr)`, for the logger at `l`.
unfoldable pub set_formatter : World → ℕ → Option LogFormatter → World
set_formatter w l val =
    inherit_all val (set_logger w l (record (w.logger l) { formatter = val }))
      (w.logger l).appenders

unfoldable pub set_formatter_made : World → ℕ → Bytes → Option LogFormatter → World
set_formatter_made w l pattern none = w
set_formatter_made w l pattern (some f) =
    if f.is_error
    then cout w (
        codes "Logger setFormatter name="
        ++ ((w.logger l).name ++ (codes "value=" ++ (pattern ++ codes " invalid formatter\n"))))
    else set_formatter w l (some f)

-- `Logger::setFormatter(const std::string&)`. The constructor of the formatter always returns
-- (Log/Formatter/Lines), so the case of no formatter does not arise; what it prints comes first.
unfoldable pub set_pattern : World → ℕ → Bytes → World
unfolding set_formatter_made
set_pattern w l pattern =
    set_formatter_made (cout w (constructor_output pattern)) l pattern (new_formatter pattern)

-- `if(!appender->getFormatter()) appender->m_formatter = m_formatter;`
unfoldable pub give_formatter : World → ℕ → Option LogFormatter → Option LogFormatter → World
give_formatter w i (some f) val = w
give_formatter w i none val = set_appender w i (record (w.appender i) { formatter = val })

-- `Logger::addAppender`
unfoldable pub add_appender : World → ℕ → ℕ → World
unfolding give_formatter
add_appender w l i =
    let given = give_formatter w i (Appender.get_formatter (w.appender i)) (w.logger l).formatter in
    set_logger given l (record (w.logger l) { appenders = (w.logger l).appenders ++ i ∷ [] })

-- `Logger::clearAppenders`
unfoldable pub clear_appenders : World → ℕ → World
clear_appenders w l = set_logger w l (record (w.logger l) { appenders = [] })

-- The first occurrence is erased, and the loop ends there.
unfoldable pub erase_first : ℕ → List ℕ → List ℕ
erase_first i [] = []
erase_first i (j ∷ js) = if j == i then js else j ∷ erase_first i js

-- `Logger::delAppender`
unfoldable pub del_appender : World → ℕ → ℕ → World
unfolding erase_first
del_appender w l i =
    set_logger w l (record (w.logger l) { appenders = erase_first i (w.logger l).appenders })

-- `Logger::setLevel`
abbrev pub set_level : World → ℕ → Level → World
set_level w l level = set_logger w l (record (w.logger l) { level = level })

-- The loop over the appenders.
unfoldable pub log_each : System → World → List ℕ → Level → LogEvent → Run World
log_each sys w [] level event = ok w
log_each sys w (i ∷ is) level event = do
  w' ← Appender.log sys w i level event
  log_each sys w' is level event

-- `else if (m_root != nullptr) m_root->log(level, event);`, given what the root's `log` does.
unfoldable pub log_root : (ℕ → Run World) → World → Option ℕ → Run World
log_root of w none = ok w
log_root of w (some r) = of r

-- `if(!m_appenders.empty()) … else …`
unfoldable pub log_own : System → World → List ℕ → Level → LogEvent → Run World → Run World
log_own sys w [] level event up = up
log_own sys w (i ∷ is) level event up = log_each sys w (i ∷ is) level event

-- `Logger::log`; the fuel counts the loggers on the way along `m_root`.
unfoldable pub log : ℕ → System → World → ℕ → Level → LogEvent → Run World
unfolding log_root log_own
log zero sys w l level event = no_fuel
log (suc fuel) sys w l level event =
    let lg = w.logger l in
    let up = log_root (λ r. log fuel sys w r level event) w lg.root in
    if leb lg.level level then log_own sys w lg.appenders level event up else ok w

-- A logger of the manager has no root, or the manager's, which has none.
abbrev pub depth : ℕ
depth = 2

-- `LogEventWrap::~LogEventWrap`
abbrev pub end_wrap : System → World → LogEvent → Run World
end_wrap sys w event = log depth sys w event.logger event.level event

-- The macro CHORD_LOG_LEVEL, given the event as the text behind the macro leaves it: the wrap ends
-- with the statement.
unfoldable pub log_level : System → World → ℕ → Level → LogEvent → Run World
log_level sys w l level event = if leb (w.logger l).level level then end_wrap sys w event else ok w

-- The macro CHORD_LOG_FMT_LEVEL, given what `vasprintf` makes of its arguments.
unfoldable pub log_fmt_level : System → World → ℕ → Level → LogEvent → Option Bytes → Run World
unfolding log_level
log_fmt_level sys w l level event printed = log_level sys w l level (format event printed)
