-- ===== src/Log/Listener.antt =====
-- LogIniter of chord/logger.cpp: what a change of the variable "logs" does to the loggers.
pub mod Splits
pub mod Crashes
pub mod Changes
pub mod Realises
pub mod Fresh
pub mod Appenders
pub mod Announced
pub mod Keyed
pub mod Reached
pub mod Applied
pub mod Retired
pub mod Effects
mod Tests
use chord_server.Prelude.{
  ℕ, suc, Bool, true, false, not, List, [], ◌∷◌, ◌++◌, Option, none, some, ◌==◌, if◌then◌else◌,
  is_empty, Bytes, codes, pos,
}
use chord_server.Log.Level.{Level, info}
use chord_server.Log.Event.{LogEvent, new_event, stream, decimal}
use chord_server.Log.Formatter.{LogFormatter, new_formatter, constructor_output}
use chord_server.Log.World.{
  World, System, Target, std_out, file, Run, ok, null_pointer, no_fuel, ◌>>=◌, set_appender, cout,
}
use chord_server.Log.Appender
use chord_server.Log.Logger.{
  depth, log_level, set_level, set_pattern, clear_appenders, add_appender,
}
use chord_server.Log.Manager.{LoggerManager, get_logger, make_appender, make_file, step}
use chord_server.Log.Definition.{LogAppenderDefine, LogDefine, LogDefines, find_define, same_define}

-- Where the listener runs: what the system answers, the thread and the fiber, what the memory of a
-- new appender holds in `m_lastTime`, which no constructor sets, and for `fromString`, what the
-- exception says that reading a text throws, and `typeid` of a text.
pub record Site : Type 0 where
  pub sys : System
  pub thread_id : ℕ
  pub fiber_id : ℕ
  pub last_time : ℕ → ℕ
  pub what : Bytes → Bytes
  pub type_name : Bytes

-- `CHORD_LOG_INFO(CHORD_LOG_ROOT()) << "on_logger_conf_changed"`
unfoldable pub announce : Site → LoggerManager → Run World
announce s m = log_level s.sys m.world m.root info (
    stream
      (new_event m.root info (codes "chord/logger.cpp") (pos 820) 0 s.thread_id s.fiber_id
        s.sys.now)
      (codes "on_logger_conf_changed"))

-- `ap`: a null pointer unless the type is known.
unfoldable pub new_defined : Site → World → LogAppenderDefine → Option World
new_defined s w a =
    if a.type == 1
    then some (make_file s.sys w a.file (s.last_time w.next_appender))
    else if a.type == 2
    then some (make_appender w std_out)
    else none

-- `ap->setFormatter(fmt)` for the appender at `i`, or the message.
unfoldable pub dress_with : World → ℕ → LogDefine → LogAppenderDefine → Option LogFormatter → World
dress_with w i d a none = w
dress_with w i d a (some f) =
    if not f.is_error
    then set_appender w i (Appender.set_formatter (w.appender i) (some f))
    else cout w (
        codes "log name="
        ++ (d.name
            ++ (codes "appender type="
                ++ (decimal a.type ++ (codes "formatter" ++ (a.formatter ++ codes "invalid\n"))))))

-- The test for a formatter of the appender's own. The constructor of the formatter always returns
-- (Log/Formatter/Lines), so the case of no formatter does not arise.
unfoldable pub dress : World → ℕ → LogDefine → LogAppenderDefine → World
unfolding dress_with
dress w i d a =
    if not (is_empty a.formatter)
    then dress_with (cout w (constructor_output a.formatter)) i d a (new_formatter a.formatter)
    else w

-- One round of the loop over the appenders, for the logger at `l`.
unfoldable pub apply_appender : Site → LogDefine → World → ℕ → LogAppenderDefine → Run World
unfolding new_defined dress
apply_appender s d w l a = elim (new_defined s w a) [
  | none ↦ null_pointer
  | some made ↦
      let i = w.next_appender in
      let levelled = set_appender made i (Appender.set_level (made.appender i) a.level) in
      ok (add_appender (dress levelled i d a) l i)
]

unfoldable pub apply_appenders : Site → LogDefine → World → ℕ → List LogAppenderDefine → Run World
unfolding apply_appender
apply_appenders s d w l [] = ok w
apply_appenders s d w l (a ∷ as') = do w' ← apply_appender s d w l a; apply_appenders s d w' l as'

-- What the loop does with a logger that is not null.
unfoldable pub configure : Site → LogDefine → World → ℕ → Run World
unfolding apply_appenders
configure s d w l =
    let levelled = set_level w l d.level in
    let formatted =
      if not (is_empty d.formatter) then set_pattern levelled l d.formatter else levelled in
    apply_appenders s d (clear_appenders formatted l) l d.appenders

unfoldable pub configure_named : Site → LogDefine → LoggerManager → Run LoggerManager
unfolding configure
configure_named s d m =
    let (m', l) = get_logger m d.name in
    do w ← configure s d m'.world l; ok (record m' { world = w })

-- One round of the first loop: the logger stays null if the define is an old one that is the same.
unfoldable pub apply_define : Site → LogDefines → LogDefine → LoggerManager → Run LoggerManager
unfolding configure_named
apply_define s old d m = elim (find_define d.name old) [
  | none ↦ configure_named s d m
  | some e ↦ if not (same_define d e) then configure_named s d m else null_pointer
]

unfoldable pub apply_defines : Site → LogDefines → LogDefines → LoggerManager → Run LoggerManager
unfolding apply_define
apply_defines s old [] m = ok m
apply_defines s old (d ∷ ds) m = do m' ← apply_define s old d m; apply_defines s old ds m'

-- The value 100, cast to a level.
abbrev pub too_high : Level
too_high = 100

-- One round of the second loop.
unfoldable pub retire : LogDefines → LogDefine → LoggerManager → LoggerManager
retire new d m = elim (find_define d.name new) [
  | some e ↦ m
  | none ↦
      let (m', l) = get_logger m d.name in
      record m' { world = clear_appenders (set_level m'.world l too_high) l }
]

unfoldable pub retire_all : LogDefines → LogDefines → LoggerManager → LoggerManager
unfolding retire
retire_all new [] m = m
retire_all new (d ∷ ds) m = retire_all new ds (retire new d m)

-- The listener.
unfoldable pub on_logs_changed : Site → LogDefines → LogDefines → LoggerManager → Run LoggerManager
unfolding announce apply_defines retire_all
on_logs_changed s old new m = do
  w ← announce s m
  m' ← apply_defines s old new (record m { world = w })
  ok (retire_all new old m')
