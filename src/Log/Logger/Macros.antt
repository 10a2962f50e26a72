-- ===== src/Log/Logger/Macros.antt =====
-- The macros CHORD_LOG_DEBUG to CHORD_LOG_FATAL and CHORD_LOG_FMT_DEBUG to CHORD_LOG_FMT_FATAL of
-- chord/config.h, with what is written behind them, against the operations of Logger.
use chord_server.Prelude.{ℕ, ◌≡◌, refl, Option, some, Bytes, ℤ, leb, Bool-cases, inl, inr}
use chord_server.Log.Level.{Level, debug, info, warn, error, fatal}
use chord_server.Log.Event.{LogEvent, new_event, stream, format}
use chord_server.Log.World.{World, System, Run}
use chord_server.Log.Logger.{log, depth, log_level, log_fmt_level}
use chord_server.Log.Logger.Levels

-- Where a macro is written, `__FILE__` and `__LINE__`, and what GetThreadId, GetFiberId and time
-- answer there.
pub record CallSite : Type 0 where
  pub file : Bytes
  pub line : ℤ
  pub thread_id : ℕ
  pub fiber_id : ℕ
  pub time : ℕ

-- The event that a macro makes for the logger at `l`.
unfoldable pub event_at : CallSite → ℕ → Level → LogEvent
event_at s l level = new_event l level s.file s.line 0 s.thread_id s.fiber_id s.time

-- The event with the text behind the macro.
unfoldable pub text_at : CallSite → ℕ → Level → Bytes → LogEvent
unfolding event_at
text_at s l level text = stream (event_at s l level) text

-- `CHORD_LOG_DEBUG(logger) << text`
unfoldable pub log_debug : System → World → CallSite → ℕ → Bytes → Run World
log_debug sys w s l text = log_level sys w l debug (text_at s l debug text)

-- `CHORD_LOG_INFO(logger) << text`
unfoldable pub log_info : System → World → CallSite → ℕ → Bytes → Run World
log_info sys w s l text = log_level sys w l info (text_at s l info text)

-- `CHORD_LOG_WARN(logger) << text`
unfoldable pub log_warn : System → World → CallSite → ℕ → Bytes → Run World
log_warn sys w s l text = log_level sys w l warn (text_at s l warn text)

-- `CHORD_LOG_ERROR(logger) << text`
unfoldable pub log_error : System → World → CallSite → ℕ → Bytes → Run World
log_error sys w s l text = log_level sys w l error (text_at s l error text)

-- `CHORD_LOG_FATAL(logger) << text`
unfoldable pub log_fatal : System → World → CallSite → ℕ → Bytes → Run World
log_fatal sys w s l text = log_level sys w l fatal (text_at s l fatal text)

-- `CHORD_LOG_FMT_DEBUG(logger, fmt, …)`, given what `vasprintf` makes of the arguments.
unfoldable pub log_fmt_debug : System → World → CallSite → ℕ → Option Bytes → Run World
log_fmt_debug sys w s l printed = log_fmt_level sys w l debug (event_at s l debug) printed

-- `CHORD_LOG_FMT_INFO(logger, fmt, …)`
unfoldable pub log_fmt_info : System → World → CallSite → ℕ → Option Bytes → Run World
log_fmt_info sys w s l printed = log_fmt_level sys w l info (event_at s l info) printed

-- `CHORD_LOG_FMT_WARN(logger, fmt, …)`
unfoldable pub log_fmt_warn : System → World → CallSite → ℕ → Option Bytes → Run World
log_fmt_warn sys w s l printed = log_fmt_level sys w l warn (event_at s l warn) printed

-- `CHORD_LOG_FMT_ERROR(logger, fmt, …)`
unfoldable pub log_fmt_error : System → World → CallSite → ℕ → Option Bytes → Run World
log_fmt_error sys w s l printed = log_fmt_level sys w l error (event_at s l error) printed

-- `CHORD_LOG_FMT_FATAL(logger, fmt, …)`
unfoldable pub log_fmt_fatal : System → World → CallSite → ℕ → Option Bytes → Run World
log_fmt_fatal sys w s l printed = log_fmt_level sys w l fatal (event_at s l fatal) printed

-- The macro's own test changes nothing: Logger::log tests the level again.
log_level-log :
    (sys : System) (w : World) (l : ℕ) (level : Level) (event : LogEvent)
    → event.logger ≡ l
    → event.level ≡ level
    → log_level sys w l level event ≡ log depth sys w l level event
unfolding log_level log
log_level-log sys w l level event el ev = elim (Bool-cases (leb (w.logger l).level level)) [
  | inl b ↦ rw (b, el, ev) (rw b refl)
  | inr b ↦ rw b refl
]

module _ (sys : System) (w : World) (s : CallSite) (l : ℕ) (text : Bytes) where
  text_at-log :
      (level : Level)
      → log_level sys w l level (text_at s l level text)
        ≡ log depth sys w l level (text_at s l level text)
  unfolding text_at event_at new_event stream
  text_at-log level = log_level-log sys w l level (text_at s l level text) refl refl

  -- Each macro with a text behind it does what the logger's operation of the same level does with
  -- the event that the macro makes and the text fills.
  pub macros-Levels :
      (log_debug sys w s l text ≡ Levels.debug sys w l (text_at s l debug text))
      × (log_info sys w s l text ≡ Levels.info sys w l (text_at s l info text))
      × (log_warn sys w s l text ≡ Levels.warn sys w l (text_at s l warn text))
      × (log_error sys w s l text ≡ Levels.error sys w l (text_at s l error text))
      × (log_fatal sys w s l text ≡ Levels.fatal sys w l (text_at s l fatal text))
  unfolding log_debug log_info log_warn log_error log_fatal Levels.debug Levels.info Levels.warn
      Levels.error Levels.fatal
  macros-Levels =
      (text_at-log debug, text_at-log info, text_at-log warn, text_at-log error, text_at-log fatal)

  -- A macro that prints does what the macro with the printed text behind it does.
  pub log_fmt-log :
      (log_fmt_debug sys w s l (some text) ≡ log_debug sys w s l text)
      × (log_fmt_info sys w s l (some text) ≡ log_info sys w s l text)
      × (log_fmt_warn sys w s l (some text) ≡ log_warn sys w s l text)
      × (log_fmt_error sys w s l (some text) ≡ log_error sys w s l text)
      × (log_fmt_fatal sys w s l (some text) ≡ log_fatal sys w s l text)
  unfolding log_fmt_debug log_fmt_info log_fmt_warn log_fmt_error log_fmt_fatal log_debug log_info
      log_warn log_error log_fatal log_fmt_level format text_at
  log_fmt-log = (refl, refl, refl, refl, refl)
