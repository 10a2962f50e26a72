-- ===== src/Log/Logger/Tests.antt =====
-- Loggers on a store with two appenders.
use chord_server.Prelude.{
  ℕ, false, ◌≡◌, refl, [], ◌∷◌, none, some, leb, ◌==◌, if◌then◌else◌, codes, pos,
}
use chord_server.Log.Level.{debug, info, warn}
use chord_server.Log.Event.{LogEvent}
use chord_server.Log.Formatter.{LogFormatter}
use chord_server.Log.Formatter.Items.{FormatItem}
use chord_server.Log.World.{LogAppender, World, System, std_out, ok, cout}
use chord_server.Log.Logger
use chord_server.Log.Logger.{log}
use chord_server.Log.Logger.Outputs.{texts, log-texts, set_formatter_lem}

abbrev sys : System
sys = record { now = 0; strftime = λ f t. f; can_open = λ p. false; fails_at = λ p t. none }

-- "%p %m"
abbrev level_and_text : LogFormatter
level_and_text = record {
  pattern = codes "%p %m";
  items = FormatItem.level ∷ FormatItem.string (codes " ") ∷ FormatItem.message ∷ [];
  is_error = false;
}

-- Appender 0 has its own formatter, appender 1 one of its logger; its level is above INFO.
abbrev appenders : ℕ → LogAppender
appenders i = record {
  target = std_out;
  formatter = some level_and_text;
  level = if i == 0 then debug else warn;
  has_formatter = i == 0;
}

abbrev two_appenders : World
two_appenders = record {
  appender = appenders;
  next_appender = 2;
  logger = λ l. record {
    name = codes "root";
    level = debug;
    formatter = some level_and_text;
    appenders = 0 ∷ 1 ∷ [];
    root = none;
  };
  next_logger = 1;
  std_out = [];
  disk = λ p. [];
}

abbrev event : LogEvent
event = record {
  file = codes "main.cpp";
  line = pos 3;
  elapsed = 0;
  thread_id = 1;
  fiber_id = 0;
  time = 0;
  content = codes "hello";
  logger = 0;
  level = info;
}

log-texts_example :
    log 2 sys two_appenders 0 info event
    ≡ ok (
        if leb debug info
        then cout two_appenders (texts sys two_appenders (0 ∷ 1 ∷ []) info event)
        else two_appenders)
log-texts_example =
    log-texts 1 sys two_appenders 0 0 (1 ∷ []) info event refl
      ((refl, (level_and_text, refl)), ((refl, (level_and_text, refl)), tt))

abbrev text_only : LogFormatter
text_only = record { pattern = codes "%m"; items = FormatItem.message ∷ []; is_error = false }

set_formatter_lem_example :
    let next = Logger.set_formatter two_appenders 0 (some text_only) in
    (next.appender 1 ≡ record (appenders 1) { formatter = some text_only })
    × (next.logger 0 ≡ record (two_appenders.logger 0) { formatter = some text_only })
set_formatter_lem_example = set_formatter_lem two_appenders 0 0 1 (some text_only)
