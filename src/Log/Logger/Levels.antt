-- ===== src/Log/Logger/Levels.antt =====
-- Logger::debug, info, warn, error and fatal of chord/logger.cpp. Each logs at its own level,
-- whatever the level that the event holds.
use chord_server.Prelude.{ℕ}
use chord_server.Log.Level
use chord_server.Log.Event.{LogEvent}
use chord_server.Log.World.{World, System, Run}
use chord_server.Log.Logger.{depth, log}

unfoldable pub debug : System → World → ℕ → LogEvent → Run World
debug sys w l event = log depth sys w l Level.debug event

unfoldable pub info : System → World → ℕ → LogEvent → Run World
info sys w l event = log depth sys w l Level.info event

unfoldable pub warn : System → World → ℕ → LogEvent → Run World
warn sys w l event = log depth sys w l Level.warn event

unfoldable pub error : System → World → ℕ → LogEvent → Run World
error sys w l event = log depth sys w l Level.error event

unfoldable pub fatal : System → World → ℕ → LogEvent → Run World
fatal sys w l event = log depth sys w l Level.fatal event
