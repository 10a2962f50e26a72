-- ===== src/Log/ToYaml/Tests.antt =====
-- A manager with one more logger, listed on documents that are their own texts.
use chord_server.Prelude.{none, true, [], codes}
use chord_server.Log.World.{System}
use chord_server.Log.Manager.{LoggerManager, new_manager, get_logger}

abbrev sys : System
sys = record { now = 0; strftime = λ f t. f; can_open = λ p. true; fails_at = λ p t. none }

abbrev start : LoggerManager
start = new_manager (λ p. [])

abbrev with_system : LoggerManager
with_system = (get_logger start (codes "system")).0
