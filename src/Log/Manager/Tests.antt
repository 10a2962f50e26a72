-- ===== src/Log/Manager/Tests.antt =====
-- A manager that is built, asked for a logger, and logs.
use chord_server.Prelude.{none, false, refl, [], Bytes, codes, pos}
use chord_server.Log.Level.{info}
use chord_server.Log.Event.{LogEvent}
use chord_server.Log.World.{System}
use chord_server.Log.Manager.{LoggerManager, gets, logs, new_manager, get_logger, step}
use chord_server.Log.Manager.Safety.{Reach, here, next, Succeeds, Reach-Succeeds}
use chord_server.Log.Manager.Names.{Answers, get_logger-Answers}

abbrev sys : System
sys = record { now = 0; strftime = λ f t. f; can_open = λ p. false; fails_at = λ p t. none }

abbrev no_files : Bytes → Bytes
no_files p = []

abbrev event : LogEvent
event = record {
  file = codes "main.cpp";
  line = pos 3;
  elapsed = 0;
  thread_id = 1;
  fiber_id = 0;
  time = 0;
  content = codes "hello";
  logger = 1;
  level = info;
}

abbrev with_system : LoggerManager
with_system = (get_logger (new_manager no_files) (codes "system")).0

with_system-Reach : Reach (new_manager no_files) with_system
unfolding step
with_system-Reach = next sys (gets (codes "system")) here tt refl

Reach-Succeeds_example : Succeeds (step sys with_system (logs 1 info event))
Reach-Succeeds_example = Reach-Succeeds no_files sys (logs 1 info event) with_system-Reach tt

get_logger-Answers_example :
    Answers
      (new_manager no_files)
      (codes "system")
      (codes "root")
      (get_logger (new_manager no_files) (codes "system"))
get_logger-Answers_example =
    get_logger-Answers (new_manager no_files) (codes "system") (codes "root")
