-- ===== src/Log/Listener/Tests.antt =====
-- A new manager, and the definitions of one logger and another.
use chord_server.Prelude.{none, true, ◌≡◌, refl, [], ◌∷◌, codes}
use chord_server.Log.Level.{warn, error}
use chord_server.Log.World.{null_pointer, ok}
use chord_server.Log.Manager.{LoggerManager, new_manager}
use chord_server.Log.Manager.Safety.{IsSound, here, new_manager-IsSound}
use chord_server.Log.Definition.{LogDefine, find_define, same_define}
use chord_server.Log.Listener.{Site, on_logs_changed}
use chord_server.Log.Listener.Crashes.{on_logs_changed-Splits}
use chord_server.Log.Listener.Reached.{Reach-IsKeyed}
use chord_server.Log.Listener.Effects.{Settles, on_logs_changed-IsConfigured}

abbrev site : Site
site = record {
  sys = record { now = 0; strftime = λ f t. f; can_open = λ p. true; fails_at = λ p t. none };
  thread_id = 1;
  fiber_id = 0;
  last_time = λ i. 0;
  what = λ text. codes "bad conversion";
  type_name = codes "string";
}

abbrev root_define : LogDefine
root_define = record {
  name = codes "root";
  level = warn;
  formatter = [];
  appenders = record { type = 1; level = error; formatter = []; file = codes "a.txt" } ∷ [];
}

abbrev system_define : LogDefine
system_define = record {
  name = codes "system";
  level = warn;
  formatter = codes "%m%n";
  appenders = record { type = 2; level = error; formatter = []; file = [] } ∷ [];
}

abbrev start : LoggerManager
start = new_manager (λ p. [])

-- The definition of "system" takes the place of the one of "root".
on_logs_changed-IsConfigured_example :
    (o : LoggerManager) × (on_logs_changed site (root_define ∷ []) (system_define ∷ []) start
      ≡ ok o)
    × IsSound o
    × Settles (root_define ∷ []) (system_define ∷ []) o
unfolding find_define
on_logs_changed-IsConfigured_example =
    on_logs_changed-IsConfigured site (root_define ∷ []) (system_define ∷ []) start
      (new_manager-IsSound (λ p. [])) (Reach-IsKeyed (λ p. []) here) (tt, tt) (tt, tt) refl

-- A definition that stays the same.
on_logs_changed-Splits_example :
    on_logs_changed site (root_define ∷ []) (root_define ∷ []) start ≡ null_pointer
unfolding find_define same_define
on_logs_changed-Splits_example =
    on_logs_changed-Splits site (root_define ∷ []) (root_define ∷ []) start
      (new_manager-IsSound (λ p. []))
