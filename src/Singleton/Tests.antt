-- ===== src/Singleton/Tests.antt =====
-- The first call of a macro makes the manager.
use chord_server.Prelude.{◌≡◌, refl, [], ◌∷◌, none, Bytes, codes}
use chord_server.Log.Logger.{add_appender}
use chord_server.Log.Manager.{new_manager, get_logger, find, insert}
use chord_server.Singleton.{log_root, log_names}

abbrev no_files : Bytes → Bytes
no_files p = []

first_root : (log_root none no_files).1 ≡ 0
unfolding log_root new_manager
first_root = refl

names_twice : (log_names none no_files (codes "a" ∷ codes "b" ∷ codes "a" ∷ [])).1 ≡ 1 ∷ 2 ∷ 1 ∷ []
unfolding log_names new_manager get_logger find insert add_appender
names_twice = refl
