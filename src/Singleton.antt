-- ===== src/Singleton.antt =====
-- Singleton and SingletonPtr of chord/singleton.h, LoggerMgr of chord/log.h, and the macros
-- CHORD_LOG_ROOT and CHORD_LOG_NAME of chord/config.h.
pub mod Loggers
mod Tests
use chord_server.Prelude.{ℕ, List, [], ◌∷◌, Option, none, some, Bytes}
use chord_server.Log.Manager.{LoggerManager, new_manager, get_logger}

-- `static T v;`, or a static pointer to one: made by the first call that comes by, and kept. What
-- is given is the static, and what the constructor makes; what comes back is the static and the
-- object.
unfoldable pub get_instance {ℓ} : {T : Type ℓ} → Option T → T → Option T × T
get_instance none made = (some made, made)
get_instance (some v) made = (some v, v)

-- `LoggerMgr::GetInstance()`; the files on disk are those that the constructor finds.
abbrev pub LoggerMgr : Type 0
LoggerMgr = Option LoggerManager

unfoldable pub the_manager : LoggerMgr → (Bytes → Bytes) → LoggerMgr × LoggerManager
unfolding get_instance
the_manager s disk = get_instance s (new_manager disk)

-- `CHORD_LOG_ROOT()`, with the place of the logger.
unfoldable pub log_root : LoggerMgr → (Bytes → Bytes) → LoggerMgr × ℕ
unfolding the_manager
log_root s disk = let (s', m) = the_manager s disk in (s', m.root)

-- `CHORD_LOG_NAME(name)`
unfoldable pub log_name : LoggerMgr → (Bytes → Bytes) → Bytes → LoggerMgr × ℕ
unfolding the_manager
log_name s disk name =
    let (s', m) = the_manager s disk in let (m', l) = get_logger m name in (some m', l)

-- Names asked for one after another, with the loggers that are answered.
unfoldable pub log_names : LoggerMgr → (Bytes → Bytes) → List Bytes → LoggerMgr × List ℕ
unfolding log_name
log_names s disk [] = (s, [])
log_names s disk (name ∷ names) =
    let (s', l) = log_name s disk name in let (s'', ls) = log_names s' disk names in (s'', l ∷ ls)
