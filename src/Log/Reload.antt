-- ===== src/Log/Reload.antt =====
-- The variable "logs" of chord/logger.cpp with its listener, and the loading of texts into it.
pub mod Defined
pub mod Follows
pub mod Documents
mod Tests
use chord_server.Prelude.{Bool, true, false, ◌&&◌, List, [], ◌∷◌, ◌++◌, Bytes, codes, pos}
use chord_server.Config.Yaml.{Yaml, Builder}
use chord_server.Config.Var.{Callback, ConfigVar, new_var, add_listener, from_string}
use chord_server.Log.World.{Run, ok, ◌>>=◌}
use chord_server.Log.Logger.Macros.{CallSite, log_error}
use chord_server.Log.Manager.{LoggerManager}
use chord_server.Log.Definition.{LogDefines, same_define, defines_from_string}
use chord_server.Log.Listener.{Site, on_logs_changed}

-- `==` on std::set<LogDefine>: as many elements, equal in order.
unfoldable pub same_defines : LogDefines → LogDefines → Bool
same_defines [] [] = true
same_defines (d ∷ ds) (e ∷ es) = same_define d e && same_defines ds es
same_defines _ _ = false

-- What the listener sees and changes: where it runs, and the manager of the loggers.
abbrev pub Effect : Type 0
Effect = Site × Run LoggerManager

-- The listener that `LogIniter` adds.
abbrev pub listener : Callback LogDefines Effect
listener old new (s, m) = (s, m >>= on_logs_changed s old new)

-- `g_log_defines`, and what `LogIniter::LogIniter` makes of it.
abbrev pub log_defines : ConfigVar LogDefines Effect
log_defines = new_var (codes "logs") [] (codes "logs config")

unfoldable pub init_logs : ConfigVar LogDefines Effect
unfolding new_var add_listener
init_logs = (add_listener log_defines 0 listener).0

-- The variable and the manager.
pub record Logs : Type 0 where
  pub var : ConfigVar LogDefines Effect
  pub manager : Run LoggerManager

-- What the handler of `fromString` logs to the root logger.
unfoldable pub report_unread : Site → Bytes → LoggerManager → Run LoggerManager
report_unread s text m =
    let message : Bytes =
      codes "ConfigVar::toString exception"
      ++ (s.what text ++ (codes "convert: " ++ (s.type_name ++ (codes " - " ++ text)))) in
    let place : CallSite = record {
      file = codes "chord/config.h";
      line = pos 340;
      thread_id = s.thread_id;
      fiber_id = s.fiber_id;
      time = s.sys.now;
    } in
    do w ← log_error s.sys m.world place m.root message; ok (record m { world = w })

-- The handler, on what the listener changes.
abbrev pub handler : Bytes → Effect → Effect
handler text (s, m) = (s, m >>= report_unread s text)

module _ (yaml : Yaml) (b : Builder yaml) where
  -- `fromString` on the variable.
  unfoldable pub load_logs : Logs → Site → Bytes → Logs
  unfolding from_string
  load_logs l s text =
      let r =
        (from_string same_defines (defines_from_string yaml b) handler l.var text
          (s, l.manager)).0 in
      record { var = r.0; manager = r.1.1 }

  -- One text after another.
  unfoldable pub load_all : Logs → List (Site × Bytes) → Logs
  load_all l [] = l
  load_all l ((s, text) ∷ rest) = load_all (load_logs l s text) rest
