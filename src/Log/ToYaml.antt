-- ===== src/Log/ToYaml.antt =====
-- The toYamlString functions of appenders, loggers and their manager in chord/logger.cpp.
pub mod Rising
pub mod Filed
pub mod Nodes
pub mod Described
mod Tests
use chord_server.Prelude.{
  ◌>>=◌, ℕ, Bool, true, false, List, [], ◌∷◌, Option, none, some, if◌then◌else◌, Bytes, codes,
}
use chord_server.Config.Yaml.{Yaml, Builder}
use chord_server.Log.Formatter.{LogFormatter}
use chord_server.Log.World.{LogFile, Target, std_out, file, LogAppender, Logger, World}
use chord_server.Log.Manager.{LoggerMap, LoggerManager}
use chord_server.Log.Definition.Print.{levelled, formatted, push_at}

-- `getPattern()` of a formatter that is not null.
abbrev pub pattern_of : Option LogFormatter → Option Bytes
pattern_of none = none
pattern_of (some f) = some f.pattern

-- The test `m_has_Formatter && m_formatter`.
abbrev pub own_pattern : LogAppender → Option Bytes
own_pattern a = if a.has_formatter then pattern_of a.formatter else none

module _ (yaml : Yaml) (b : Builder yaml) where
  open yaml use {Node, text}
  open b use {load, null, of_text, push_back, assign}

  abbrev pub target_node : Target → Node
  target_node std_out = assign null (codes "type") (of_text (codes "StdoutLogAppender"))
  target_node (file f) =
      assign (assign null (codes "type") (of_text (codes "FileLogAppender"))) (codes "file")
        (of_text f.filename)

  abbrev pub appender_node : LogAppender → Node
  appender_node a =
      formatted yaml b (levelled yaml b (target_node a.target) a.level) (own_pattern a)

  -- `StdOutLogAppender::toYamlString` and `FileLogAppender::toYamlString`
  unfoldable pub appender_to_yaml_string : LogAppender → Bytes
  appender_to_yaml_string a = text (appender_node a)

  abbrev pub logger_head : Logger → Node
  logger_head lg =
      formatted yaml b (levelled yaml b (assign null (codes "name") (of_text lg.name)) lg.level)
        (pattern_of lg.formatter)

  -- The loop over the appenders; `none` where `YAML::Load` throws.
  unfoldable pub push_appenders : World → Node → List ℕ → Option Node
  unfolding appender_to_yaml_string
  push_appenders w n [] = some n
  push_appenders w n (i ∷ is) = do
    x ← load (appender_to_yaml_string (w.appender i))
    push_appenders w (push_at yaml b n (codes "appenders") x) is

  -- `Logger::toYamlString`
  unfoldable pub logger_to_yaml_string : World → Logger → Option Bytes
  unfolding push_appenders
  logger_to_yaml_string w lg = do n ← push_appenders w (logger_head lg) lg.appenders; some (text n)

  -- The loop over the loggers.
  unfoldable pub push_loggers : World → Node → LoggerMap → Option Node
  unfolding logger_to_yaml_string
  push_loggers w n [] = some n
  push_loggers w n ((key, l) ∷ ls) = do
    s ← logger_to_yaml_string w (w.logger l)
    x ← load s
    push_loggers w (push_back n x) ls

  -- `LoggerManager::toYamlString`
  unfoldable pub manager_to_yaml_string : LoggerManager → Option Bytes
  unfolding push_loggers
  manager_to_yaml_string m = do n ← push_loggers m.world null m.loggers; some (text n)
