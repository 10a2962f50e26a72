-- ===== src/Log/Definition/Print.antt =====
-- LexicalCast<std::set<LogDefine>, std::string> of chord/logger.cpp: the document for a set of
-- definitions.
use chord_server.Prelude.{
  not, List, [], ◌∷◌, Option, none, some, ◌==◌, if◌then◌else◌, is_empty, Bytes, codes,
}
use chord_server.Config.Yaml.{Yaml, Builder}
use chord_server.Log.Level.{Level, unknown, to_string}
use chord_server.Log.Definition.{LogAppenderDefine, LogDefine, LogDefines}

module _ (yaml : Yaml) (b : Builder yaml) where
  open yaml use {Node, text}
  open b use {get, null, of_text, push_back, assign}

  -- `node[key].push_back(x)`, for a map, where `node[key]` does not throw.
  abbrev pub found_or_null : Option (Option Node) → Node
  found_or_null (some (some v)) = v
  found_or_null _ = null

  abbrev pub get_or_null : Node → Bytes → Node
  get_or_null n key = found_or_null (get n key)

  abbrev pub push_at : Node → Bytes → Node → Node
  push_at n key x = assign n key (push_back (get_or_null n key) x)

  abbrev pub typed_node : LogAppenderDefine → Node
  typed_node a =
      if a.type == 1
      then assign (assign null (codes "type") (of_text (codes "FileLogAppender"))) (codes "file")
          (of_text a.file)
      else if a.type == 2
      then assign null (codes "type") (of_text (codes "StdoutLogAppender"))
      else null

  -- The member "level", unless it is UNKNOWN, and the member "formatter", if there is one.
  abbrev pub levelled : Node → Level → Node
  levelled n level =
      if not (level == unknown) then assign n (codes "level") (of_text (to_string level)) else n

  abbrev pub formatted : Node → Option Bytes → Node
  formatted n none = n
  formatted n (some s) = assign n (codes "formatter") (of_text s)

  abbrev pub unless_empty : Bytes → Option Bytes
  unless_empty s = if not (is_empty s) then some s else none

  -- One appender's node.
  unfoldable pub write_appender : LogAppenderDefine → Node
  write_appender a = formatted (levelled (typed_node a) a.level) (unless_empty a.formatter)

  -- The loop over the appenders.
  unfoldable pub write_appenders : Node → List LogAppenderDefine → Node
  unfolding write_appender
  write_appenders n [] = n
  write_appenders n (a ∷ as') =
      write_appenders (push_at n (codes "appenders") (write_appender a)) as'

  unfoldable pub write_head : LogDefine → Node
  write_head d =
      let named = assign null (codes "name") (of_text d.name) in
      formatted
        (if d.level == unknown
          then assign named (codes "level") (of_text (to_string d.level))
          else named)
        (unless_empty d.formatter)

  unfoldable pub write_defines : Node → LogDefines → Node
  unfolding write_head write_appenders
  write_defines n [] = n
  write_defines n (d ∷ ds) =
      write_defines (push_back n (write_appenders (write_head d) d.appenders)) ds

  -- LexicalCast<std::set<LogDefine>, std::string>
  unfoldable pub defines_to_string : LogDefines → Bytes
  unfolding write_defines
  defines_to_string v = text (write_defines null v)
