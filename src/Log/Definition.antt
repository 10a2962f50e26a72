-- ===== src/Log/Definition.antt =====
-- LogDefine and LogAppenderDefine of chord/logger.cpp, sets of them, and their conversion from
-- text. What the conversion prints about a wrong document is left out.
pub mod Order
pub mod Print
pub mod Written
pub mod Pushed
pub mod RoundTrip
mod Tests
use chord_server.Prelude.{
  ◌>>=◌, ℕ, Bool, true, false, not, ◌&&◌, List, [], ◌∷◌, Option, none, some, ◌==◌, if◌then◌else◌,
  is_empty, Bytes, codes, equal, less,
}
use chord_server.Config.Yaml.{Yaml, Builder}
use chord_server.Log.Level.{Level, unknown, from_string, to_string}

-- `type` is 1 for a file, 2 for the standard output.
pub record LogAppenderDefine : Type 0 where
  pub type : ℕ
  pub level : Level
  pub formatter : Bytes
  pub file : Bytes

-- The members' initial values.
abbrev pub new_appender_define : LogAppenderDefine
new_appender_define = record { type = 0; level = unknown; formatter = []; file = [] }

pub record LogDefine : Type 0 where
  pub name : Bytes
  pub level : Level
  pub formatter : Bytes
  pub appenders : List LogAppenderDefine

-- `operator==` of LogAppenderDefine, of vectors of them, and of LogDefine.
unfoldable pub same_appender : LogAppenderDefine → LogAppenderDefine → Bool
same_appender a b =
    a.type == b.type
    && (a.level == b.level && (equal a.formatter b.formatter && equal a.file b.file))

unfoldable pub same_appenders : List LogAppenderDefine → List LogAppenderDefine → Bool
same_appenders [] [] = true
same_appenders (a ∷ as') (b ∷ bs) = same_appender a b && same_appenders as' bs
same_appenders _ _ = false

unfoldable pub same_define : LogDefine → LogDefine → Bool
unfolding same_appenders same_appender
same_define d e =
    equal d.name e.name
    && (d.level == e.level
        && (equal d.formatter e.formatter && same_appenders d.appenders e.appenders))

-- `std::set<LogDefine>`, in the order of `operator<`, which compares names only.
abbrev pub LogDefines : Type 0
LogDefines = List LogDefine

-- `insert`: a define whose name is there already changes nothing.
unfoldable pub insert_define : LogDefine → LogDefines → LogDefines
insert_define d [] = d ∷ []
insert_define d (e ∷ es) =
    let more = insert_define d es in
    if less d.name e.name then d ∷ e ∷ es else if less e.name d.name then e ∷ more else e ∷ es

-- `find`: names of which neither is less are equal.
unfoldable pub find_define : Bytes → LogDefines → Option LogDefine
find_define name [] = none
find_define name (e ∷ es) = if equal name e.name then some e else find_define name es

abbrev pub keep {ℓ} : {A : Type ℓ} → Option A → List A → List A
keep none xs = xs
keep (some x) xs = x ∷ xs

abbrev pub insert_some : Option LogDefine → LogDefines → LogDefines
insert_some none s = s
insert_some (some d) s = insert_define d s

module _ (yaml : Yaml) (b : Builder yaml) where
  open yaml use {Node, text}
  open b use {load, items, get, as_text, null, of_text, push_back, assign}

  -- `n[key].IsDefined() ? n[key].as<std::string>() : ""`
  unfoldable pub or_empty : Option Node → Option Bytes
  or_empty none = some []
  or_empty (some v) = as_text v

  unfoldable pub text_or_empty : Node → Bytes → Option Bytes
  unfolding or_empty
  text_or_empty n key = do found ← get n key; or_empty found

  -- The branch for a FileLogAppender; `some none` stands for `continue`, `none` for an exception.
  unfoldable pub read_file : Node → Option Node → Option (Option LogAppenderDefine)
  unfolding text_or_empty
  read_file a none = some none
  read_file a (some f) = do
    file ← as_text f
    formatter ← text_or_empty a (codes "formatter")
    some (some (record { type = 1; level = unknown; formatter = formatter; file = file }))

  unfoldable pub read_file_appender : Node → Option (Option LogAppenderDefine)
  unfolding read_file
  read_file_appender a = do found ← get a (codes "file"); read_file a found

  unfoldable pub read_typed : Node → Bytes → Option (Option LogAppenderDefine)
  unfolding read_file_appender
  read_typed a type =
      if equal type (codes "FileLogAppender")
      then read_file_appender a
      else if equal type (codes "StdoutLogAppender")
      then some (some (record new_appender_define { type = 2 }))
      else some (some new_appender_define)

  -- The body of the inner loop.
  unfoldable pub read_found_type : Node → Option Node → Option (Option LogAppenderDefine)
  unfolding read_typed
  read_found_type a none = some none
  read_found_type a (some t) = do type ← as_text t; read_typed a type

  unfoldable pub read_appender : Node → Option (Option LogAppenderDefine)
  unfolding read_found_type
  read_appender a = do found ← get a (codes "type"); read_found_type a found

  -- The inner loop.
  unfoldable pub read_appenders : List Node → Option (List LogAppenderDefine)
  unfolding read_appender
  read_appenders [] = some []
  read_appenders (a ∷ as') = do d ← read_appender a; ds ← read_appenders as'; some (keep d ds)

  unfoldable pub read_found_appenders : Option Node → Option (List LogAppenderDefine)
  unfolding read_appenders
  read_found_appenders none = some []
  read_found_appenders (some list) = read_appenders (items list)

  unfoldable pub read_all_appenders : Node → Option (List LogAppenderDefine)
  unfolding read_found_appenders
  read_all_appenders n = do found ← get n (codes "appenders"); read_found_appenders found

  -- The body of the outer loop.
  unfoldable pub read_named : Node → Option Node → Option (Option LogDefine)
  unfolding text_or_empty read_all_appenders
  read_named n none = some none
  read_named n (some v) = do
    name ← as_text v
    level ← text_or_empty n (codes "level")
    formatter ← text_or_empty n (codes "formatter")
    appenders ← read_all_appenders n
    some (
        some (record {
          name = name;
          level = from_string level;
          formatter = formatter;
          appenders = appenders;
        }))

  unfoldable pub read_define : Node → Option (Option LogDefine)
  unfolding read_named
  read_define n = do found ← get n (codes "name"); read_named n found

  -- The outer loop, on the set so far.
  unfoldable pub read_defines : List Node → LogDefines → Option LogDefines
  unfolding read_define insert_define
  read_defines [] s = some s
  read_defines (n ∷ ns) s = do d ← read_define n; read_defines ns (insert_some d s)

  -- LexicalCast<std::string, std::set<LogDefine>>
  unfoldable pub defines_from_string : Bytes → Option LogDefines
  unfolding read_defines
  defines_from_string v = do node ← load v; read_defines (items node) []
