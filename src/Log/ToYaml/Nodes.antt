-- ===== src/Log/ToYaml/Nodes.antt =====
-- What is read from the node of a logger.
use chord_server.Prelude.{
  ℕ, false, not, ◌≡◌, refl, ap, ◌∙◌, List, [], ◌∷◌, Option, none, some, ◌==◌, leb, if◌then◌else◌,
  Bytes, codes, equal, map, All, arith,
}
use chord_server.Config.Yaml.{Yaml, Builder, Laws}
use chord_server.Log.Level.{Level, unknown, fatal, from_string, to_string}
use chord_server.Log.Level.Names.{from_string-to_string}
use chord_server.Log.World.{Target, std_out, file, LogAppender, Logger, World}
use chord_server.Log.Definition.{
  LogAppenderDefine, LogDefine, text_or_empty, read_appender, read_all_appenders, read_define,
}
use chord_server.Log.Definition.Written.{
  text_of, text-optional, decorated-IsMap, decorated-formatter, decorated-other, decorated-level,
  read_appender-decorated,
}
use chord_server.Log.Definition.Pushed.{
  keep_all, push_all, push_all-get, read_all_appenders-push_all, read_appenders-map,
}
use chord_server.Log.ToYaml.{pattern_of, own_pattern, appender_node, logger_head}

-- The define that an appender's text is read as: no level, and a formatter for files only.
abbrev pub described_target : Target → Bytes → LogAppenderDefine
described_target std_out formatter = record { type = 2; level = unknown; formatter = []; file = [] }
described_target (file f) formatter = record {
  type = 1;
  level = unknown;
  formatter = formatter;
  file = f.filename;
}

abbrev pub described_appender : LogAppender → LogAppenderDefine
described_appender a = described_target a.target (text_of (own_pattern a))

-- The define that a logger's text is read as: its level, if it is one of the enumerators.
abbrev pub described : World → Logger → LogDefine
described w lg = record {
  name = lg.name;
  level = if leb lg.level fatal then lg.level else unknown;
  formatter = text_of (pattern_of lg.formatter);
  appenders = map (λ i. described_appender (w.appender i)) lg.appenders;
}

keep_all-some :
    {X : Type 0} (f : X → LogAppenderDefine) (xs : List X)
    → keep_all (map (λ x. some (f x)) xs) ≡ map f xs
keep_all-some f [] = refl
keep_all-some f (x ∷ xs) = rw (keep_all-some f xs)

module _ (yaml : Yaml) (b : Builder yaml) (y : Laws yaml b) where
  open yaml use {Node, text}
  open b use {items, get, load, null, of_text, push_back, assign}

  read_appender-appender_node :
      (a : LogAppender)
      → read_appender yaml b (appender_node yaml b a) ≡ some (some (described_appender a))
  read_appender-appender_node a = of_target a.target
    where
      of_target :
          (t : Target)
          → read_appender yaml b (appender_node yaml b (record a { target = t }))
            ≡ some (some (described_target t (text_of (own_pattern a))))
      of_target std_out =
          read_appender-decorated yaml b y
            (record { type = 2; level = unknown; formatter = []; file = [] }) a.level
            (own_pattern a)
      of_target (file f) =
          read_appender-decorated yaml b y
            (record { type = 1; level = unknown; formatter = []; file = f.filename }) a.level
            (own_pattern a)

  abbrev pub nodes : World → List ℕ → List Node
  nodes w = map (λ i. appender_node yaml b (w.appender i))

  abbrev pub logger_node : World → Logger → Node
  logger_node w lg = push_all yaml b y (logger_head yaml b lg) (nodes w lg.appenders)

  -- What is read from a logger's node.
  module _ (w : World) (lg : Logger) where
    abbrev named : Node
    named = assign null (codes "name") (of_text lg.name)

    named-IsMap : y.IsMap named
    named-IsMap = y.assign-IsMap null (of_text lg.name) (codes "name") y.null-IsMap

    named-get :
        (k : Bytes)
        → get named k
          ≡ (if equal (codes "name") k then some (some (of_text lg.name)) else some none)
    named-get k =
        ground
          (arith, y.get-null k, y.get-assign null (of_text lg.name) (codes "name") k y.null-IsMap)

    head-IsMap : y.IsMap (logger_head yaml b lg)
    head-IsMap = decorated-IsMap yaml b y named lg.level (pattern_of lg.formatter) named-IsMap

    node-get :
        (k : Bytes)
        → equal (codes "appenders") k ≡ false
        → get (logger_node w lg) k ≡ get (logger_head yaml b lg) k
    node-get k e =
        push_all-get yaml b y (nodes w lg.appenders) (logger_head yaml b lg) k head-IsMap e

    name-read : get (logger_node w lg) (codes "name") ≡ some (some (of_text lg.name))
    name-read =
        node-get (codes "name") refl
        ∙ decorated-other yaml b y named lg.level (pattern_of lg.formatter) (codes "name")
            named-IsMap refl refl
        ∙ named-get (codes "name")

    abbrev level_text : Option Bytes
    level_text = if not (lg.level == unknown) then some (to_string lg.level) else none

    level-read : text_or_empty yaml b (logger_node w lg) (codes "level") ≡ some (text_of level_text)
    level-read = text-optional yaml b y (logger_node w lg) (codes "level") level_text (
        node-get (codes "level") refl
        ∙ decorated-level yaml b y named lg.level (pattern_of lg.formatter) named-IsMap
            (named-get (codes "level")))

    formatter-read :
        text_or_empty yaml b (logger_node w lg) (codes "formatter")
        ≡ some (text_of (pattern_of lg.formatter))
    formatter-read =
        text-optional yaml b y (logger_node w lg) (codes "formatter") (pattern_of lg.formatter) (
          node-get (codes "formatter") refl
          ∙ decorated-formatter yaml b y named lg.level (pattern_of lg.formatter) named-IsMap
              (named-get (codes "formatter")))

    appenders-read :
        read_all_appenders yaml b (logger_node w lg)
        ≡ some (map (λ i. described_appender (w.appender i)) lg.appenders)
    appenders-read =
        read_all_appenders-push_all yaml b y (nodes w lg.appenders) (logger_head yaml b lg)
          head-IsMap
          (decorated-other yaml b y named lg.level (pattern_of lg.formatter) (codes "appenders")
              named-IsMap refl refl
            ∙ named-get (codes "appenders"))
        ∙ read_appenders-map yaml b y (λ i. appender_node yaml b (w.appender i))
            (λ i. some (described_appender (w.appender i))) lg.appenders (each lg.appenders)
        ∙ ap some (keep_all-some (λ i. described_appender (w.appender i)) lg.appenders)
      where
        each :
            (is : List ℕ)
            → All
                (λ i.
                  read_appender yaml b (appender_node yaml b (w.appender i))
                  ≡ some (some (described_appender (w.appender i))))
                is
        each [] = tt
        each (i ∷ is) = (read_appender-appender_node (w.appender i), each is)

  level_text-level :
      (level : Level)
      → from_string (text_of (if not (level == unknown) then some (to_string level) else none))
        ≡ (if leb level fatal then level else unknown)
  unfolding from_string
  level_text-level level =
      let (low, high) = from_string-to_string level in ground (arith, low, high)

  pub read_define-logger_node :
      (w : World) (lg : Logger)
      → read_define yaml b (logger_node w lg) ≡ some (some (described w lg))
  unfolding read_define
  read_define-logger_node w lg =
      rw (name-read w lg, read_define)
        (rw (y.as_text-of_text lg.name) (
          rw (level-read w lg) (
            rw (formatter-read w lg)
              (rw (appenders-read w lg) (rw (level_text-level lg.level) refl)))))
