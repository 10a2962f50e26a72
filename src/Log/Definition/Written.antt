-- ===== src/Log/Definition/Written.antt =====
-- An appender's node, and what is read from it.
use chord_server.Prelude.{
  false, not, ◌&&◌, ◌≡◌, refl, ◌∙◌, List, [], ◌∷◌, Option, none, some, ◌==◌, if◌then◌else◌, Bytes,
  codes, equal, Bool-cases, inl, inr, arith,
}
use chord_server.Config.Yaml.{Yaml, Builder, Laws}
use chord_server.Log.Level.{Level, unknown, to_string}
use chord_server.Log.Definition.{
  LogAppenderDefine, new_appender_define, LogDefine, text_or_empty, read_file_appender, read_typed,
  read_appender, keep,
}
use chord_server.Log.Definition.Print.{
  typed_node, levelled, formatted, unless_empty, write_appender,
}

-- What is left of an appender's definition, and of a logger's: all levels are lost, and so is a
-- standard output appender's formatter and an appender of no known type.
abbrev pub kept_appender : LogAppenderDefine → Option LogAppenderDefine
kept_appender a =
    if a.type == 1
    then some (record a { type = 1; level = unknown })
    else if a.type == 2
    then some (record new_appender_define { type = 2 })
    else none

abbrev pub kept_appenders : List LogAppenderDefine → List LogAppenderDefine
kept_appenders [] = []
kept_appenders (a ∷ as') = keep (kept_appender a) (kept_appenders as')

abbrev pub kept : LogDefine → LogDefine
kept d = record d { level = unknown; appenders = kept_appenders d.appenders }

-- The text of a member that may be missing.
abbrev pub text_of : Option Bytes → Bytes
text_of none = []
text_of (some s) = s

module _ (yaml : Yaml) (b : Builder yaml) (y : Laws yaml b) where
  open yaml use {Node}
  open b use {items, get, as_text, null, of_text, push_back, assign}

  pub text-some :
      (n v : Node) (key s : Bytes)
      → get n key ≡ some (some v)
      → as_text v ≡ some s
      → text_or_empty yaml b n key ≡ some s
  unfolding text_or_empty
  text-some n v key s e h = rw (e, text_or_empty) h

  pub text-none :
      (n : Node) (key : Bytes) → get n key ≡ some none → text_or_empty yaml b n key ≡ some []
  unfolding text_or_empty
  text-none n key e = rw (e, text_or_empty)

  -- The node for a text that may be missing.
  abbrev pub node_of : Option Bytes → Option Node
  node_of none = none
  node_of (some s) = some (of_text s)

  pub text-optional :
      (n : Node) (key : Bytes) (own : Option Bytes)
      → get n key ≡ some (node_of own)
      → text_or_empty yaml b n key ≡ some (text_of own)
  text-optional n key none e = text-none n key e
  text-optional n key (some s) e = text-some n (of_text s) key s e (y.as_text-of_text s)

  levelled-IsMap : (n : Node) (level : Level) → y.IsMap n → y.IsMap (levelled yaml b n level)
  levelled-IsMap n level h = elim (Bool-cases (level == unknown)) [
    | inl e ↦ rw e h
    | inr e ↦ rw e (y.assign-IsMap _ _ _ h)
  ]

  formatted-IsMap : (n : Node) (own : Option Bytes) → y.IsMap n → y.IsMap (formatted yaml b n own)
  formatted-IsMap n none h = h
  formatted-IsMap n (some s) h = y.assign-IsMap _ _ _ h

  -- A node with both members.
  abbrev pub decorated : Node → Level → Option Bytes → Node
  decorated n level own = formatted yaml b (levelled yaml b n level) own

  pub decorated-IsMap :
      (n : Node) (level : Level) (own : Option Bytes) → y.IsMap n → y.IsMap (decorated n level own)
  decorated-IsMap n level own h =
      formatted-IsMap (levelled yaml b n level) own (levelled-IsMap n level h)

  levelled-get :
      (n : Node) (level : Level) (k : Bytes)
      → y.IsMap n
      → get (levelled yaml b n level) k ≡ (
          if not (level == unknown) && equal (codes "level") k
          then some (some (of_text (to_string level)))
          else get n k)
  levelled-get n level k h =
      ground (arith, y.get-assign n (of_text (to_string level)) (codes "level") k h)

  -- The two members, and all others.
  pub formatted-get :
      (n : Node) (own : Option Bytes)
      → y.IsMap n
      → get n (codes "formatter") ≡ some none
      → get (formatted yaml b n own) (codes "formatter") ≡ some (node_of own)
  formatted-get n none h e = e
  formatted-get n (some s) h e =
      y.get-assign n (of_text s) (codes "formatter") (codes "formatter") h

  pub formatted-get_other :
      (n : Node) (own : Option Bytes) (k : Bytes)
      → y.IsMap n
      → equal (codes "formatter") k ≡ false
      → get (formatted yaml b n own) k ≡ get n k
  formatted-get_other n none k h f = refl
  formatted-get_other n (some s) k h f = y.get-assign n (of_text s) (codes "formatter") k h ∙ rw f

  pub decorated-formatter :
      (n : Node) (level : Level) (own : Option Bytes)
      → y.IsMap n
      → get n (codes "formatter") ≡ some none
      → get (decorated n level own) (codes "formatter") ≡ some (node_of own)
  decorated-formatter n level own h e =
      formatted-get (levelled yaml b n level) own (levelled-IsMap n level h)
        (levelled-get n level (codes "formatter") h ∙ ground (arith, e))

  pub decorated-other :
      (n : Node) (level : Level) (own : Option Bytes) (k : Bytes)
      → y.IsMap n
      → equal (codes "formatter") k ≡ false
      → equal (codes "level") k ≡ false
      → get (decorated n level own) k ≡ get n k
  decorated-other n level own k h f l =
      formatted-get_other (levelled yaml b n level) own k (levelled-IsMap n level h) f
      ∙ levelled-get n level k h
      ∙ ground arith

  pub decorated-level :
      (n : Node) (level : Level) (own : Option Bytes)
      → y.IsMap n
      → get n (codes "level") ≡ some none
      → get (decorated n level own) (codes "level")
        ≡ some (node_of (if not (level == unknown) then some (to_string level) else none))
  decorated-level n level own h e =
      formatted-get_other (levelled yaml b n level) own (codes "level") (levelled-IsMap n level h)
        refl
      ∙ levelled-get n level (codes "level") h
      ∙ ground (arith, e)

  typed_node-IsMap : (a : LogAppenderDefine) → y.IsMap (typed_node yaml b a)
  typed_node-IsMap a = elim (Bool-cases (a.type == 1)) [
    | inl e ↦ rw e (y.assign-IsMap _ _ _ (y.assign-IsMap _ _ _ y.null-IsMap))
    | inr e ↦ elim (Bool-cases (a.type == 2)) [
      | inl f ↦ rw (e, f) (y.assign-IsMap _ _ _ y.null-IsMap)
      | inr f ↦ rw (e, f) y.null-IsMap
    ]
  ]

  typed_node-get :
      (a : LogAppenderDefine) (k : Bytes)
      → get (typed_node yaml b a) k ≡ (
          if a.type == 1
          then (if equal (codes "file") k
              then some (some (of_text a.file))
              else if equal (codes "type") k
              then some (some (of_text (codes "FileLogAppender")))
              else some none)
          else if a.type == 2
          then (if equal (codes "type") k
              then some (some (of_text (codes "StdoutLogAppender")))
              else some none)
          else some none)
  typed_node-get a k =
      let first = λ (s : Bytes). y.get-assign null (of_text s) (codes "type") k y.null-IsMap in
      ground (
        arith,
        first (codes "FileLogAppender"),
        first (codes "StdoutLogAppender"),
        y.get-null k,
        y.get-assign (assign null (codes "type") (of_text (codes "FileLogAppender")))
            (of_text a.file) (codes "file") k
            (y.assign-IsMap null (of_text (codes "FileLogAppender")) (codes "type") y.null-IsMap),
      )

  read_appender_as :
      (n : Node) (t : Bytes)
      → get n (codes "type") ≡ some (some (of_text t))
      → read_appender yaml b n ≡ read_typed yaml b n t
  unfolding read_appender
  read_appender_as n t e = rw (e, read_appender) (rw (y.as_text-of_text t))

  read_appender-none :
      (n : Node) → get n (codes "type") ≡ some none → read_appender yaml b n ≡ some none
  unfolding read_appender
  read_appender-none n e = rw (e, read_appender)

  read_file-decorated :
      (n : Node) (file : Bytes) (own : Option Bytes)
      → get n (codes "file") ≡ some (some (of_text file))
      → get n (codes "formatter") ≡ some (node_of own)
      → read_file_appender yaml b n
        ≡ some (some (record { type = 1; level = unknown; formatter = text_of own; file = file }))
  unfolding read_file_appender
  read_file-decorated n file own e f =
      rw (e, read_file_appender)
        (rw (y.as_text-of_text file) (rw (text-optional n (codes "formatter") own f)))

  -- A decorated node of an appender's type is read as what is left of the define.
  pub read_appender-decorated :
      (a : LogAppenderDefine) (level : Level) (own : Option Bytes)
      → read_appender yaml b (decorated (typed_node yaml b a) level own)
        ≡ some (kept_appender (record a { formatter = text_of own }))
  unfolding read_typed
  read_appender-decorated a level own =
      let t = typed_node yaml b a in
      let h = typed_node-IsMap a in
      let n = decorated t level own in
      let type =
        decorated-other t level own (codes "type") h refl refl ∙ typed_node-get a (codes "type") in
      let file =
        decorated-other t level own (codes "file") h refl refl ∙ typed_node-get a (codes "file") in
      let own_format =
        decorated-formatter t level own h (typed_node-get a (codes "formatter") ∙ ground arith) in
      elim (Bool-cases (a.type == 1)) [
        | inl e ↦
            read_appender_as n (codes "FileLogAppender") (type ∙ rw e)
            ∙ read_file-decorated n a.file own (file ∙ rw e) own_format
            ∙ rw e
        | inr e ↦ elim (Bool-cases (a.type == 2)) [
          | inl f ↦ read_appender_as n (codes "StdoutLogAppender") (type ∙ rw (e, f)) ∙ rw (e, f)
          | inr f ↦ read_appender-none n (type ∙ rw (e, f)) ∙ rw (e, f)
        ]
      ]

  unless_empty-text : (s : Bytes) → text_of (unless_empty yaml b s) ≡ s
  unless_empty-text [] = refl
  unless_empty-text (c ∷ s) = refl

  pub read_appender-write_appender :
      (a : LogAppenderDefine)
      → read_appender yaml b (write_appender yaml b a) ≡ some (kept_appender a)
  unfolding write_appender
  read_appender-write_appender a =
      read_appender-decorated a a.level (unless_empty yaml b a.formatter)
      ∙ rw (unless_empty-text a.formatter)
