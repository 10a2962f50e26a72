-- ===== src/Log/Definition/RoundTrip.antt =====
-- A set of definitions that is written and read back.
use chord_server.Prelude.{
  false, ◌&&◌, ◌≡◌, refl, ap, ◌∙◌, List, [], ◌∷◌, none, some, ◌==◌, if◌then◌else◌, is_empty, Bytes,
  codes, equal, Bool-cases, inl, inr, arith, map, ==_iff, All,
}
use chord_server.Config.Yaml.{Yaml, Builder, Laws}
use chord_server.Log.Level.{unknown, from_string, to_string}
use chord_server.Log.Definition.{
  LogAppenderDefine, LogDefine, LogDefines, text_or_empty, read_appender, read_all_appenders,
  read_define, defines_from_string,
}
use chord_server.Log.Definition.Print.{
  unless_empty, formatted, write_appender, write_appenders, write_head, write_defines,
  defines_to_string,
}
use chord_server.Log.Definition.Order.{Above, IsOrdered}
use chord_server.Log.Definition.Written.{
  kept_appender, kept_appenders, kept, text_of, text-some, text-none, text-optional, formatted-get,
  formatted-get_other, read_appender-write_appender,
}
use chord_server.Log.Definition.Pushed.{
  keep_all, push_all, push_all-get, read_all_appenders-push_all, read_appenders-map,
  read_defines-map, push_back_all, push_back_all-items,
}

kept-Above : (name : Bytes) (ds : LogDefines) → Above name ds → Above name (map kept ds)
kept-Above name [] h = tt
kept-Above name (d ∷ ds) h = (h.0, kept-Above name ds h.1)

kept-IsOrdered : (ds : LogDefines) → IsOrdered ds → IsOrdered (map kept ds)
kept-IsOrdered [] h = tt
kept-IsOrdered (d ∷ ds) h = (kept-Above d.name ds h.0, kept-IsOrdered ds h.1)

keep_all-kept :
    (as' : List LogAppenderDefine) → keep_all (map kept_appender as') ≡ kept_appenders as'
keep_all-kept [] = refl
keep_all-kept (a ∷ as') = rw (keep_all-kept as')

module _ (yaml : Yaml) (b : Builder yaml) (y : Laws yaml b) where
  open yaml use {Node}
  open b use {items, get, null, of_text, assign}

  write_appenders-push_all :
      (as' : List LogAppenderDefine) (n : Node)
      → write_appenders yaml b n as' ≡ push_all yaml b y n (map (write_appender yaml b) as')
  unfolding write_appenders push_all
  write_appenders-push_all [] n = refl
  write_appenders-push_all (a ∷ as') n = write_appenders-push_all as' _

  -- The members "name" and "level" of a define's node.
  abbrev named : LogDefine → Node
  named d = assign null (codes "name") (of_text d.name)

  abbrev headed : LogDefine → Node
  headed d =
      if d.level == unknown
      then assign (named d) (codes "level") (of_text (to_string d.level))
      else named d

  named-IsMap : (d : LogDefine) → y.IsMap (named d)
  named-IsMap d = y.assign-IsMap null (of_text d.name) (codes "name") y.null-IsMap

  headed-IsMap : (d : LogDefine) → y.IsMap (headed d)
  headed-IsMap d = elim (Bool-cases (d.level == unknown)) [
    | inl e ↦ rw e (y.assign-IsMap _ _ _ (named-IsMap d))
    | inr e ↦ rw e (named-IsMap d)
  ]

  headed-get :
      (d : LogDefine) (k : Bytes)
      → get (headed d) k ≡ (
          if d.level == unknown && equal (codes "level") k
          then some (some (of_text (to_string d.level)))
          else if equal (codes "name") k
          then some (some (of_text d.name))
          else some none)
  headed-get d k = ground (
    arith,
    y.get-null k,
    y.get-assign null (of_text d.name) (codes "name") k y.null-IsMap,
    y.get-assign (named d) (of_text (to_string d.level)) (codes "level") k (named-IsMap d),
  )

  -- The node of one define.
  define_node : LogDefine → Node
  define_node d = write_appenders yaml b (write_head yaml b d) d.appenders

  define_node_lem :
      (d : LogDefine)
      → define_node d
        ≡ push_all yaml b y
            (formatted yaml b (headed d) (unless_empty yaml b d.formatter))
            (map (write_appender yaml b) d.appenders)
  unfolding define_node write_head
  define_node_lem d = write_appenders-push_all d.appenders _

  formatted-IsMap :
      (d : LogDefine) → y.IsMap (formatted yaml b (headed d) (unless_empty yaml b d.formatter))
  formatted-IsMap d = elim (Bool-cases (is_empty d.formatter)) [
    | inl e ↦ rw e (headed-IsMap d)
    | inr e ↦ rw e (y.assign-IsMap _ _ _ (headed-IsMap d))
  ]

  define_node-get :
      (d : LogDefine) (k : Bytes)
      → equal (codes "appenders") k ≡ false
      → get (define_node d) k
        ≡ get (formatted yaml b (headed d) (unless_empty yaml b d.formatter)) k
  define_node-get d k e =
      ap (λ n. get n k) (define_node_lem d) ∙ push_all-get yaml b y _ _ k (formatted-IsMap d) e

  define_node-headed :
      (d : LogDefine) (k : Bytes)
      → equal (codes "appenders") k ≡ false
      → equal (codes "formatter") k ≡ false
      → get (define_node d) k ≡ get (headed d) k
  define_node-headed d k e f =
      define_node-get d k e
      ∙ formatted-get_other yaml b y (headed d) (unless_empty yaml b d.formatter) k (headed-IsMap d)
          f

  -- The level's name is written only if it is "unknown".
  level-read :
      (d : LogDefine)
      → (s : Bytes) × (text_or_empty yaml b (define_node d) (codes "level") ≡ some s)
        × (from_string s ≡ unknown)
  unfolding from_string to_string
  level-read d =
      let found = define_node-headed d (codes "level") refl refl ∙ headed-get d (codes "level") in
      elim (Bool-cases (d.level == unknown)) [
        | inl e ↦ (
          to_string d.level,
          text-some yaml b y (define_node d) (of_text (to_string d.level)) (codes "level")
              (to_string d.level) (found ∙ rw e (ground arith))
              (y.as_text-of_text (to_string d.level)),
          ground (arith, ==_iff d.level unknown),
        )
        | inr e ↦ (
          [],
          text-none yaml b y (define_node d) (codes "level") (found ∙ rw e (ground arith)),
          refl,
        )
      ]

  formatter-read :
      (d : LogDefine) → text_or_empty yaml b (define_node d) (codes "formatter") ≡ some d.formatter
  formatter-read d =
      let own = unless_empty yaml b d.formatter in
      text-optional yaml b y (define_node d) (codes "formatter") own (
        define_node-get d (codes "formatter") refl
        ∙ formatted-get yaml b y (headed d) own (headed-IsMap d)
            (headed-get d (codes "formatter") ∙ ground arith))
      ∙ unless_empty-text d.formatter
    where
      unless_empty-text : (s : Bytes) → some (text_of (unless_empty yaml b s)) ≡ some s
      unless_empty-text [] = refl
      unless_empty-text (c ∷ s) = refl

  appenders-read :
      (d : LogDefine)
      → read_all_appenders yaml b (define_node d) ≡ some (kept_appenders d.appenders)
  appenders-read d =
      let own = unless_empty yaml b d.formatter in
      ap (read_all_appenders yaml b) (define_node_lem d)
      ∙ read_all_appenders-push_all yaml b y _ _ (formatted-IsMap d) (
          formatted-get_other yaml b y (headed d) own (codes "appenders") (headed-IsMap d) refl
          ∙ headed-get d (codes "appenders")
          ∙ ground arith)
      ∙ read_appenders-map yaml b y (write_appender yaml b) kept_appender d.appenders
          (each d.appenders)
      ∙ ap some (keep_all-kept d.appenders)
    where
      each :
          (as' : List LogAppenderDefine)
          → All (λ a. read_appender yaml b (write_appender yaml b a) ≡ some (kept_appender a)) as'
      each [] = tt
      each (a ∷ as') = (read_appender-write_appender yaml b y a, each as')

  read_define-write : (d : LogDefine) → read_define yaml b (define_node d) ≡ some (some (kept d))
  unfolding read_define
  read_define-write d =
      let name : get (define_node d) (codes "name") ≡ some (some (of_text d.name)) =
        define_node-headed d (codes "name") refl refl
        ∙ headed-get d (codes "name")
        ∙ ground arith in
      let (s, level, lost) = level-read d in
      rw (name, read_define)
        (rw (y.as_text-of_text d.name)
          (rw level (rw (formatter-read d) (rw (appenders-read d) (rw lost refl)))))

  read_define-all :
      (ds : LogDefines) → All (λ d. read_define yaml b (define_node d) ≡ some (some (kept d))) ds
  read_define-all [] = tt
  read_define-all (d ∷ ds) = (read_define-write d, read_define-all ds)

  write_defines-push_back_all :
      (ds : LogDefines) (n : Node)
      → write_defines yaml b n ds ≡ push_back_all yaml b y n (map define_node ds)
  unfolding write_defines define_node push_back_all
  write_defines-push_back_all [] n = refl
  write_defines-push_back_all (d ∷ ds) n = write_defines-push_back_all ds _

  defines-items : (ds : LogDefines) → items (write_defines yaml b null ds) ≡ map define_node ds
  defines-items ds =
      ap items (write_defines-push_back_all ds null)
      ∙ push_back_all-items yaml b y (map define_node ds) null y.null-IsSequence
      ∙ rw y.items-null refl

-- A set of definitions that is written as text and read back comes back with every level lost, and
-- with no more of its appenders than the file appenders and the standard output appenders, these
-- without their formatters; names, the loggers' formatters, and the order stay as they were.
pub defines_from_string-defines_to_string :
    (yaml : Yaml) (b : Builder yaml) (y : Laws yaml b) (ds : LogDefines)
    → IsOrdered ds
    → defines_from_string yaml b (defines_to_string yaml b ds) ≡ some (map kept ds)
unfolding defines_from_string defines_to_string
defines_from_string-defines_to_string yaml b y ds o = rw (y.load-text _) (
    rw (defines-items yaml b y ds) (
      read_defines-map yaml b y (define_node yaml b y) kept ds [] (read_define-all yaml b y ds)
        (kept-IsOrdered ds o) tt))
