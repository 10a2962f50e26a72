-- ===== src/Log/Reload/Follows.antt =====
-- The loggers follow the variable "logs".
use chord_server.Prelude.{
  Bool, true, false, ◌≡◌, refl, sym, subst, List, [], ◌∷◌, Option, none, some, Bytes, all,
  Bool-cases, Option-cases, inl, inr,
}
use chord_server.Config.Yaml.{Yaml, Builder}
use chord_server.Config.Var.{insert_cb, set_value, call_all, from_string}
use chord_server.Log.World.{Run, ok, ◌>>=◌}
use chord_server.Log.Manager.{LoggerManager}
use chord_server.Log.Manager.Safety.{IsSound}
use chord_server.Log.Definition.{
  LogDefine, LogDefines, insert_some, read_define, read_defines, defines_from_string,
}
use chord_server.Log.Definition.Order.{IsOrdered, insert_define-IsOrdered}
use chord_server.Log.Listener.{Site, on_logs_changed}
use chord_server.Log.Listener.Splits.{Splits, is_applicable}
use chord_server.Log.Listener.Crashes.{on_logs_changed-Splits}
use chord_server.Log.Listener.Keyed.{IsKeyed}
use chord_server.Log.Listener.Appenders.{Holds, Holds-bind}
use chord_server.Log.Listener.Effects.{Settles, on_logs_changed-Settles}
use chord_server.Log.Reload.Defined.{IsAsDefined, report_unread-Splits}
use chord_server.Log.Reload.{
  same_defines, report_unread, listener, init_logs, Logs, load_logs, load_all,
}

-- The variable holds a set in order, with the one listener, and unless it has crashed the program
-- has its loggers as the set says.
pub record Follows (l : Logs) : Type 0 where
  pub cbs : l.var.cbs ≡ (1, listener) ∷ []
  pub ordered : IsOrdered l.var.val
  pub manager : Holds (IsAsDefined l.var.val) l.manager

-- What a conversion gives is in order.
abbrev OrderedIfRead : Option LogDefines → Type 0
OrderedIfRead none = Unit
OrderedIfRead (some ds) = IsOrdered ds

module _ (yaml : Yaml) (b : Builder yaml) where
  insert_some-IsOrdered :
      (d : Option LogDefine) (s : LogDefines) → IsOrdered s → IsOrdered (insert_some d s)
  insert_some-IsOrdered none s h = h
  insert_some-IsOrdered (some d) s h = insert_define-IsOrdered d s h

  read_defines-OrderedIfRead :
      (ns : List yaml.Node) (s : LogDefines)
      → IsOrdered s
      → OrderedIfRead (read_defines yaml b ns s)
  unfolding read_defines
  read_defines-OrderedIfRead [] s h = h
  read_defines-OrderedIfRead (n ∷ ns) s h = elim (Option-cases (read_define yaml b n)) [
    | inl e ↦ rw e tt
    | inr (d, e) ↦
        rw e (read_defines-OrderedIfRead ns (insert_some d s) (insert_some-IsOrdered d s h))
  ]

  defines_from_string-OrderedIfRead :
      (text : Bytes) → OrderedIfRead (defines_from_string yaml b text)
  unfolding defines_from_string
  defines_from_string-OrderedIfRead text = elim (Option-cases (b.load text)) [
    | inl e ↦ rw e tt
    | inr (n, e) ↦ rw e (read_defines-OrderedIfRead (b.items n) [] tt)
  ]

Splits-with :
    (P Q R : LoggerManager → Type 0) (r : Run LoggerManager) (c : Bool)
    → Splits P r c
    → Holds Q r
    → ((m : LoggerManager) → P m → Q m → R m)
    → Splits R r c
Splits-with P Q R r true (m, e, p) q k = (m, e, k m p (subst (Holds Q) e q))
Splits-with P Q R r false e q k = e

Splits-Holds :
    (P : LoggerManager → Type 0) (r : Run LoggerManager) (c : Bool) → Splits P r c → Holds P r
Splits-Holds P r true (m, e, p) = subst (Holds P) (sym e) p
Splits-Holds P r false e = subst (Holds P) (sym e) tt

-- One run of the listener, from a manager as the old set says to one as the new set says.
listener-Splits :
    (s : Site) (old new : LogDefines) (m : LoggerManager)
    → IsAsDefined old m
    → IsOrdered old
    → IsOrdered new
    → Splits (IsAsDefined new) (on_logs_changed s old new m) (all (is_applicable old) new)
listener-Splits s old new m h o n =
    Splits-with IsSound (Settles old new) (IsAsDefined new) (on_logs_changed s old new m)
      (all (is_applicable old) new) (on_logs_changed-Splits s old new m h.sound)
      (on_logs_changed-Settles s old new m h.keyed o n)
      (λ k sound settled. record { sound = sound; keyed = settled.0; configured = settled.1 })

-- What loading a set does, by whether it is equal to the variable's.
abbrev pub LoadsSet : Bool → Logs → LogDefines → Logs → Type 0
LoadsSet true l new o = o ≡ l
LoadsSet false l new o =
    (o.var.val ≡ new) × Splits (IsAsDefined new) o.manager (all (is_applicable l.var.val) new)

-- What loading does, by what is read.
abbrev pub Loads : Logs → Option LogDefines → Logs → Type 0
Loads l none o = (o.var ≡ l.var) × Splits (IsAsDefined l.var.val) o.manager true
Loads l (some new) o = LoadsSet (same_defines new l.var.val) l new o

module _ (yaml : Yaml) (b : Builder yaml) where
  -- The three ways of loading a text.
  load_logs-unread :
      (l : Logs) (s : Site) (text : Bytes)
      → defines_from_string yaml b text ≡ none
      → load_logs yaml b l s text
        ≡ record { var = l.var; manager = l.manager >>= report_unread s text }
  unfolding load_logs from_string
  load_logs-unread l s text e = rw (e, from_string)

  load_logs-same :
      (l : Logs) (s : Site) (text : Bytes) (new : LogDefines)
      → defines_from_string yaml b text ≡ some new
      → same_defines new l.var.val ≡ true
      → load_logs yaml b l s text ≡ l
  unfolding load_logs from_string set_value
  load_logs-same l s text new e f = rw (e, from_string) (rw f refl)

  load_logs-changed :
      (l : Logs) (s : Site) (text : Bytes) (new : LogDefines)
      → l.var.cbs ≡ (1, listener) ∷ []
      → defines_from_string yaml b text ≡ some new
      → same_defines new l.var.val ≡ false
      → load_logs yaml b l s text ≡ record {
        var = record l.var { val = new };
        manager = l.manager >>= on_logs_changed s l.var.val new;
      }
  unfolding load_logs from_string set_value call_all
  load_logs-changed l s text new c e f = rw (e, from_string) (rw f (rw c refl))

  pub load_logs-Follows :
      (l : Logs) (s : Site) (text : Bytes) → Follows l → Follows (load_logs yaml b l s text)
  load_logs-Follows l s text h = elim (Option-cases (defines_from_string yaml b text)) [
    | inl r ↦ rw (load_logs-unread l s text r) (record {
      cbs = h.cbs;
      ordered = h.ordered;
      manager =
          Holds-bind (IsAsDefined l.var.val) (IsAsDefined l.var.val) l.manager
            (report_unread s text) h.manager
            (λ m k.
              Splits-Holds (IsAsDefined l.var.val) (report_unread s text m) true
                (report_unread-Splits s text l.var.val m k));
    })
    | inr (new, r) ↦ elim (Bool-cases (same_defines new l.var.val)) [
      | inl f ↦ rw (load_logs-same l s text new r f) h
      | inr f ↦
          let n : IsOrdered new = rw r at (defines_from_string-OrderedIfRead yaml b text) in
          let old = l.var.val in
          rw (load_logs-changed l s text new h.cbs r f) (record {
            cbs = h.cbs;
            ordered = n;
            manager =
                Holds-bind (IsAsDefined old) (IsAsDefined new) l.manager (on_logs_changed s old new)
                  h.manager
                  (λ m k.
                    Splits-Holds (IsAsDefined new) (on_logs_changed s old new m)
                      (all (is_applicable old) new) (listener-Splits s old new m k h.ordered n));
          })
    ]
  ]

  -- Whatever texts are loaded into the variable one after another, the program's loggers are as its
  -- value says (at the levels, with the valid formatters, and with the appenders of the kinds,
  -- files, levels and valid formatters that it lists, in order) unless the program has crashed, if
  -- they were so before; the value stays in order.
  pub load_all-Follows :
      (l : Logs) (texts : List (Site × Bytes)) → Follows l → Follows (load_all yaml b l texts)
  unfolding load_all
  load_all-Follows l [] h = h
  load_all-Follows l ((s, text) ∷ rest) h =
      load_all-Follows (load_logs yaml b l s text) rest (load_logs-Follows l s text h)

-- The variable as it starts, and a sound manager.
pub init_logs-Follows :
    (m : LoggerManager)
    → IsSound m
    → IsKeyed m
    → Follows (record { var = init_logs; manager = ok m })
unfolding init_logs insert_cb
init_logs-Follows m h k = record {
  cbs = refl;
  ordered = tt;
  manager = record { sound = h; keyed = k; configured = tt };
}
