-- ===== src/Log/Listener/Effects.antt =====
-- What a change of the variable "logs" leaves: every logger as it is defined.
use chord_server.Prelude.{
  true, ◌≡◌, refl, sym, subst, ◌∙◌, [], ◌∷◌, ◌++◌, equal_refl, all, All, arith, append_assoc,
}
use chord_server.Log.Listener.Announced.{Undisturbed, announce-Undisturbed}
use chord_server.Log.Listener.Splits.{Splits, is_applicable}
use chord_server.Log.Listener.Crashes.{on_logs_changed-Splits}
use chord_server.Log.World.{Run, ok, ◌>>=◌}
use chord_server.Log.Manager.{LoggerManager}
use chord_server.Log.Manager.Safety.{IsSound}
use chord_server.Log.Definition.{LogDefine, LogDefines, find_define}
use chord_server.Log.Definition.Order.{IsOrdered}
use chord_server.Log.Listener.{Site, announce, apply_defines, retire_all, on_logs_changed}
use chord_server.Log.Listener.Keyed.{IsKeyed}
use chord_server.Log.Listener.Appenders.{Holds, Holds-bind}
use chord_server.Log.Listener.Applied.{IsConfigured, AllApplied, apply_defines-AllApplied}
use chord_server.Log.Listener.Retired.{IsSettled, is_bound, retire_all-AllSettled}

-- Every define of a set is found by its name.
bound-append :
    (xs ys : LogDefines) (d : LogDefine) → is_bound (find_define d.name (xs ++ d ∷ ys)) ≡ true
unfolding find_define
bound-append [] ys d = rw (equal_refl d.name)
bound-append (x ∷ xs) ys d = ground (arith, bound-append xs ys d)

kept-IsConfigured :
    (new xs ds : LogDefines) (m o : LoggerManager)
    → new ≡ xs ++ ds
    → ((e : LogDefine)
        → is_bound (find_define e.name new) ≡ true
        → IsConfigured m e
        → IsConfigured o e)
    → All (IsConfigured m) ds
    → All (IsConfigured o) ds
kept-IsConfigured new xs [] m o e keep h = tt
kept-IsConfigured new xs (d ∷ ds) m o e keep h = (
  keep d (rw e (bound-append xs ds d)) h.0,
  kept-IsConfigured new (xs ++ d ∷ []) ds m o (e ∙ sym (append_assoc xs (d ∷ []) ds)) keep h.1,
)

-- The manager behind the listener.
abbrev pub Settles : LogDefines → LogDefines → LoggerManager → Type 0
Settles old new o = IsKeyed o × All (IsConfigured o) new × All (IsSettled new o) old

loops-Settle :
    (s : Site) (old new : LogDefines) (m : LoggerManager)
    → IsKeyed m
    → IsOrdered old
    → IsOrdered new
    → Holds (Settles old new) (apply_defines s old new m >>= λ o. ok (retire_all new old o))
loops-Settle s old new m k h g =
    Holds-bind (AllApplied new m) (Settles old new) (apply_defines s old new m)
      (λ o. ok (retire_all new old o)) (apply_defines-AllApplied s old new m k g)
      (λ o x.
        let r = retire_all-AllSettled new old o x.0 h in
        (r.0, kept-IsConfigured new [] new o (retire_all new old o) refl r.3 x.1, r.1))

pub on_logs_changed-Settles :
    (s : Site) (old new : LogDefines) (m : LoggerManager)
    → IsKeyed m
    → IsOrdered old
    → IsOrdered new
    → Holds (Settles old new) (on_logs_changed s old new m)
unfolding on_logs_changed
on_logs_changed-Settles s old new m k h g =
    Holds-bind (Undisturbed m.world) (Settles old new) (announce s m) _ (announce-Undisturbed s m)
      (λ w e.
        loops-Settle s old new (record m { world = w })
          (record { below = λ n l x. rw e.0 (k.below n l x); one = k.one }) h g)

Splits-Holds :
    (P Q : LoggerManager → Type 0) (r : Run LoggerManager)
    → Splits P r true
    → Holds Q r
    → (o : LoggerManager) × (r ≡ ok o) × P o × Q o
Splits-Holds P Q r (o, e, p) h = (o, e, p, rw e at h)

-- On a sound manager with one name for each logger, a change between two ordered sets, whose new
-- defines are all new or changed and have appenders of known types only, ends well, and then every
-- define of the new set has its logger, at its level, with appenders of the kinds, files and levels
-- that it lists, in order; every define that is gone has its logger at level 100 with no appenders;
-- and the manager is as sound as before.
pub on_logs_changed-IsConfigured :
    (s : Site) (old new : LogDefines) (m : LoggerManager)
    → IsSound m
    → IsKeyed m
    → IsOrdered old
    → IsOrdered new
    → all (is_applicable old) new ≡ true
    → (o : LoggerManager) × (on_logs_changed s old new m ≡ ok o) × IsSound o × Settles old new o
on_logs_changed-IsConfigured s old new m h k x y e =
    Splits-Holds IsSound (Settles old new) (on_logs_changed s old new m)
      (subst (Splits IsSound (on_logs_changed s old new m)) e
        (on_logs_changed-Splits s old new m h))
      (on_logs_changed-Settles s old new m k x y)
