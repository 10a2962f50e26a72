-- ===== src/Log/Reload/Defined.antt =====
-- Loggers that are as a set of definitions says, before and behind a message of `fromString`.
use chord_server.Prelude.{true, ◌≡◌, refl, sym, ap, subst, ◌∙◌, ℕ, arith, [], ◌∷◌, Bytes, All}
use chord_server.Log.World.{World, Logger, System, ok, ◌>>=◌}
use chord_server.Log.Manager.{LoggerManager}
use chord_server.Log.Manager.Safety.{IsSound}
use chord_server.Log.Definition.{LogDefine, LogDefines}
use chord_server.Log.Listener.{Site}
use chord_server.Log.Listener.Splits.{Splits}
use chord_server.Log.Listener.Crashes.{log_level-Splits}
use chord_server.Log.Listener.Keyed.{IsKeyed}
use chord_server.Log.Listener.Applied.{IsConfigured}
use chord_server.Log.Level.{error}
use chord_server.Log.Event.{LogEvent}
use chord_server.Log.Logger.{log_level}
use chord_server.Log.Logger.Macros.{log_error}
use chord_server.Log.Listener.Announced.{Undisturbed, log_level-Undisturbed}
use chord_server.Log.Listener.Realises.{Realises, Realises-kept}
use chord_server.Log.Listener.Appenders.{Holds}
use chord_server.Log.Reload.{report_unread}

-- A manager in which every define has its logger as it says.
pub record IsAsDefined (ds : LogDefines) (m : LoggerManager) : Type 0 where
  pub sound : IsSound m
  pub keyed : IsKeyed m
  pub configured : All (IsConfigured m) ds

-- What a log call leaves as it was keeps every define's logger as it says.
Undisturbed-IsConfigured :
    (m : LoggerManager) (w : World) (d : LogDefine)
    → Undisturbed m.world w
    → IsConfigured m d
    → IsConfigured (record m { world = w }) d
Undisturbed-IsConfigured m w d (a, same, next, kept) (l, e, level, format, real) =
    let own : w.logger l ≡ m.world.logger l = ap (λ (t : ℕ → Logger). t l) same in
    (
      l,
      e,
      ap (λ (g : Logger). g.level) own ∙ level,
      λ f x. ap (λ (g : Logger). g.formatter) own ∙ format f x,
      subst (λ (g : Logger). Realises w g.appenders d.appenders) (sym own)
          (Realises-kept m.world w (m.world.logger l).appenders d.appenders (omega (arith, next))
            (λ j _. kept j) real),
    )

Undisturbed-AllConfigured :
    (m : LoggerManager) (w : World) (ds : LogDefines)
    → Undisturbed m.world w
    → All (IsConfigured m) ds
    → All (IsConfigured (record m { world = w })) ds
Undisturbed-AllConfigured m w [] u h = tt
Undisturbed-AllConfigured m w (d ∷ ds) u h =
    (Undisturbed-IsConfigured m w d u h.0, Undisturbed-AllConfigured m w ds u h.1)

-- A log call at ERROR to the root logger ends, and the loggers are still as the set says.
logged-Splits :
    (sys : System) (ds : LogDefines) (m : LoggerManager) (event : LogEvent)
    → IsAsDefined ds m
    → Splits
        (IsAsDefined ds)
        (log_level sys m.world m.root error event >>= λ w. ok (record m { world = w }))
        true
logged-Splits sys ds m event h =
    let (w, e, ready) = log_level-Splits sys m.world m.root error event h.sound.ready in
    let u : Undisturbed m.world w =
      subst (Holds (Undisturbed m.world)) e
        (log_level-Undisturbed sys m.world m.root error event) in
    (
      record m { world = w },
      rw e refl,
      record {
        sound = record { ready = ready; at_root = h.sound.at_root };
        keyed = record { below = λ n l x. rw u.0 (h.keyed.below n l x); one = h.keyed.one };
        configured = Undisturbed-AllConfigured m w ds u h.configured;
      },
    )

pub report_unread-Splits :
    (s : Site) (text : Bytes) (ds : LogDefines) (m : LoggerManager)
    → IsAsDefined ds m
    → Splits (IsAsDefined ds) (report_unread s text m) true
unfolding report_unread log_error
report_unread-Splits s text ds m h = logged-Splits s.sys ds m _ h
