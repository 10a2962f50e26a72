-- ===== src/Log/ToYaml/Filed.antt =====
-- The names of the loggers in the manager's map.
use chord_server.Prelude.{
  ℕ, ◌<◌, true, false, ◌≡◌, refl, ap, subst, ◌∙◌, [], ◌∷◌, Option, none, some, ◌==◌, ==_iff, Bytes,
  codes, All, Bool-cases, Option-cases, inl, inr, arith,
}
use chord_server.Log.Formatter.{LogFormatter, new_formatter, constructor_output}
use chord_server.Log.World.{World, Logger, System, set_logger, cout, std_out}
use chord_server.Log.Logger.{
  new_logger, set_formatter, set_formatter_made, set_pattern, give_formatter, add_appender, depth,
}
use chord_server.Log.Logger
use chord_server.Log.Logger.Outputs.{set_formatter_lem}
use chord_server.Log.Manager.{
  LoggerMap, LoggerManager, find, insert, get_logger, make_logger, make_appender, empty_world,
  new_manager, step, Call, gets, makes_std_out, makes_file, adds, removes, clears, sets_level,
  sets_pattern, sets_formatter, appender_sets_formatter, appender_sets_level, logs,
}
use chord_server.Log.Manager.Names.{added, get_logger_found, get_logger_new}
use chord_server.Log.Manager.Safety.{Reach, here, next}
use chord_server.Log.Listener.Announced.{Undisturbed, log-Undisturbed}
use chord_server.Log.Listener.Appenders.{Holds, Holds-bind, add_appender-Changes}
use chord_server.Log.Listener.Changes.{if-both, set_formatter-Changes}
use chord_server.Log.ToYaml.Rising.{IsRising, insert-IsRising, insert-All}

-- The entry's logger was made, and bears the key as its name.
abbrev pub IsNamed : World → Bytes × ℕ → Type 0
IsNamed w e = (e.1 < w.next_logger) × ((w.logger e.1).name ≡ e.0)

-- The loggers are filed in the order of their names, each under its own.
pub record IsFiled (m : LoggerManager) : Type 0 where
  pub rising : IsRising m.loggers
  pub named : All (IsNamed m.world) m.loggers

named-mono :
    (w v : World) (m : LoggerMap)
    → ((l : ℕ) (key : Bytes) → IsNamed w (key, l) → IsNamed v (key, l))
    → All (IsNamed w) m
    → All (IsNamed v) m
named-mono w v [] k h = tt
named-mono w v ((key, l) ∷ m) k h = (k l key h.0, named-mono w v m k h.1)

-- No logger is made, and all keep their names.
abbrev SameNames : World → World → Type 0
SameNames w v = (v.next_logger ≡ w.next_logger) × ((l : ℕ) → (v.logger l).name ≡ (w.logger l).name)

world-IsFiled :
    (m : LoggerManager) (w : World)
    → IsFiled m
    → SameNames m.world w
    → IsFiled (record m { world = w })
world-IsFiled m w f s = record {
  rising = f.rising;
  named = named-mono m.world w m.loggers (λ l key h. (rw s.0 h.0, s.1 l ∙ h.1)) f.named;
}

set_logger-SameNames :
    (w : World) (l : ℕ) (g : Logger) → g.name ≡ (w.logger l).name → SameNames w (set_logger w l g)
set_logger-SameNames w l g h = (
  refl,
  λ k. elim (Bool-cases (l == k)) [
    | inl e ↦ rw e (h ∙ ap (λ j. (w.logger j).name) ((==_iff l k).0 e))
    | inr e ↦ rw e refl
  ],
)

added-IsFiled : (m : LoggerManager) (name : Bytes) → IsFiled m → IsFiled (added m name)
unfolding make_logger new_logger
added-IsFiled m name f =
    let next = m.world.next_logger in
    let self : (next == next) ≡ true = (==_iff next next).1 refl in
    record {
      rising = insert-IsRising name next m.loggers f.rising;
      named =
          insert-All (IsNamed (added m name).world) name next m.loggers (omega arith, rw self refl)
            (named-mono m.world (added m name).world m.loggers
              (λ l key h. (
                omega (arith, h.0),
                let apart : (next == l) ≡ false = ground (arith, h.0) in rw apart h.1,
              ))
              f.named);
    }

get_logger-IsFiled : (m : LoggerManager) (name : Bytes) → IsFiled m → IsFiled (get_logger m name).0
get_logger-IsFiled m name f = elim (Option-cases (find name m.loggers)) [
  | inl e ↦ rw (get_logger_new m name e) (added-IsFiled m name f)
  | inr (l, e) ↦ rw (get_logger_found m name l e) f
]

give_formatter-logger :
    (w : World) (i : ℕ) (own val : Option LogFormatter)
    → (give_formatter w i own val).logger ≡ w.logger
unfolding give_formatter
give_formatter-logger w i none val = refl
give_formatter-logger w i (some f) val = refl

add_appender-SameNames : (w : World) (l i : ℕ) → SameNames w (add_appender w l i)
unfolding add_appender
add_appender-SameNames w l i = (
  (add_appender-Changes l w i).loggers,
  λ k. elim (Bool-cases (l == k)) [
    | inl e ↦ rw e (ap (λ j. (w.logger j).name) ((==_iff l k).0 e))
    | inr e ↦ rw e (ap (λ (g : ℕ → Logger). (g k).name) (give_formatter-logger w i _ _))
  ],
)

set_formatter-SameNames :
    (w : World) (l : ℕ) (val : Option LogFormatter) → SameNames w (set_formatter w l val)
set_formatter-SameNames w l val = (
  (set_formatter-Changes l w val).loggers,
  λ k.
      let (a, g) = set_formatter_lem w l k 0 val in
      elim (Bool-cases (l == k)) [
        | inl e ↦
            ap (λ (t : Logger). t.name) g ∙ rw e (ap (λ j. (w.logger j).name) ((==_iff l k).0 e))
        | inr e ↦ ap (λ (t : Logger). t.name) g ∙ rw e refl
      ],
)

set_formatter_made-SameNames :
    (w : World) (l : ℕ) (pattern : Bytes) (made : Option LogFormatter)
    → SameNames w (set_formatter_made w l pattern made)
unfolding set_formatter_made
set_formatter_made-SameNames w l pattern none = (refl, λ k. refl)
set_formatter_made-SameNames w l pattern (some f) =
    if-both (SameNames w) f.is_error (refl, λ k. refl) (set_formatter-SameNames w l (some f))

set_pattern-SameNames :
    (w : World) (l : ℕ) (pattern : Bytes) → SameNames w (set_pattern w l pattern)
unfolding set_pattern
set_pattern-SameNames w l pattern =
    set_formatter_made-SameNames (cout w (constructor_output pattern)) l pattern
      (new_formatter pattern)

step-IsFiled :
    (sys : System) (m : LoggerManager) (c : Call) → IsFiled m → Holds IsFiled (step sys m c)
unfolding step
step-IsFiled sys m (gets name) f = get_logger-IsFiled m name f
step-IsFiled sys m makes_std_out f = world-IsFiled m _ f (refl, λ k. refl)
step-IsFiled sys m (makes_file filename last_time) f = world-IsFiled m _ f (refl, λ k. refl)
step-IsFiled sys m (adds l i) f = world-IsFiled m _ f (add_appender-SameNames m.world l i)
step-IsFiled sys m (removes l i) f = world-IsFiled m _ f (
    unfold Logger.del_appender in
    set_logger-SameNames m.world l (record (m.world.logger l) { appenders = _ }) refl)
step-IsFiled sys m (clears l) f = world-IsFiled m _ f (
    unfold Logger.clear_appenders in
    set_logger-SameNames m.world l (record (m.world.logger l) { appenders = [] }) refl)
step-IsFiled sys m (sets_level l level) f =
    world-IsFiled m _ f
      (set_logger-SameNames m.world l (record (m.world.logger l) { level = level }) refl)
step-IsFiled sys m (sets_pattern l pattern) f =
    world-IsFiled m _ f (set_pattern-SameNames m.world l pattern)
step-IsFiled sys m (sets_formatter l g) f =
    world-IsFiled m _ f (set_formatter-SameNames m.world l g)
step-IsFiled sys m (appender_sets_formatter i g) f = world-IsFiled m _ f (refl, λ k. refl)
step-IsFiled sys m (appender_sets_level i level) f = world-IsFiled m _ f (refl, λ k. refl)
step-IsFiled sys m (logs l level event) f =
    Holds-bind (Undisturbed m.world) IsFiled (Logger.log depth sys m.world l level event) _
      (log-Undisturbed depth sys m.world l level event)
      (λ w e. world-IsFiled m w f (e.0, λ k. ap (λ (g : ℕ → Logger). (g k).name) e.1))

new_manager-IsFiled : (disk : Bytes → Bytes) → IsFiled (new_manager disk)
unfolding new_manager insert
new_manager-IsFiled disk = record {
  rising = (tt, tt);
  named =
      let s =
        add_appender-SameNames
          (make_appender (make_logger (empty_world disk) (new_logger (codes "root"))) std_out) 0
          0 in
      (
        (
          rw s.0 (unfold make_appender make_logger empty_world in omega arith),
          s.1 0 ∙ (unfold make_appender make_logger empty_world new_logger in refl),
        ),
        tt,
      );
}

-- Whatever calls a program has made since the manager was built, the map holds the loggers in the
-- order of their names, no name twice, and each logger still bears the name it is filed under.
pub Reach-IsFiled :
    (disk : Bytes → Bytes) {m : LoggerManager} → Reach (new_manager disk) m → IsFiled m
Reach-IsFiled disk here = new_manager-IsFiled disk
Reach-IsFiled disk (next {n} sys c r h e) =
    subst (Holds IsFiled) e (step-IsFiled sys n c (Reach-IsFiled disk r))
