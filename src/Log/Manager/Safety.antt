-- ===== src/Log/Manager/Safety.antt =====
-- Whatever a program asks of the manager and its loggers.
use chord_server.Prelude.{
  ℕ, suc, ◌<◌, false, ◌≡◌, ◌⊎◌, inl, inr, refl, sym, subst, ◌∙◌, Option, none, some, Bytes, codes,
  ◌==◌, Bool-cases, arith, ==_iff,
}
use chord_server.Log.Level.{Level}
use chord_server.Log.World.{System, World, Target, std_out, Run, ok, update, set_appender}
use chord_server.Log.Logger.Safety.{Exists, IsLive, AllExist-mono, IsReady, log-Serves}
use chord_server.Log.Logger.Calls.{
  set_appender-IsReady, set_logger-IsReady, set_formatter-IsReady, set_pattern-IsReady,
  new_logger-Exists, add_appender-IsReady, clear_appenders-IsReady, del_appender-IsReady,
  set_level-IsReady,
}
use chord_server.Log.Appender
use chord_server.Log.Logger.{new_logger}
use chord_server.Log.Manager.{
  LoggerManager, Call, gets, makes_std_out, makes_file, adds, removes, clears, sets_level,
  sets_pattern, sets_formatter, appender_sets_formatter, appender_sets_level, logs, empty_world,
  make_appender, make_logger, new_manager, get_found, get_logger, step,
}

-- The store is ready, and the manager's root is the logger at place 0.
pub record IsSound (m : LoggerManager) : Type 0 where
  pub ready : IsReady m.world
  pub at_root : m.root ≡ 0

-- An appender that is added has been made, and no null formatter is set.
abbrev pub Admits : LoggerManager → Call → Type 0
Admits m (adds l i) = i < m.world.next_appender
Admits m (sets_formatter l f) = Exists f
Admits m (appender_sets_formatter i f) = Exists f
Admits m _ = Unit

pub data Reach (m : LoggerManager) : LoggerManager → Type 0 where
  here : Reach m m
  next :
      {n o : LoggerManager} (sys : System) (c : Call)
      → Reach m n
      → Admits n c
      → step sys n c ≡ ok o
      → Reach m o

pub mono-IsReady :
    (w w' : World)
    → ((i : ℕ) → IsLive w i → IsLive w' i)
    → w'.logger ≡ w.logger
    → 0 < w'.next_logger
    → IsReady w
    → IsReady w'
mono-IsReady w w' keep same made r = record {
  appenders_set = λ l. rw same (AllExist-mono w w' (w.logger l).appenders keep (r.appenders_set l));
  formatter_set = λ l. rw same (r.formatter_set l);
  rooted = λ l. rw same (r.rooted l);
  root_root = rw same r.root_root;
  made = made;
}

pub make_appender-IsReady : (w : World) (t : Target) → IsReady w → IsReady (make_appender w t)
unfolding make_appender
make_appender-IsReady w t r = mono-IsReady w (make_appender w t) (λ i h. ground arith) refl r.made r

make_logger-IsReady :
    (w : World) (name : Bytes) (root : Option ℕ)
    → (root ≡ none) ⊎ ((root ≡ some 0) × ((w.next_logger == 0) ≡ false))
    → IsReady w
    → IsReady (make_logger w (record (new_logger name) { root = root }))
unfolding make_logger new_logger
make_logger-IsReady w name root h r =
    set_logger-IsReady (record w { next_logger = suc w.next_logger }) w.next_logger _ tt
      (new_logger-Exists name) h
      (mono-IsReady w (record w { next_logger = suc w.next_logger }) (λ i x. x) refl (omega arith)
        r)

pub get_found-IsSound :
    (m : LoggerManager) (name : Bytes) (found : Option ℕ)
    → IsSound m
    → IsSound (get_found m name found).0
unfolding get_found
get_found-IsSound m name (some l) s = s
get_found-IsSound m name none s = record {
  ready =
      make_logger-IsReady m.world name (some m.root)
        (inr (rw s.at_root refl, ground (arith, s.ready.made))) s.ready;
  at_root = s.at_root;
}

-- The call ends, and the manager is sound again.
abbrev pub Succeeds : Run LoggerManager → Type 0
Succeeds r = (m : LoggerManager) × (r ≡ ok m) × IsSound m

on_world-Succeeds :
    (m : LoggerManager) (w : World) → IsSound m → IsReady w → Succeeds (ok (record m { world = w }))
on_world-Succeeds m w s r = (_, refl, record { ready = r; at_root = s.at_root })

pub set_appender_level-IsReady :
    (w : World) (i : ℕ) (level : Level)
    → IsReady w
    → IsReady (set_appender w i (Appender.set_level (w.appender i) level))
set_appender_level-IsReady w i level r =
    mono-IsReady w _ (λ j x. (x.0, rw (same j) x.1)) refl r.made r
  where
    same :
        (j : ℕ)
        → (update w.appender i (Appender.set_level (w.appender i) level) j).formatter
          ≡ (w.appender j).formatter
    same j = ground (arith, ==_iff i j)

-- On a sound manager every call that a program may make ends, follows no null pointer, and leaves
-- the manager sound.
pub step-Succeeds :
    (sys : System) (m : LoggerManager) (c : Call) → IsSound m → Admits m c → Succeeds (step sys m c)
unfolding step
step-Succeeds sys m (gets name) s h = (_, refl, unfold get_logger in get_found-IsSound m name _ s)
step-Succeeds sys m makes_std_out s h =
    on_world-Succeeds m _ s (unfold make_appender in make_appender-IsReady m.world std_out s.ready)
step-Succeeds sys m (makes_file filename last_time) s h = on_world-Succeeds m _ s (
    unfold make_appender in
    make_appender-IsReady _ _
      (mono-IsReady m.world (record m.world { disk = _ }) (λ i x. x) refl s.ready.made s.ready))
step-Succeeds sys m (adds l i) s h =
    on_world-Succeeds m _ s (add_appender-IsReady m.world l i h s.ready)
step-Succeeds sys m (removes l i) s h =
    on_world-Succeeds m _ s (del_appender-IsReady m.world l i s.ready)
step-Succeeds sys m (clears l) s h =
    on_world-Succeeds m _ s (clear_appenders-IsReady m.world l s.ready)
step-Succeeds sys m (sets_level l level) s h =
    on_world-Succeeds m _ s (set_level-IsReady m.world l level s.ready)
step-Succeeds sys m (sets_pattern l pattern) s h =
    on_world-Succeeds m _ s (set_pattern-IsReady m.world l pattern s.ready)
step-Succeeds sys m (sets_formatter l none) s h = absurd h
step-Succeeds sys m (sets_formatter l (some f)) s h =
    on_world-Succeeds m _ s (set_formatter-IsReady m.world l f s.ready)
step-Succeeds sys m (appender_sets_formatter i none) s h = absurd h
step-Succeeds sys m (appender_sets_formatter i (some f)) s h =
    on_world-Succeeds m _ s
      (unfold Appender.set_formatter in set_appender-IsReady m.world i _ tt s.ready)
step-Succeeds sys m (appender_sets_level i level) s h =
    on_world-Succeeds m _ s (set_appender_level-IsReady m.world i level s.ready)
step-Succeeds sys m (logs l level event) s h =
    let (w, e, r) = log-Serves sys m.world l level event s.ready in rw e (on_world-Succeeds m w s r)

first_world-IsReady :
    (disk : Bytes → Bytes) → IsReady (make_logger (empty_world disk) (new_logger (codes "root")))
unfolding make_logger empty_world new_logger
first_world-IsReady disk = record {
  appenders_set = λ l. elim (Bool-cases (0 == l)) [ inl e ↦ rw e tt | inr e ↦ rw e tt ];
  formatter_set = λ l. elim (Bool-cases (0 == l)) [
    | inl e ↦ rw e (new_logger-Exists (codes "root"))
    | inr e ↦ rw e (new_logger-Exists (codes "root"))
  ];
  rooted = λ l. inl (elim (Bool-cases (0 == l)) [ inl e ↦ rw e | inr e ↦ rw e ]);
  root_root = refl;
  made = omega arith;
}

pub new_manager-IsSound : (disk : Bytes → Bytes) → IsSound (new_manager disk)
unfolding new_manager
new_manager-IsSound disk = record {
  ready =
      add_appender-IsReady _ 0 0 (unfold make_appender make_logger empty_world in omega arith)
        (make_appender-IsReady _ std_out (first_world-IsReady disk));
  at_root = refl;
}

abbrev OkSound : Run LoggerManager → Type 0
OkSound (ok m) = IsSound m
OkSound _ = Unit

Reach-IsSound : {m n : LoggerManager} → IsSound m → Reach m n → IsSound n
Reach-IsSound s here = s
Reach-IsSound s (next {n} sys c r h e) =
    let (o, e', t) = step-Succeeds sys n c (Reach-IsSound s r) h in
    subst (λ (x : Run LoggerManager). OkSound x) (sym e' ∙ e) t

-- Whatever calls a program has made since the manager was built, if each appender that it added had
-- been made and no formatter that it set was null, its next such call ends, follows no null
-- pointer, and leaves the manager sound.
pub Reach-Succeeds :
    (disk : Bytes → Bytes) {m : LoggerManager} (sys : System) (c : Call)
    → Reach (new_manager disk) m
    → Admits m c
    → Succeeds (step sys m c)
Reach-Succeeds disk {m} sys c r h =
    step-Succeeds sys m c (Reach-IsSound (new_manager-IsSound disk) r) h
