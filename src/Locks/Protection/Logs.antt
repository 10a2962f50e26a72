-- ===== src/Locks/Protection/Logs.antt =====
-- What logging changes, against the locks that it takes.
use chord_server.Prelude.{
  ℕ, zero, suc, Bool, true, false, ◌≡◌, refl, ◌∙◌, subst, List, [], ◌∷◌, Option, none, some, ==_iff,
  leb, if◌then◌else◌, All, Bytes, Bool-cases, inl, inr, arith,
}
use chord_server.Log.Level.{Level}
use chord_server.Log.Event.{LogEvent}
use chord_server.Log.Formatter.{LogFormatter}
use chord_server.Log.World.{
  Target, std_out, file, World, System, Run, ok, null_pointer, no_fuel, set_appender, cout,
}
use chord_server.Log.Appender
use chord_server.Log.Appender.{emit, emit_formatted}
use chord_server.Log.Logger.{log_each, log_root, log_own, log, depth}
use chord_server.Log.Listener.Appenders.{Holds, Holds-bind}
use chord_server.Locks.{Mutex, logger, appender, Act, locked, each}
use chord_server.Locks.Logging.{
  appender_locks, target_locks, appender_log_locks, own_locks, root_locks, log_locks,
}
use chord_server.Locks.Protection.{
  takes, Protects, Protects-refl, Protects-trans, set_appender-Protects, takes-within, takes-left,
  takes-right,
}
use chord_server.Locks.Protection.Writes.{cout-Protects, takes-appender}

-- Logging leaves the levels of appenders as they are, and changes only appenders that it locks.
record Logs (acts : List Act) (w w' : World) : Type 0 where
  protects : Protects acts w w'
  levels : (i : ℕ) → (w'.appender i).level ≡ (w.appender i).level

Logs-refl : (acts : List Act) (w : World) → Logs acts w w
Logs-refl acts w = record { protects = Protects-refl acts w; levels = λ i. refl }

Holds-map :
    {A : Type 0} (P Q : A → Type 0) (r : Run A) → ((a : A) → P a → Q a) → Holds P r → Holds Q r
Holds-map P Q (ok a) f h = f a h
Holds-map P Q null_pointer f h = tt
Holds-map P Q no_fuel f h = tt

Logs-trans : {acts : List Act} {u v w : World} → Logs acts u v → Logs acts v w → Logs acts u w
Logs-trans p q = record {
  protects = Protects-trans p.protects q.protects;
  levels = λ i. q.levels i ∙ p.levels i;
}

cout-Logs : (acts : List Act) (w : World) (text : Bytes) → Logs acts w (cout w text)
cout-Logs acts w text = record { protects = cout-Protects acts w text; levels = λ i. refl }

if-Logs :
    (b : Bool) {acts : List Act} {w u v : World}
    → Logs acts w u
    → Logs acts w v
    → Logs acts w (if b then u else v)
if-Logs true p q = p
if-Logs false p q = q

-- The file's state and the disk are written back.
stored-Logs :
    (acts : List Act) (w : World) (i : ℕ) (disk : Bytes → Bytes) (x : Target)
    → takes (appender i) acts ≡ true
    → Logs acts w (set_appender (record w { disk = disk }) i (record (w.appender i) { target = x }))
stored-Logs acts w i disk x t = record {
  protects =
      let p = set_appender-Protects acts w i (record (w.appender i) { target = x }) t in
      record { loggers = p.loggers; appenders = p.appenders };
  levels = λ j. ground (arith, ==_iff i j);
}

emit-Logs :
    (acts : List Act) (sys : System) (w : World) (i : ℕ) (t : Target) (text : Bytes)
    → takes (appender i) acts ≡ true
    → Logs acts w (emit sys w i (w.appender i) t text)
unfolding emit
emit-Logs acts sys w i std_out text t = record {
  protects = cout-Protects acts w text;
  levels = λ j. refl;
}
emit-Logs acts sys w i (file f) text t =
    let st = Appender.log_file sys (record { file = f; disk = w.disk }) text in
    if-Logs st.file.stream.failed
      (Logs-trans (stored-Logs acts w i st.disk (file st.file) t) (cout-Logs acts _ _))
      (stored-Logs acts w i st.disk (file st.file) t)

emit_formatted-Logs :
    (acts : List Act) (sys : System) (w : World) (i : ℕ) (f : Option LogFormatter) (level : Level)
    (event : LogEvent)
    → takes (appender i) acts ≡ true
    → Holds (Logs acts w) (emit_formatted sys w i (w.appender i) f level event)
unfolding emit_formatted
emit_formatted-Logs acts sys w i none level event t = tt
emit_formatted-Logs acts sys w i (some f) level event t =
    emit-Logs acts sys w i (w.appender i).target _ t

-- An appender is locked if it lets the level through.
abbrev LocksIfPassing : List Act → World → Level → ℕ → Type 0
LocksIfPassing acts w level i =
    leb (w.appender i).level level ≡ true → takes (appender i) acts ≡ true

appender_log-Logs :
    (acts : List Act) (sys : System) (w : World) (i : ℕ) (level : Level) (event : LogEvent)
    → LocksIfPassing acts w level i
    → Holds (Logs acts w) (Appender.log sys w i level event)
unfolding Appender.log
appender_log-Logs acts sys w i level event t = elim (Bool-cases (leb (w.appender i).level level)) [
  | inl e ↦ rw e (emit_formatted-Logs acts sys w i (w.appender i).formatter level event (t e))
  | inr e ↦ rw e (Logs-refl acts w)
]

AllPassing-mono :
    (acts : List Act) (w w' : World) (level : Level) (is : List ℕ)
    → Logs acts w w'
    → All (LocksIfPassing acts w level) is
    → All (LocksIfPassing acts w' level) is
AllPassing-mono acts w w' level [] k h = tt
AllPassing-mono acts w w' level (i ∷ is) k h = (
  λ e. h.0 (subst (λ v. leb v level ≡ true) (k.levels i) e),
  AllPassing-mono acts w w' level is k h.1,
)

log_each-Logs :
    (acts : List Act) (sys : System) (w : World) (is : List ℕ) (level : Level) (event : LogEvent)
    → All (LocksIfPassing acts w level) is
    → Holds (Logs acts w) (log_each sys w is level event)
unfolding log_each
log_each-Logs acts sys w [] level event h = Logs-refl acts w
log_each-Logs acts sys w (i ∷ is) level event h =
    Holds-bind (Logs acts w) (Logs acts w) (Appender.log sys w i level event)
      (λ w'. log_each sys w' is level event) (appender_log-Logs acts sys w i level event h.0)
      (λ w' k.
        Holds-map (Logs acts w') (Logs acts w) (log_each sys w' is level event)
          (λ v q. Logs-trans k q)
          (log_each-Logs acts sys w' is level event (AllPassing-mono acts w w' level is k h.1)))

passing :
    (sys : System) (w : World) (level : Level) (i : ℕ)
    → LocksIfPassing (appender_log_locks sys w level i) w level i
unfolding appender_log_locks
passing sys w level i e = rw e (
    takes-right (appender i) (target_locks sys i (w.appender i).target) (appender_locks i)
      (takes-appender i))

-- Acts with all locks of other ones.
abbrev Covers : List Act → List Act → Type 0
Covers xs ys = (m : Mutex) → takes m xs ≡ true → takes m ys ≡ true

each-passing :
    (acts : List Act) (sys : System) (w : World) (level : Level) (is : List ℕ)
    → Covers (each (appender_log_locks sys w level) is) acts
    → All (LocksIfPassing acts w level) is
each-passing acts sys w level [] c = tt
each-passing acts sys w level (i ∷ is) c = (
  λ e.
      c (appender i)
        (takes-left (appender i) (appender_log_locks sys w level i) _ (passing sys w level i e)),
  each-passing acts sys w level is
      (λ m t. c m (takes-right m (appender_log_locks sys w level i) _ t)),
)

log_own-Logs :
    (acts : List Act) (sys : System) (w : World) (is : List ℕ) (level : Level) (event : LogEvent)
    (up : Run World) (up_acts : List Act)
    → (Covers up_acts acts → Holds (Logs acts w) up)
    → Covers (own_locks sys w level is up_acts) acts
    → Holds (Logs acts w) (log_own sys w is level event up)
unfolding log_own own_locks
log_own-Logs acts sys w [] level event up up_acts h c = h c
log_own-Logs acts sys w (i ∷ is) level event up up_acts h c =
    log_each-Logs acts sys w (i ∷ is) level event (each-passing acts sys w level (i ∷ is) c)

log_root-Logs :
    (acts : List Act) (w : World) (of : ℕ → Run World) (of_acts : ℕ → List Act) (root : Option ℕ)
    → ((r : ℕ) → Covers (of_acts r) acts → Holds (Logs acts w) (of r))
    → Covers (root_locks of_acts root) acts
    → Holds (Logs acts w) (log_root of w root)
unfolding log_root root_locks
log_root-Logs acts w of of_acts none h c = Logs-refl acts w
log_root-Logs acts w of of_acts (some r) h c = h r c

log-Logs :
    (fuel : ℕ) (acts : List Act) (sys : System) (w : World) (l : ℕ) (level : Level)
    (event : LogEvent)
    → Covers (log_locks fuel sys w l level) acts
    → Holds (Logs acts w) (log fuel sys w l level event)
unfolding log log_locks
log-Logs zero acts sys w l level event c = tt
log-Logs (suc fuel) acts sys w l level event c = elim (Bool-cases (leb (w.logger l).level level)) [
  | inr e ↦ rw e (Logs-refl acts w)
  | inl e ↦
      let lg = w.logger l in
      let ups = root_locks (λ r. log_locks fuel sys w r level) lg.root in
      let c' : Covers (locked (logger l) (own_locks sys w level lg.appenders ups)) acts =
        rw e at c in
      rw e (
        log_own-Logs acts sys w lg.appenders level event _ ups
          (log_root-Logs acts w (λ r. log fuel sys w r level event)
            (λ r. log_locks fuel sys w r level) lg.root
            (λ r. log-Logs fuel acts sys w r level event))
          (λ m t. c' m (takes-within m _ _ t)))
]

-- Logger::log changes only appenders that it locks.
pub log-Protects :
    (sys : System) (w : World) (l : ℕ) (level : Level) (event : LogEvent)
    → Holds (Protects (log_locks depth sys w l level) w) (log depth sys w l level event)
log-Protects sys w l level event =
    Holds-map (Logs _ w) (Protects (log_locks depth sys w l level) w)
      (log depth sys w l level event) (λ w' k. k.protects)
      (log-Logs depth _ sys w l level event (λ m t. t))
