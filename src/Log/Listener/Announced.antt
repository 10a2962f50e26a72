-- ===== src/Log/Listener/Announced.antt =====
-- Logging makes no logger and no appender, and leaves what they are.
use chord_server.Prelude.{
  ℕ, zero, suc, Bool, true, false, ◌≡◌, refl, sym, ap, subst, ◌∙◌, Bool-cases, inl, inr, arith,
  ==_iff, ◌==◌, List, [], ◌∷◌, Option, none, some, leb, if◌then◌else◌, Bytes,
}
use chord_server.Log.Level.{Level, info}
use chord_server.Log.Event.{LogEvent}
use chord_server.Log.Formatter.{LogFormatter}
use chord_server.Log.World.{World, LogFile, System, Target, std_out, file, Run, ok, set_appender}
use chord_server.Log.Appender
use chord_server.Log.Appender.{
  FileState, put_text, put, write, refresh, reopen, log_file, emit, emit_formatted,
}
use chord_server.Log.Logger.{log_each, log_own, log_root, log, depth, log_level}
use chord_server.Log.Manager.{LoggerManager}
use chord_server.Log.Listener.{Site, announce}
use chord_server.Log.Listener.Changes.{Same, IsTarget, Wears, if-both}
use chord_server.Log.Listener.Appenders.{Holds, Holds-bind, Holds-mono}

-- The loggers are as in the world before, and every appender keeps its kind, file, level and a
-- formatter of its own.
abbrev pub Undisturbed : World → World → Type 0
Undisturbed w v =
    (v.next_logger ≡ w.next_logger)
    × (v.logger ≡ w.logger)
    × (v.next_appender ≡ w.next_appender)
    × ((i : ℕ) → Same w v i)

Undisturbed-refl : (w : World) → Undisturbed w w
Undisturbed-refl w = (refl, refl, refl, λ i. (refl, λ e x. x, λ f x. x))

Undisturbed-trans : (w v u : World) → Undisturbed w v → Undisturbed v u → Undisturbed w u
Undisturbed-trans w v u (a, b, c, d) (a', b', c', d') = (
  a' ∙ a,
  b' ∙ b,
  c' ∙ c,
  λ i.
      let (x, y, z) = d i in
      let (x', y', z') = d' i in (x' ∙ x, λ e t. y' e (y e t), λ f t. z' f (z f t)),
)

put-filename :
    (st : FileState) (text : Bytes) (o : Option ℕ)
    → (put st text o).file.filename ≡ st.file.filename
unfolding put put_text
put-filename st text none = refl
put-filename st text (some n) = refl

write-filename :
    (sys : System) (st : FileState) (text : Bytes)
    → (write sys st text).file.filename ≡ st.file.filename
unfolding write
write-filename sys st text =
    ground (arith, put-filename st text (sys.fails_at st.file.filename text))

refresh-filename :
    (sys : System) (st : FileState) → (refresh sys st).file.filename ≡ st.file.filename
unfolding refresh reopen
refresh-filename sys st = ground arith

log_file-filename :
    (sys : System) (st : FileState) (text : Bytes)
    → (log_file sys st text).file.filename ≡ st.file.filename
unfolding log_file
log_file-filename sys st text = write-filename sys (refresh sys st) text ∙ refresh-filename sys st

-- Writing the fields of a file appender back, with the same name of the file.
store-Undisturbed :
    (w : World) (i : ℕ) (f g : LogFile) (disk : Bytes → Bytes)
    → (w.appender i).target ≡ file f
    → g.filename ≡ f.filename
    → Undisturbed w
        (set_appender (record w { disk = disk }) i (record (w.appender i) { target = file g }))
store-Undisturbed w i f g disk t n = (
  refl,
  refl,
  refl,
  λ j. elim (Bool-cases (i == j)) [
    | inl e ↦
        let here : i ≡ j = (==_iff i j).0 e in
        rw e (
          ap (λ k. (w.appender k).level) here,
          λ a x.
              let old : IsTarget (file f) a =
                subst (λ k. IsTarget k a) (sym (ap (λ k. (w.appender k).target) here) ∙ t) x in
              (old.0, n ∙ old.1),
          λ h x. subst (λ k. Wears w k h) (sym here) x,
        )
    | inr e ↦ rw e (refl, λ a x. x, λ h x. x)
  ],
)

emit-Undisturbed :
    (sys : System) (w : World) (i : ℕ) (t : Target) (text : Bytes)
    → (w.appender i).target ≡ t
    → Undisturbed w (emit sys w i (w.appender i) t text)
unfolding emit
emit-Undisturbed sys w i std_out text e = Undisturbed-refl w
emit-Undisturbed sys w i (file f) text e =
    let st = log_file sys (record { file = f; disk = w.disk }) text in
    let kept =
      store-Undisturbed w i f st.file st.disk e
        (log_file-filename sys (record { file = f; disk = w.disk }) text) in
    if-both (Undisturbed w) _ kept kept

emit_formatted-Undisturbed :
    (sys : System) (w : World) (i : ℕ) (f : Option LogFormatter) (level : Level) (event : LogEvent)
    → Holds (Undisturbed w) (emit_formatted sys w i (w.appender i) f level event)
unfolding emit_formatted
emit_formatted-Undisturbed sys w i none level event = tt
emit_formatted-Undisturbed sys w i (some f) level event =
    emit-Undisturbed sys w i (w.appender i).target _ refl

if-Holds :
    (w : World) (b : Bool) (r q : Run World)
    → Holds (Undisturbed w) r
    → Holds (Undisturbed w) q
    → Holds (Undisturbed w) (if b then r else q)
if-Holds w true r q h k = h
if-Holds w false r q h k = k

log_each-Undisturbed :
    (sys : System) (w : World) (is : List ℕ) (level : Level) (event : LogEvent)
    → Holds (Undisturbed w) (log_each sys w is level event)
unfolding log_each Appender.log
log_each-Undisturbed sys w [] level event = Undisturbed-refl w
log_each-Undisturbed sys w (i ∷ is) level event =
    Holds-bind (Undisturbed w) (Undisturbed w) (Appender.log sys w i level event) _
      (if-Holds w (leb (w.appender i).level level)
        (emit_formatted sys w i (w.appender i) (w.appender i).formatter level event) (ok w)
        (emit_formatted-Undisturbed sys w i (w.appender i).formatter level event)
        (Undisturbed-refl w))
      (λ v e.
        Holds-mono (Undisturbed v) (Undisturbed w) (log_each sys v is level event)
          (λ u f. Undisturbed-trans w v u e f) (log_each-Undisturbed sys v is level event))

log_root-Undisturbed :
    (w : World) (up : ℕ → Run World) (root : Option ℕ)
    → ((r : ℕ) → Holds (Undisturbed w) (up r))
    → Holds (Undisturbed w) (log_root up w root)
unfolding log_root
log_root-Undisturbed w up none h = Undisturbed-refl w
log_root-Undisturbed w up (some r) h = h r

log_own-Undisturbed :
    (sys : System) (w : World) (is : List ℕ) (level : Level) (event : LogEvent) (up : Run World)
    → Holds (Undisturbed w) up
    → Holds (Undisturbed w) (log_own sys w is level event up)
unfolding log_own
log_own-Undisturbed sys w [] level event up h = h
log_own-Undisturbed sys w (i ∷ is) level event up h =
    log_each-Undisturbed sys w (i ∷ is) level event

pub log-Undisturbed :
    (fuel : ℕ) (sys : System) (w : World) (l : ℕ) (level : Level) (event : LogEvent)
    → Holds (Undisturbed w) (log fuel sys w l level event)
unfolding log
log-Undisturbed zero sys w l level event = tt
log-Undisturbed (suc fuel) sys w l level event =
    let g = w.logger l in
    let up = log_root (λ r. log fuel sys w r level event) w g.root in
    if-Holds w (leb g.level level) (log_own sys w g.appenders level event up) (ok w)
      (log_own-Undisturbed sys w g.appenders level event up (
        log_root-Undisturbed w (λ r. log fuel sys w r level event) g.root
          (λ r. log-Undisturbed fuel sys w r level event)))
      (Undisturbed-refl w)

pub log_level-Undisturbed :
    (sys : System) (w : World) (l : ℕ) (level : Level) (event : LogEvent)
    → Holds (Undisturbed w) (log_level sys w l level event)
unfolding log_level
log_level-Undisturbed sys w l level event =
    if-Holds w (leb (w.logger l).level level) (log depth sys w event.logger event.level event)
      (ok w) (log-Undisturbed depth sys w event.logger event.level event) (Undisturbed-refl w)

pub announce-Undisturbed :
    (s : Site) (m : LoggerManager) → Holds (Undisturbed m.world) (announce s m)
unfolding announce
announce-Undisturbed s m = log_level-Undisturbed s.sys m.world m.root info _
