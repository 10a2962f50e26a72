-- ===== src/Log/Logger/Safety.antt =====
-- No formatter that a log call reaches is null, and a log call always ends.
use chord_server.Prelude.{
  ℕ, suc, ◌<◌, ◌≡◌, refl, ◌∙◌, ◌⊎◌, inl, inr, List, [], ◌∷◌, Option, none, some, leb, Bytes, All,
  arith, Bool-cases,
}
use chord_server.Log.Level.{Level}
use chord_server.Log.Event.{LogEvent}
use chord_server.Log.Formatter.{LogFormatter}
use chord_server.Log.World.{World, System, Target, std_out, file, Run, ok}
use chord_server.Log.Appender
use chord_server.Log.Appender.{emit, emit_formatted}
use chord_server.Log.Logger.{log_each, log_root, log_own, log, depth}

abbrev pub Exists : Option LogFormatter → Type 0
Exists none = ⊥
Exists (some f) = Unit

-- The place holds an appender that was made, and it has a formatter.
abbrev pub IsLive : World → ℕ → Type 0
IsLive w i = (i < w.next_appender) × Exists (w.appender i).formatter

abbrev pub AllExist : World → List ℕ → Type 0
AllExist w = All (IsLive w)

-- Every logger has a formatter, and so has every appender of a logger; a logger's root is null or
-- the first logger, which was made and whose root is null.
pub record IsReady (w : World) : Type 0 where
  pub appenders_set : (l : ℕ) → AllExist w (w.logger l).appenders
  pub formatter_set : (l : ℕ) → Exists (w.logger l).formatter
  pub rooted : (l : ℕ) → ((w.logger l).root ≡ none) ⊎ ((w.logger l).root ≡ some 0)
  pub root_root : (w.logger 0).root ≡ none
  pub made : 0 < w.next_logger

-- What a call of an appender's `log` leaves alone.
record Keeps (w w' : World) : Type 0 where
  formatters : (i : ℕ) → (w'.appender i).formatter ≡ (w.appender i).formatter
  loggers : w'.logger ≡ w.logger
  next : w'.next_appender ≡ w.next_appender
  next_logger : w'.next_logger ≡ w.next_logger

pub AllExist-mono :
    (w w' : World) (is : List ℕ)
    → ((i : ℕ) → IsLive w i → IsLive w' i)
    → AllExist w is
    → AllExist w' is
AllExist-mono w w' [] keep h = tt
AllExist-mono w w' (i ∷ is) keep h = (keep i h.0, AllExist-mono w w' is keep h.1)

emit-Keeps :
    (sys : System) (w : World) (i : ℕ) (t : Target) (text : Bytes)
    → Keeps w (emit sys w i (w.appender i) t text)
unfolding emit
emit-Keeps sys w i std_out text = record {
  formatters = λ j. refl;
  loggers = refl;
  next = refl;
  next_logger = refl;
}
emit-Keeps sys w i (file f) text = record {
  formatters = λ j. ground arith;
  loggers = ground arith;
  next = ground arith;
  next_logger = ground arith;
}

abbrev Ends : World → Run World → Type 0
Ends w r = (w' : World) × (r ≡ ok w') × Keeps w w'

emit_formatted-Ends :
    (sys : System) (w : World) (i : ℕ) (f : Option LogFormatter) (level : Level) (event : LogEvent)
    → Exists f
    → Ends w (emit_formatted sys w i (w.appender i) f level event)
unfolding emit_formatted
emit_formatted-Ends sys w i none level event h = absurd h
emit_formatted-Ends sys w i (some f) level event h = (_, refl, emit-Keeps sys w i _ _)

log-Ends :
    (sys : System) (w : World) (i : ℕ) (level : Level) (event : LogEvent)
    → Exists (w.appender i).formatter
    → Ends w (Appender.log sys w i level event)
unfolding Appender.log
log-Ends sys w i level event h = elim (Bool-cases (leb (w.appender i).level level)) [
  | inl e ↦ rw e (emit_formatted-Ends sys w i (w.appender i).formatter level event h)
  | inr e ↦
      rw e (
        w,
        refl,
        record { formatters = λ j. refl; loggers = refl; next = refl; next_logger = refl },
      )
]

log_each-Ends :
    (is : List ℕ) (sys : System) (w : World) (level : Level) (event : LogEvent)
    → AllExist w is
    → Ends w (log_each sys w is level event)
unfolding log_each
log_each-Ends [] sys w level event h =
    (w, refl, record { formatters = λ j. refl; loggers = refl; next = refl; next_logger = refl })
log_each-Ends (i ∷ is) sys w level event h =
    let (v, first, k) = log-Ends sys w i level event h.0.1 in
    let (u, rest, k') =
      log_each-Ends is sys v level event
        (AllExist-mono w v is (λ j x. (rw k.next x.0, rw (k.formatters j) x.1)) h.1) in
    (
      u,
      rw first rest,
      record {
        formatters = λ j. k'.formatters j ∙ k.formatters j;
        loggers = k'.loggers ∙ k.loggers;
        next = k'.next ∙ k.next;
        next_logger = k'.next_logger ∙ k.next_logger;
      },
    )

Keeps-IsReady : {w w' : World} → Keeps w w' → IsReady w → IsReady w'
Keeps-IsReady {w} {w'} k r = record {
  appenders_set = λ l. rw k.loggers (
      AllExist-mono w w' (w.logger l).appenders (λ i x. (rw k.next x.0, rw (k.formatters i) x.1))
        (r.appenders_set l));
  formatter_set = λ l. rw k.loggers (r.formatter_set l);
  rooted = λ l. rw k.loggers (r.rooted l);
  root_root = rw k.loggers r.root_root;
  made = rw k.next_logger r.made;
}

-- The call ends, and the store is ready again.
abbrev pub Serves : Run World → Type 0
Serves r = (w' : World) × (r ≡ ok w') × IsReady w'

log_own-Serves :
    (sys : System) (w : World) (is : List ℕ) (level : Level) (event : LogEvent) (up : Run World)
    → AllExist w is
    → IsReady w
    → Serves up
    → Serves (log_own sys w is level event up)
unfolding log_own
log_own-Serves sys w [] level event up h r u = u
log_own-Serves sys w (i ∷ is) level event up h r u =
    let (v, e, k) = log_each-Ends (i ∷ is) sys w level event h in (v, e, Keeps-IsReady k r)

log_one-Serves :
    (fuel : ℕ) (sys : System) (w : World) (l : ℕ) (level : Level) (event : LogEvent)
    → IsReady w
    → Serves (log_root (λ r. log fuel sys w r level event) w (w.logger l).root)
    → Serves (log (suc fuel) sys w l level event)
unfolding log
log_one-Serves fuel sys w l level event r up = elim (Bool-cases (leb (w.logger l).level level)) [
  | inl t ↦
      rw t (log_own-Serves sys w (w.logger l).appenders level event _ (r.appenders_set l) r up)
  | inr t ↦ rw t (w, refl, r)
]

log_root-Serves :
    (of : ℕ → Run World) (w : World) (root : Option ℕ)
    → IsReady w
    → (root ≡ none) ⊎ ((root ≡ some 0) × Serves (of 0))
    → Serves (log_root of w root)
unfolding log_root
log_root-Serves of w root r (inl e) = rw e (w, refl, r)
log_root-Serves of w root r (inr (e, s)) = rw e s

-- Every log call on a ready store ends, follows no null pointer, and leaves the store ready.
pub log-Serves :
    (sys : System) (w : World) (l : ℕ) (level : Level) (event : LogEvent)
    → IsReady w
    → Serves (log depth sys w l level event)
log-Serves sys w l level event r = log_one-Serves 1 sys w l level event r (up (r.rooted l))
  where
    at_root : Serves (log 1 sys w 0 level event)
    at_root =
        log_one-Serves 0 sys w 0 level event r
          (log_root-Serves _ w (w.logger 0).root r (inl r.root_root))

    up :
        ((w.logger l).root ≡ none) ⊎ ((w.logger l).root ≡ some 0)
        → Serves (log_root (λ k. log 1 sys w k level event) w (w.logger l).root)
    up (inl e) = log_root-Serves _ w (w.logger l).root r (inl e)
    up (inr e) = log_root-Serves _ w (w.logger l).root r (inr (e, at_root))
