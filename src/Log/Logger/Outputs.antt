-- ===== src/Log/Logger/Outputs.antt =====
-- What a logger prints, and which appenders a new formatter reaches.
use chord_server.Prelude.{
  ℕ, suc, Bool, true, false, not, ◌&&◌, ◌||◌, ◌≡◌, refl, sym, ap, ◌∙◌, List, [], ◌∷◌, ◌++◌, Option,
  none, some, leb, ◌==◌, if◌then◌else◌, Bytes, All, arith, Bool-cases, inl, inr, append_assoc,
  append-nil, ==_iff,
}
use chord_server.Log.Level.{Level}
use chord_server.Log.Event.{LogEvent}
use chord_server.Log.Formatter.{LogFormatter}
use chord_server.Log.World.{LogAppender, Logger, World, System, std_out, ok, set_appender, cout}
use chord_server.Log.Appender
use chord_server.Log.Appender.{emit, emit_formatted, line}
use chord_server.Log.Logger.{inherit, inherit_all, set_formatter, log_each, log}

-- A standard output appender with this formatter.
abbrev pub Writes : World → ℕ → Type 0
Writes w i =
    ((w.appender i).target ≡ std_out) × ((f : LogFormatter) × ((w.appender i).formatter ≡ some f))

-- The text of one appender for an event: nothing if its level is above the event's.
abbrev pub text_of : System → World → LogAppender → Option LogFormatter → Level → LogEvent → Bytes
text_of sys w a none level event = []
text_of sys w a (some f) level event = if leb a.level level then line sys w f level event else []

abbrev pub texts : System → World → List ℕ → Level → LogEvent → Bytes
texts sys w [] level event = []
texts sys w (i ∷ is) level event =
    text_of sys w (w.appender i) (w.appender i).formatter level event ++ texts sys w is level event

cout-cout : (w : World) (a b : Bytes) → cout (cout w a) b ≡ cout w (a ++ b)
cout-cout w a b = ap (λ (t : Bytes). record w { std_out = t }) (append_assoc w.std_out a b)

cout_nil : (w : World) → cout w [] ≡ w
cout_nil w = ap (λ (t : Bytes). record w { std_out = t }) (append-nil w.std_out)

log-cout :
    (sys : System) (w : World) (i : ℕ) (level : Level) (event : LogEvent)
    → Writes w i
    → Appender.log sys w i level event
      ≡ ok (cout w (text_of sys w (w.appender i) (w.appender i).formatter level event))
unfolding Appender.log emit_formatted emit
log-cout sys w i level event (t, (f, e)) = elim (Bool-cases (leb (w.appender i).level level)) [
  | inl b ↦ rw (b, e, emit_formatted) (rw (t, b))
  | inr b ↦ rw (b, e) (rw b (ap ok (sym (cout_nil w))))
]

log_each-texts :
    (is : List ℕ) (sys : System) (w : World) (t : Bytes) (level : Level) (event : LogEvent)
    → All (Writes w) is
    → log_each sys (cout w t) is level event ≡ ok (cout w (t ++ texts sys w is level event))
unfolding log_each
log_each-texts [] sys w t level event h = rw append-nil
log_each-texts (i ∷ is) sys w t level event h =
    rw (log-cout sys (cout w t) i level event h.0)
      (rw (cout-cout w t) (log_each-texts is sys w _ level event h.1 ∙ rw append_assoc))

-- A logger that has only standard output appenders, each with a formatter: at or above its level
-- an event appends, for each appender in order whose level it reaches, the line of that appender's
-- formatter to the standard output; below its level nothing changes.
pub log-texts :
    (fuel : ℕ) (sys : System) (w : World) (l i : ℕ) (is : List ℕ) (level : Level) (event : LogEvent)
    → (w.logger l).appenders ≡ i ∷ is
    → All (Writes w) (i ∷ is)
    → log (suc fuel) sys w l level event
      ≡ ok (if leb (w.logger l).level level then cout w (texts sys w (i ∷ is) level event) else w)
unfolding log
log-texts fuel sys w l i is level event e h = elim (Bool-cases (leb (w.logger l).level level)) [
  | inl b ↦
      rw (b, e)
        (ap (λ (v : World). log_each sys v (i ∷ is) level event) (sym (cout_nil w))
          ∙ log_each-texts (i ∷ is) sys w [] level event h)
  | inr b ↦ rw b
]

abbrev pub contains : List ℕ → ℕ → Bool
contains [] j = false
contains (i ∷ is) j = i == j || contains is j

inherit_all-appender :
    (is : List ℕ) (val : Option LogFormatter) (w : World) (j : ℕ)
    → (inherit_all val w is).appender j ≡ (
        if contains is j && not (w.appender j).has_formatter
        then record (w.appender j) { formatter = val }
        else w.appender j)
unfolding inherit_all
inherit_all-appender [] val w j = refl
inherit_all-appender (i ∷ is) val w j =
    inherit_all-appender is val (inherit val w i) j ∙ ground (arith, ==_iff i j)

inherit_all-logger :
    (is : List ℕ) (val : Option LogFormatter) (w : World) → (inherit_all val w is).logger ≡ w.logger
unfolding inherit_all
inherit_all-logger [] val w = refl
inherit_all-logger (i ∷ is) val w =
    inherit_all-logger is val (inherit val w i) ∙ inherit-logger (w.appender i).has_formatter
  where
    inherit-logger :
        (b : Bool)
        → (if not b then set_appender w i (record (w.appender i) { formatter = val }) else w).logger
          ≡ w.logger
    inherit-logger true = refl
    inherit-logger false = refl

-- Setting a logger's formatter: the logger takes it, and of all appenders exactly those in its
-- list that have no formatter of their own, shared ones included; nothing else of any appender and
-- no other logger changes.
pub set_formatter_lem :
    (w : World) (l k j : ℕ) (val : Option LogFormatter)
    → ((set_formatter w l val).appender j ≡ (
        if contains (w.logger l).appenders j && not (w.appender j).has_formatter
        then record (w.appender j) { formatter = val }
        else w.appender j))
      × ((set_formatter w l val).logger k
          ≡ (if l == k then record (w.logger l) { formatter = val } else w.logger k))
unfolding set_formatter
set_formatter_lem w l k j val = (
  inherit_all-appender (w.logger l).appenders val _ j,
  ap (λ (g : ℕ → Logger). g k) (inherit_all-logger (w.logger l).appenders val _),
)
