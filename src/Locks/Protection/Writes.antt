-- ===== src/Locks/Protection/Writes.antt =====
-- Each operation of the logging component changes only what it locks.
use chord_server.Prelude.{
  ℕ, Bool, true, false, ◌≡◌, refl, List, [], ◌∷◌, ◌++◌, Option, none, some, if◌then◌else◌, All,
  Bytes, Bool-cases, inl, inr,
}
use chord_server.Log.Formatter.{LogFormatter, new_formatter, constructor_output}
use chord_server.Log.World.{Logger, World, set_logger, cout}
use chord_server.Log.Logger.{
  inherit, inherit_all, set_formatter, set_formatter_made, set_pattern, give_formatter,
  add_appender,
}
use chord_server.Locks.{Mutex, logger, appender, alone, Hold, Act, scope, locked, each}
use chord_server.Locks.Logging.{
  appender_locks, each_appender_locks, set_pattern_locks, give_formatter_locks, add_appender_locks,
}
use chord_server.Locks.Protection.{
  takes, Protects, Protects-refl, Protects-trans, set_appender-Protects, set_logger-Protects,
  takes-scope, takes-within, takes-left, takes-right,
}

pub cout-Protects : (acts : List Act) (w : World) (text : Bytes) → Protects acts w (cout w text)
cout-Protects acts w text = record {
  loggers = λ l h. (refl, refl, refl, refl);
  appenders = λ i h. (refl, refl, refl);
}

pub takes-logger : (l : ℕ) (inner : List Act) → takes (logger l) (locked (logger l) inner) ≡ true
takes-logger l inner = takes-scope (record { mode = alone; mutex = logger l }) inner

pub takes-appender : (i : ℕ) → takes (appender i) (appender_locks i) ≡ true
takes-appender i = takes-scope (record { mode = alone; mutex = appender i }) []

-- All appenders of a list are locked in turn.
abbrev AllTaken : List Act → List ℕ → Type 0
AllTaken acts = All (λ i. takes (appender i) acts ≡ true)

AllTaken-mono :
    (xs ys : List Act) (is : List ℕ)
    → ((m : Mutex) → takes m xs ≡ true → takes m ys ≡ true)
    → AllTaken xs is
    → AllTaken ys is
AllTaken-mono xs ys [] up h = tt
AllTaken-mono xs ys (i ∷ is) up h = (up (appender i) h.0, AllTaken-mono xs ys is up h.1)

AllTaken-each : (is : List ℕ) → AllTaken (each appender_locks is) is
AllTaken-each [] = tt
AllTaken-each (i ∷ is) = (
  takes-left (appender i) (appender_locks i) (each appender_locks is) (takes-appender i),
  AllTaken-mono (each appender_locks is) (appender_locks i ++ each appender_locks is) is
      (λ m t. takes-right m (appender_locks i) (each appender_locks is) t) (AllTaken-each is),
)

inherit_all-Protects :
    (acts : List Act) (val : Option LogFormatter) (w : World) (is : List ℕ)
    → AllTaken acts is
    → Protects acts w (inherit_all val w is)
unfolding inherit_all
inherit_all-Protects acts val w [] h = Protects-refl acts w
inherit_all-Protects acts val w (i ∷ is) h =
    Protects-trans (inherit-Protects i h.0) (inherit_all-Protects acts val (inherit val w i) is h.1)
  where
    inherit-Protects : (j : ℕ) → takes (appender j) acts ≡ true → Protects acts w (inherit val w j)
    inherit-Protects j t = elim (Bool-cases (w.appender j).has_formatter) [
      | inl e ↦ rw e (Protects-refl acts w)
      | inr e ↦ rw e (set_appender-Protects acts w j _ t)
    ]

pub set_formatter-Protects :
    (w : World) (l : ℕ) (val : Option LogFormatter)
    → Protects (each_appender_locks w l) w (set_formatter w l val)
unfolding set_formatter each_appender_locks
set_formatter-Protects w l val =
    let is = (w.logger l).appenders in
    let h : Hold = record { mode = alone; mutex = logger l } in
    let acts = scope h (each appender_locks is) in
    let set = set_logger w l (record (w.logger l) { formatter = val }) in
    Protects-trans (set_logger-Protects acts w l _ (takes-scope h (each appender_locks is))) (
      inherit_all-Protects acts val set is (
        AllTaken-mono (each appender_locks is) acts is (λ m t. takes-within m h _ t)
          (AllTaken-each is)))

pub if-Protects :
    (b : Bool) {xs ys : List Act} {w u v : World}
    → Protects xs w u
    → Protects ys w v
    → Protects (if b then xs else ys) w (if b then u else v)
if-Protects true p q = p
if-Protects false p q = q

set_formatter_made-Protects :
    (w : World) (text : Bytes) (l : ℕ) (pattern : Bytes) (f : Option LogFormatter)
    → Protects (set_pattern_locks w l f) w (set_formatter_made (cout w text) l pattern f)
unfolding set_pattern_locks set_formatter_made each_appender_locks
set_formatter_made-Protects w text l pattern none = cout-Protects [] w text
set_formatter_made-Protects w text l pattern (some f) =
    if-Protects f.is_error
      (Protects-trans (cout-Protects [] w text) (cout-Protects [] (cout w text) _))
      (Protects-trans (cout-Protects _ w text) (set_formatter-Protects (cout w text) l (some f)))

pub set_pattern-Protects :
    (w : World) (l : ℕ) (pattern : Bytes)
    → Protects (set_pattern_locks w l (new_formatter pattern)) w (set_pattern w l pattern)
unfolding set_pattern
set_pattern-Protects w l pattern =
    set_formatter_made-Protects w (constructor_output pattern) l pattern (new_formatter pattern)

give_formatter-Protects :
    (acts : List Act) (w : World) (i : ℕ) (f val : Option LogFormatter)
    → takes (appender i) acts ≡ true
    → Protects acts w (give_formatter w i f val)
unfolding give_formatter
give_formatter-Protects acts w i none val t = set_appender-Protects acts w i _ t
give_formatter-Protects acts w i (some f) val t = Protects-refl acts w

pub add_appender-Protects :
    (w : World) (l i : ℕ) → Protects (add_appender_locks w l i) w (add_appender w l i)
unfolding add_appender add_appender_locks
add_appender-Protects w l i =
    let f = (w.appender i).formatter in
    let h : Hold = record { mode = alone; mutex = logger l } in
    let inner = appender_locks i ++ give_formatter_locks i f in
    Protects-trans
      (give_formatter-Protects (scope h inner) w i f (w.logger l).formatter (
        takes-within (appender i) h inner (
          takes-left (appender i) (appender_locks i) (give_formatter_locks i f)
            (takes-appender i))))
      (set_logger-Protects (scope h inner) _ l _ (takes-scope h inner))

-- One write to a logger behind its guard.
pub logger_alone-Protects :
    (w : World) (l : ℕ) (lg : Logger) → Protects (locked (logger l) []) w (set_logger w l lg)
logger_alone-Protects w l lg = set_logger-Protects _ w l lg (takes-logger l [])
