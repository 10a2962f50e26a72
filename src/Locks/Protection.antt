-- ===== src/Locks/Protection.antt =====
-- What an operation changes, against the locks that it takes.
pub mod Writes
pub mod Logs
pub mod Calls
use chord_server.Prelude.{
  ℕ, Bool, true, false, ◌||◌, ◌≡◌, refl, sym, ◌∙◌, List, [], ◌∷◌, ◌++◌, ◌==◌, if◌then◌else◌, All,
  arith, ==_iff, Bool-cases, inl, inr,
}
use chord_server.Log.World.{LogAppender, Logger, World, set_appender, set_logger, cout}
use chord_server.Locks.{
  Mutex, manager, logger, appender, same_mutex, Hold, Act, lock, unlock, scope, each,
}
use chord_server.Locks.Ordered.{same_mutex_refl}

-- Whether a mutex is taken on the way.
unfoldable pub takes : Mutex → List Act → Bool
takes m [] = false
takes m (lock h ∷ acts) = same_mutex h.mutex m || takes m acts
takes m (unlock h ∷ acts) = takes m acts

-- Equal but for the levels, which are set and read without a lock.
abbrev pub SameLogger : Logger → Logger → Type 0
SameLogger a b =
    (a.name ≡ b.name)
    × (a.formatter ≡ b.formatter)
    × (a.appenders ≡ b.appenders)
    × (a.root ≡ b.root)

abbrev pub SameAppender : LogAppender → LogAppender → Type 0
SameAppender a b =
    (a.target ≡ b.target) × (a.formatter ≡ b.formatter) × (a.has_formatter ≡ b.has_formatter)

-- Loggers and appenders whose mutex is not taken stay.
pub record Protects (acts : List Act) (w w' : World) : Type 0 where
  pub loggers : (l : ℕ) → takes (logger l) acts ≡ false → SameLogger (w'.logger l) (w.logger l)
  pub appenders :
      (i : ℕ) → takes (appender i) acts ≡ false → SameAppender (w'.appender i) (w.appender i)

pub Protects-refl : (acts : List Act) (w : World) → Protects acts w w
Protects-refl acts w = record {
  loggers = λ l h. (refl, refl, refl, refl);
  appenders = λ i h. (refl, refl, refl);
}

pub Protects-trans :
    {acts : List Act} {u v w : World} → Protects acts u v → Protects acts v w → Protects acts u w
Protects-trans p q = record {
  loggers = λ l h. ground (arith, p.loggers l h, q.loggers l h);
  appenders = λ i h. ground (arith, p.appenders i h, q.appenders i h);
}

pub set_appender-Protects :
    (acts : List Act) (w : World) (i : ℕ) (a : LogAppender)
    → takes (appender i) acts ≡ true
    → Protects acts w (set_appender w i a)
set_appender-Protects acts w i a t = record {
  loggers = λ l h. (refl, refl, refl, refl);
  appenders = λ j h. elim (Bool-cases (i == j)) [
    | inl e ↦ let same : i ≡ j = (==_iff i j).0 e in absurd (ground (arith, rw same at t, h))
    | inr e ↦ rw e (refl, refl, refl)
  ];
}

pub set_logger-Protects :
    (acts : List Act) (w : World) (l : ℕ) (lg : Logger)
    → takes (logger l) acts ≡ true
    → Protects acts w (set_logger w l lg)
set_logger-Protects acts w l lg t = record {
  loggers = λ k h. elim (Bool-cases (l == k)) [
    | inl e ↦ let same : l ≡ k = (==_iff l k).0 e in absurd (ground (arith, rw same at t, h))
    | inr e ↦ rw e (refl, refl, refl, refl)
  ];
  appenders = λ i h. (refl, refl, refl);
}

pub takes-append : (m : Mutex) (xs ys : List Act) → takes m (xs ++ ys) ≡ (takes m xs || takes m ys)
unfolding takes
takes-append m [] ys = refl
takes-append m (lock h ∷ xs) ys = ground (arith, takes-append m xs ys)
takes-append m (unlock h ∷ xs) ys = takes-append m xs ys

-- The mutex of a block's guard, and those within.
pub takes-scope : (h : Hold) (inner : List Act) → takes h.mutex (scope h inner) ≡ true
unfolding takes
takes-scope h inner = ground (arith, same_mutex_refl h.mutex)

pub takes-within :
    (m : Mutex) (h : Hold) (inner : List Act)
    → takes m inner ≡ true
    → takes m (scope h inner) ≡ true
unfolding takes
takes-within m h inner t = ground (arith, takes-append m inner (unlock h ∷ []))

pub takes-left : (m : Mutex) (xs ys : List Act) → takes m xs ≡ true → takes m (xs ++ ys) ≡ true
takes-left m xs ys t = ground (arith, takes-append m xs ys)

pub takes-right : (m : Mutex) (xs ys : List Act) → takes m ys ≡ true → takes m (xs ++ ys) ≡ true
takes-right m xs ys t = ground (arith, takes-append m xs ys)
