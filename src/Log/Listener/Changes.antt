-- ===== src/Log/Listener/Changes.antt =====
-- What configuring one logger changes: that logger, and appenders that are new.
use chord_server.Prelude.{
  ℕ, ◌≤◌, ◌<◌, Bool, true, false, not, ◌≡◌, refl, sym, subst, ap, ◌∙◌, List, [], ◌∷◌, Option, none,
  some, ◌==◌, if◌then◌else◌, is_empty, Bytes, Bool-cases, inl, inr, arith, ==_iff,
}
use chord_server.Log.Formatter.{LogFormatter, new_formatter, constructor_output}
use chord_server.Log.World.{
  World, LogAppender, Logger, Target, std_out, file, set_appender, set_logger, cout,
}
use chord_server.Log.Logger.{
  inherit, inherit_all, set_formatter, set_formatter_made, set_level, set_pattern,
}
use chord_server.Log.Logger.Outputs.{set_formatter_lem}
use chord_server.Log.Definition.{LogAppenderDefine, LogDefine}

-- The appender at `i` has this formatter of its own.
abbrev pub Wears : World → ℕ → LogFormatter → Type 0
Wears w i f = ((w.appender i).has_formatter ≡ true) × ((w.appender i).formatter ≡ some f)

-- An appender of the kind that a define asks for, with its file.
abbrev pub IsTarget : Target → LogAppenderDefine → Type 0
IsTarget std_out a = a.type ≡ 2
IsTarget (file f) a = (a.type ≡ 1) × (f.filename ≡ a.file)

-- The appender at `i` keeps its kind and file, its level, and a formatter of its own.
abbrev pub Same : World → World → ℕ → Type 0
Same w v i =
    ((v.appender i).level ≡ (w.appender i).level)
    × ((a : LogAppenderDefine)
        → IsTarget (w.appender i).target a
        → IsTarget (v.appender i).target a)
    × ((f : LogFormatter) → Wears w i f → Wears v i f)

pub record Changes (l : ℕ) (w v : World) : Type 0 where
  pub others : (k : ℕ) → (l == k) ≡ false → v.logger k ≡ w.logger k
  pub loggers : v.next_logger ≡ w.next_logger
  pub grows : w.next_appender ≤ v.next_appender
  pub same : (i : ℕ) → i < w.next_appender → Same w v i

pub Changes-trans : {l : ℕ} {w v u : World} → Changes l w v → Changes l v u → Changes l w u
Changes-trans {l} {w} {v} {u} h k = record {
  others = λ j e. k.others j e ∙ h.others j e;
  loggers = k.loggers ∙ h.loggers;
  grows = omega (arith, h.grows, k.grows);
  same = λ i n.
      let (a, b, p) = h.same i n in
      let (c, d, q) = k.same i (omega (arith, h.grows)) in
      (c ∙ a, λ e x. d e (b e x), λ f x. q f (p f x));
}

pub Changes-refl : (l : ℕ) (w : World) → Changes l w w
Changes-refl l w = record {
  others = λ k e. refl;
  loggers = refl;
  grows = omega arith;
  same = λ i n. (refl, λ e x. x, λ f x. x);
}

pub set_logger-Changes : (l : ℕ) (w : World) (g : Logger) → Changes l w (set_logger w l g)
set_logger-Changes l w g = record {
  others = λ k e. rw e refl;
  loggers = refl;
  grows = omega arith;
  same = λ i n. (refl, λ e x. x, λ f x. x);
}

pub cout-Changes : (l : ℕ) (w : World) (t : Bytes) → Changes l w (cout w t)
cout-Changes l w t = record {
  others = λ k e. refl;
  loggers = refl;
  grows = omega arith;
  same = λ i n. (refl, λ e x. x, λ f x. x);
}

-- A write to an appender that keeps its level and target, and has no formatter of its own.
pub set_appender-Changes :
    (l : ℕ) (w : World) (i : ℕ) (a : LogAppender)
    → a.level ≡ (w.appender i).level
    → a.target ≡ (w.appender i).target
    → ((f : LogFormatter) → Wears w i f → ⊥)
    → Changes l w (set_appender w i a)
set_appender-Changes l w i a h k plain = record {
  others = λ j e. refl;
  loggers = refl;
  grows = omega arith;
  same = λ j n. elim (Bool-cases (i == j)) [
    | inl e ↦ rw e (
      h ∙ ap (λ t. (w.appender t).level) ((==_iff i j).0 e),
      λ c x.
          subst (λ t. IsTarget t c) (sym (k ∙ ap (λ t. (w.appender t).target) ((==_iff i j).0 e)))
            x,
      λ f x. absurd (plain f (subst (λ t. Wears w t f) (sym ((==_iff i j).0 e)) x)),
    )
    | inr e ↦ rw e (refl, λ e x. x, λ f x. x)
  ];
}

inherit_all-Changes :
    (is : List ℕ) (l : ℕ) (val : Option LogFormatter) (w : World)
    → Changes l w (inherit_all val w is)
unfolding inherit_all
inherit_all-Changes [] l val w = Changes-refl l w
inherit_all-Changes (i ∷ is) l val w =
    Changes-trans (inherit-Changes (w.appender i).has_formatter refl)
      (inherit_all-Changes is l val (inherit val w i))
  where
    inherit-Changes :
        (b : Bool)
        → (w.appender i).has_formatter ≡ b
        → Changes l w
            (if not b then set_appender w i (record (w.appender i) { formatter = val }) else w)
    inherit-Changes true e = Changes-refl l w
    inherit-Changes false e =
        set_appender-Changes l w i (record (w.appender i) { formatter = val }) refl refl
          (λ f x. ground (arith, e, x.0))

pub set_formatter-Changes :
    (l : ℕ) (w : World) (val : Option LogFormatter) → Changes l w (set_formatter w l val)
unfolding set_formatter
set_formatter-Changes l w val =
    Changes-trans (set_logger-Changes l w (record (w.logger l) { formatter = val }))
      (inherit_all-Changes (w.logger l).appenders l val _)

pub if-both : (P : World → Type 0) (b : Bool) {v u : World} → P v → P u → P (if b then v else u)
if-both P true h k = h
if-both P false h k = k

set_formatter_made-Changes :
    (l : ℕ) (w : World) (pattern : Bytes) (made : Option LogFormatter)
    → Changes l w (set_formatter_made w l pattern made)
unfolding set_formatter_made
set_formatter_made-Changes l w pattern none = Changes-refl l w
set_formatter_made-Changes l w pattern (some f) =
    if-both (Changes l w) f.is_error (cout-Changes l w _) (set_formatter-Changes l w (some f))

set_formatter-level :
    (l : ℕ) (w : World) (val : Option LogFormatter)
    → ((set_formatter w l val).logger l).level ≡ (w.logger l).level
set_formatter-level l w val =
    let self : (l == l) ≡ true = (==_iff l l).1 refl in
    let (a, g) = set_formatter_lem w l l 0 val in
    let whole : (set_formatter w l val).logger l ≡ record (w.logger l) { formatter = val } =
      g ∙ rw self in
    ap (λ (t : Logger). t.level) whole

set_formatter_made-level :
    (l : ℕ) (w : World) (pattern : Bytes) (made : Option LogFormatter)
    → ((set_formatter_made w l pattern made).logger l).level ≡ (w.logger l).level
unfolding set_formatter_made
set_formatter_made-level l w pattern none = refl
set_formatter_made-level l w pattern (some f) =
    if-both (λ v. (v.logger l).level ≡ (w.logger l).level) f.is_error refl
      (set_formatter-level l w (some f))

pub set_pattern-Changes :
    (l : ℕ) (w : World) (pattern : Bytes) → Changes l w (set_pattern w l pattern)
unfolding set_pattern
set_pattern-Changes l w pattern = Changes-trans (cout-Changes l w (constructor_output pattern)) (
    set_formatter_made-Changes l (cout w (constructor_output pattern)) pattern
      (new_formatter pattern))

set_pattern-level :
    (l : ℕ) (w : World) (pattern : Bytes)
    → ((set_pattern w l pattern).logger l).level ≡ (w.logger l).level
unfolding set_pattern
set_pattern-level l w pattern =
    set_formatter_made-level l (cout w (constructor_output pattern)) pattern (new_formatter pattern)

-- The formatter that a pattern asks for, if there is a pattern and it has no error.
abbrev pub AsksFor : Bytes → LogFormatter → Type 0
AsksFor pattern f =
    (is_empty pattern ≡ false) × (new_formatter pattern ≡ some f) × (f.is_error ≡ false)

set_pattern-formatter :
    (l : ℕ) (w : World) (pattern : Bytes) (f : LogFormatter)
    → new_formatter pattern ≡ some f
    → f.is_error ≡ false
    → ((set_pattern w l pattern).logger l).formatter ≡ some f
unfolding set_pattern set_formatter_made
set_pattern-formatter l w pattern f e h =
    let v = cout w (constructor_output pattern) in
    let self : (l == l) ≡ true = (==_iff l l).1 refl in
    let (a, g) = set_formatter_lem v l l 0 (some f) in
    let whole : (set_formatter v l (some f)).logger l ≡ record (v.logger l) { formatter = some f } =
      g ∙ rw self in
    rw e (simp h (ap (λ (t : Logger). t.formatter) whole))

-- The logger's new level and formatter, and its appenders taken away.
abbrev pub formatted : LogDefine → World → ℕ → World
formatted d w l =
    if not (is_empty d.formatter)
    then set_pattern (set_level w l d.level) l d.formatter
    else set_level w l d.level

pub formatted-Changes :
    (d : LogDefine) (w : World) (l : ℕ)
    → Changes l w (formatted d w l)
      × (((formatted d w l).logger l).level ≡ d.level)
      × ((f : LogFormatter)
          → AsksFor d.formatter f
          → ((formatted d w l).logger l).formatter ≡ some f)
formatted-Changes d w l =
    let self : (l == l) ≡ true = (==_iff l l).1 refl in
    let first = set_logger-Changes l w (record (w.logger l) { level = d.level }) in
    let own : ((set_level w l d.level).logger l).level ≡ d.level = rw self in
    elim (Bool-cases (is_empty d.formatter)) [
      | inl e ↦ rw e (first, own, λ f x. ground (arith, e, x.0))
      | inr e ↦ rw e (
        Changes-trans first (set_pattern-Changes l (set_level w l d.level) d.formatter),
        set_pattern-level l (set_level w l d.level) d.formatter ∙ own,
        λ f x. set_pattern-formatter l (set_level w l d.level) d.formatter f x.1 x.2,
      )
    ]
