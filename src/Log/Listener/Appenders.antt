-- ===== src/Log/Listener/Appenders.antt =====
-- The appenders that configuring a logger makes.
use chord_server.Prelude.{
  ℕ, true, false, arith, not, ◌≡◌, refl, sym, ap, subst, ◌∙◌, List, [], ◌∷◌, ◌++◌, Option, none,
  some, ◌==◌, is_empty, Bool-cases, Option-cases, inl, inr, ==_iff, append_assoc, append-nil,
}
use chord_server.Log.Formatter.{LogFormatter, new_formatter, constructor_output}
use chord_server.Log.World.{
  World, Logger, Run, ok, null_pointer, no_fuel, ◌>>=◌, set_appender, cout,
}
use chord_server.Log.Appender
use chord_server.Log.Appender.{new_log_file}
use chord_server.Log.Logger.{clear_appenders, give_formatter, add_appender}
use chord_server.Log.Definition.{LogAppenderDefine, LogDefine}
use chord_server.Log.Listener.{
  Site, new_defined, dress_with, dress, apply_appender, apply_appenders, configure,
}
use chord_server.Log.Listener.Changes.{
  Changes, Changes-refl, Changes-trans, set_logger-Changes, cout-Changes, set_appender-Changes,
  Wears, AsksFor, formatted, formatted-Changes, if-both,
}
use chord_server.Log.Listener.Realises.{
  IsRealised, IsRealised-Changes, Realises, Realises-Changes, Realises-snoc,
}
use chord_server.Log.Listener.Fresh.{Fresh, new_defined-MakesFresh, levelled-Levelled}

-- What holds of the result, if there is one.
abbrev pub Holds : {A : Type 0} → (A → Type 0) → Run A → Type 0
Holds P (ok a) = P a
Holds P _ = Unit

pub Holds-bind :
    {A B : Type 0} (P : A → Type 0) (Q : B → Type 0) (r : Run A) (f : A → Run B)
    → Holds P r
    → ((a : A) → P a → Holds Q (f a))
    → Holds Q (r >>= f)
Holds-bind P Q (ok a) f h k = k a h
Holds-bind P Q null_pointer f h k = tt
Holds-bind P Q no_fuel f h k = tt

pub Holds-mono :
    {A : Type 0} (P Q : A → Type 0) (r : Run A) → ((a : A) → P a → Q a) → Holds P r → Holds Q r
Holds-mono P Q (ok a) k h = k a h
Holds-mono P Q null_pointer k h = tt
Holds-mono P Q no_fuel k h = tt

dress_with-Changes :
    (l : ℕ) (w : World) (i : ℕ) (d : LogDefine) (a : LogAppenderDefine) (f : Option LogFormatter)
    → (w.appender i).has_formatter ≡ false
    → Changes l w (dress_with w i d a f) × ((dress_with w i d a f).logger ≡ w.logger)
unfolding dress_with
dress_with-Changes l w i d a none plain = (Changes-refl l w, refl)
dress_with-Changes l w i d a (some f) plain =
    if-both (λ v. Changes l w v × (v.logger ≡ w.logger)) (not f.is_error)
      (
        unfold Appender.set_formatter in
            set_appender-Changes l w i (Appender.set_formatter (w.appender i) (some f)) refl refl
              (λ g x. ground (arith, plain, x.0)),
        refl,
      )
      (cout-Changes l w _, refl)

give_formatter-Changes :
    (l : ℕ) (w : World) (i : ℕ) (own val : Option LogFormatter)
    → (w.appender i).formatter ≡ own
    → Changes l w (give_formatter w i own val)
unfolding give_formatter
give_formatter-Changes l w i (some f) val e = Changes-refl l w
give_formatter-Changes l w i none val e =
    set_appender-Changes l w i (record (w.appender i) { formatter = val }) refl refl
      (λ f x. ground (arith, e, x.1))

pub add_appender-Changes : (l : ℕ) (w : World) (i : ℕ) → Changes l w (add_appender w l i)
unfolding add_appender
add_appender-Changes l w i =
    Changes-trans
      (give_formatter-Changes l w i (w.appender i).formatter (w.logger l).formatter refl)
      (set_logger-Changes l _ _)

add_appender-logger :
    (w : World) (l i : ℕ)
    → (add_appender w l i).logger l
      ≡ record (w.logger l) { appenders = (w.logger l).appenders ++ i ∷ [] }
unfolding add_appender
add_appender-logger w l i = let self : (l == l) ≡ true = (==_iff l l).1 refl in rw self

dress-Changes :
    (l : ℕ) (w : World) (i : ℕ) (d : LogDefine) (a : LogAppenderDefine)
    → (w.appender i).has_formatter ≡ false
    → Changes l w (dress w i d a) × ((dress w i d a).logger ≡ w.logger)
unfolding dress
dress-Changes l w i d a plain = elim (Bool-cases (is_empty a.formatter)) [
  | inl e ↦ rw e (Changes-refl l w, refl)
  | inr e ↦
      let v = cout w (constructor_output a.formatter) in
      let (c, g) = dress_with-Changes l v i d a (new_formatter a.formatter) plain in
      rw e (Changes-trans (cout-Changes l w (constructor_output a.formatter)) c, g)
]

-- Dressing gives the formatter that the define asks for.
dress-Wears :
    (w : World) (i : ℕ) (d : LogDefine) (a : LogAppenderDefine) (f : LogFormatter)
    → AsksFor a.formatter f
    → Wears (dress w i d a) i f
unfolding dress dress_with Appender.set_formatter
dress-Wears w i d a f (given, made, fine) =
    let self : (i == i) ≡ true = (==_iff i i).1 refl in
    rw (given, made) (simp (fine, self) (refl, refl))

-- The world behind one round of the loop.
abbrev Adds : ℕ → LogAppenderDefine → World → World → Type 0
Adds l a w v =
    Changes l w v
    × IsRealised v w.next_appender a
    × (v.logger l
        ≡ record (w.logger l) { appenders = (w.logger l).appenders ++ w.next_appender ∷ [] })

added :
    (l : ℕ) (d : LogDefine) (a : LogAppenderDefine) (w v : World)
    → Fresh l a w v
    → let i = w.next_appender in
      let u = set_appender v i (Appender.set_level (v.appender i) a.level) in
      Adds l a w (add_appender (dress u i d a) l i)
added l d a w v f =
    let i = w.next_appender in
    let u = set_appender v i (Appender.set_level (v.appender i) a.level) in
    let (c, n, level, target, plain) = levelled-Levelled l a w v f in
    let (c', g) = dress-Changes l u i d a plain in
    let (x, y, _) = c'.same i n in
    let r : IsRealised (dress u i d a) i a =
      (omega (arith, n, c'.grows), x ∙ level, y a target, λ h asks. dress-Wears u i d a h asks) in
    let last = add_appender-Changes l (dress u i d a) i in
    (
      Changes-trans c (Changes-trans c' last),
      IsRealised-Changes i a last r,
      add_appender-logger (dress u i d a) l i
          ∙ ap (λ (t : ℕ → Logger). record (t l) { appenders = (t l).appenders ++ i ∷ [] })
              (g ∙ f.loggers),
    )

apply_appender-Adds :
    (s : Site) (d : LogDefine) (w : World) (l : ℕ) (a : LogAppenderDefine)
    → Holds (Adds l a w) (apply_appender s d w l a)
unfolding apply_appender
apply_appender-Adds s d w l a = elim (Option-cases (new_defined s w a)) [
  | inl e ↦ rw (e, apply_appender) tt
  | inr (v, e) ↦ rw (e, apply_appender) (added l d a w v (rw e at (new_defined-MakesFresh l s w a)))
]

-- The world behind the whole loop, where the first appenders are realised already.
abbrev pub Realised : ℕ → LogDefine → World → World → Type 0
Realised l d w v =
    Changes l w v
    × ((v.logger l).level ≡ (w.logger l).level)
    × ((v.logger l).formatter ≡ (w.logger l).formatter)
    × Realises v (v.logger l).appenders d.appenders

apply_appenders-Realised :
    (s : Site) (d : LogDefine) (done rest : List LogAppenderDefine) (w : World) (l : ℕ)
    → d.appenders ≡ done ++ rest
    → Realises w (w.logger l).appenders done
    → Holds (Realised l d w) (apply_appenders s d w l rest)
unfolding apply_appenders
apply_appenders-Realised s d done [] w l e r =
    (Changes-refl l w, refl, refl, rw (e ∙ append-nil done) r)
apply_appenders-Realised s d done (a ∷ rest) w l e r =
    Holds-bind (Adds l a w) (Realised l d w) (apply_appender s d w l a) _
      (apply_appender-Adds s d w l a)
      (λ v x.
        let (c, one, g) = x in
        let same : (v.logger l).appenders ≡ (w.logger l).appenders ++ w.next_appender ∷ [] =
          ap (λ (t : Logger). t.appenders) g in
        let level : (v.logger l).level ≡ (w.logger l).level = ap (λ (t : Logger). t.level) g in
        let format : (v.logger l).formatter ≡ (w.logger l).formatter =
          ap (λ (t : Logger). t.formatter) g in
        let now : Realises v (v.logger l).appenders (done ++ a ∷ []) =
          subst (λ is. Realises v is (done ++ a ∷ [])) (sym same)
            (Realises-snoc v (w.logger l).appenders w.next_appender done a
              (Realises-Changes (w.logger l).appenders done c r) one) in
        Holds-mono (Realised l d v) (Realised l d w) (apply_appenders s d v l rest)
          (λ u y. (Changes-trans c y.0, y.1 ∙ level, y.2 ∙ format, y.3))
          (apply_appenders-Realised s d (done ++ a ∷ []) rest v l
            (e ∙ sym (append_assoc done (a ∷ []) rest)) now))

-- The world behind configuring the logger at `l`.
abbrev pub Configured : ℕ → LogDefine → World → World → Type 0
Configured l d w v =
    Changes l w v
    × ((v.logger l).level ≡ d.level)
    × ((f : LogFormatter) → AsksFor d.formatter f → (v.logger l).formatter ≡ some f)
    × Realises v (v.logger l).appenders d.appenders

pub configure-Configured :
    (s : Site) (d : LogDefine) (w : World) (l : ℕ) → Holds (Configured l d w) (configure s d w l)
unfolding configure clear_appenders
configure-Configured s d w l =
    let (c, level, asked) = formatted-Changes d w l in
    let f = formatted d w l in
    let self : (l == l) ≡ true = (==_iff l l).1 refl in
    let cleared = set_logger-Changes l f (record (f.logger l) { appenders = [] }) in
    let none_left : ((clear_appenders f l).logger l).appenders ≡ [] = rw self in
    let format_left : ((clear_appenders f l).logger l).formatter ≡ (f.logger l).formatter =
      rw self in
    let level_left : ((clear_appenders f l).logger l).level ≡ d.level = rw self level in
    Holds-mono (Realised l d (clear_appenders f l)) (Configured l d w) _
      (λ u y. (
        Changes-trans (Changes-trans c cleared) y.0,
        y.1 ∙ level_left,
        λ h x. y.2 ∙ format_left ∙ asked h x,
        y.3,
      ))
      (apply_appenders-Realised s d [] d.appenders (clear_appenders f l) l refl
        (subst (λ is. Realises (clear_appenders f l) is []) (sym none_left) tt))
