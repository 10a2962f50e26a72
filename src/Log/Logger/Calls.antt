-- ===== src/Log/Logger/Calls.antt =====
-- Each operation of a logger keeps the store ready.
use chord_server.Prelude.{
  ℕ, ◌<◌, Bool, true, false, ◌≡◌, refl, subst, ◌⊎◌, inl, inr, List, [], ◌∷◌, ◌++◌, Option, none,
  some, ◌==◌, if◌then◌else◌, Bytes, arith, Bool-cases, ==_iff,
}
use chord_server.Log.Level.{Level}
use chord_server.Log.Formatter.{LogFormatter}
use chord_server.Log.Formatter.Lines.{new_formatter-pieces}
use chord_server.Log.World.{LogAppender, Logger, World, update, set_appender, set_logger, cout}
use chord_server.Log.Logger.{
  new_logger, default_pattern, inherit, inherit_all, set_formatter, set_formatter_made, set_pattern,
  add_appender, give_formatter, clear_appenders, erase_first, del_appender, set_level,
}
use chord_server.Log.Logger.Safety.{IsLive, Exists, AllExist, AllExist-mono, IsReady}

update-Exists :
    (w : World) (i j : ℕ) (a : LogAppender)
    → Exists a.formatter
    → Exists (w.appender j).formatter
    → Exists (update w.appender i a j).formatter
update-Exists w i j a h k = elim (Bool-cases (i == j)) [ inl e ↦ rw e h | inr e ↦ rw e k ]

pub set_appender-IsReady :
    (w : World) (i : ℕ) (a : LogAppender)
    → Exists a.formatter
    → IsReady w
    → IsReady (set_appender w i a)
set_appender-IsReady w i a h r = record {
  appenders_set = λ l.
      AllExist-mono w (set_appender w i a) (w.logger l).appenders
        (λ j x. (x.0, update-Exists w i j a h x.1)) (r.appenders_set l);
  formatter_set = r.formatter_set;
  rooted = r.rooted;
  root_root = r.root_root;
  made = r.made;
}

pub set_logger-IsReady :
    (w : World) (l : ℕ) (lg : Logger)
    → AllExist w lg.appenders
    → Exists lg.formatter
    → (lg.root ≡ none) ⊎ ((lg.root ≡ some 0) × ((l == 0) ≡ false))
    → IsReady w
    → IsReady (set_logger w l lg)
set_logger-IsReady w l lg h f e r = record {
  appenders_set =
      λ k. elim (Bool-cases (l == k)) [ inl t ↦ rw t h | inr t ↦ rw t (r.appenders_set k) ];
  formatter_set =
      λ k. elim (Bool-cases (l == k)) [ inl t ↦ rw t f | inr t ↦ rw t (r.formatter_set k) ];
  rooted = λ k. elim (Bool-cases (l == k)) [ inl t ↦ ground arith | inr t ↦ rw t (r.rooted k) ];
  root_root = ground (arith, r.root_root);
  made = r.made;
}

same_root :
    (w : World) (l : ℕ)
    → IsReady w
    → ((w.logger l).root ≡ none) ⊎ (((w.logger l).root ≡ some 0) × ((l == 0) ≡ false))
same_root w l r = ground (arith, r.rooted l, r.root_root, ==_iff l 0)

inherit_all-IsReady :
    (is : List ℕ) (f : LogFormatter) (w : World) → IsReady w → IsReady (inherit_all (some f) w is)
unfolding inherit_all
inherit_all-IsReady [] f w r = r
inherit_all-IsReady (i ∷ is) f w r =
    inherit_all-IsReady is f (inherit (some f) w i)
      (elim (Bool-cases (w.appender i).has_formatter) [
        | inl e ↦ rw e r
        | inr e ↦ rw e (set_appender-IsReady w i _ tt r)
      ])

pub set_formatter-IsReady :
    (w : World) (l : ℕ) (f : LogFormatter) → IsReady w → IsReady (set_formatter w l (some f))
unfolding set_formatter
set_formatter-IsReady w l f r =
    inherit_all-IsReady _ f _ (set_logger-IsReady w l _ (r.appenders_set l) tt (same_root w l r) r)

pub cout-IsReady : (w : World) (text : Bytes) → IsReady w → IsReady (cout w text)
cout-IsReady w text r = record {
  appenders_set = r.appenders_set;
  formatter_set = r.formatter_set;
  rooted = r.rooted;
  root_root = r.root_root;
  made = r.made;
}

pub if-IsReady : (b : Bool) {w v : World} → IsReady w → IsReady v → IsReady (if b then w else v)
if-IsReady true r q = r
if-IsReady false r q = q

set_formatter_made-IsReady :
    (w : World) (l : ℕ) (pattern : Bytes) (made : Option LogFormatter)
    → IsReady w
    → IsReady (set_formatter_made w l pattern made)
unfolding set_formatter_made
set_formatter_made-IsReady w l pattern none r = r
set_formatter_made-IsReady w l pattern (some f) r =
    if-IsReady f.is_error (cout-IsReady w _ r) (set_formatter-IsReady w l f r)

pub set_pattern-IsReady :
    (w : World) (l : ℕ) (pattern : Bytes) → IsReady w → IsReady (set_pattern w l pattern)
unfolding set_pattern
set_pattern-IsReady w l pattern r =
    set_formatter_made-IsReady (cout w _) l pattern _ (cout-IsReady w _ r)

pub new_logger-Exists : (name : Bytes) → Exists (new_logger name).formatter
unfolding new_logger
new_logger-Exists name = rw (new_formatter-pieces default_pattern) tt

give_formatter-IsReady :
    (w : World) (i : ℕ) (own val : Option LogFormatter)
    → own ≡ (w.appender i).formatter
    → Exists val
    → IsReady w
    → IsReady (give_formatter w i own val)
      × Exists ((give_formatter w i own val).appender i).formatter
      × ((give_formatter w i own val).logger ≡ w.logger)
      × ((give_formatter w i own val).next_appender ≡ w.next_appender)
unfolding give_formatter
give_formatter-IsReady w i (some f) val e h r = (r, rw (← e) tt, refl, refl)
give_formatter-IsReady w i none val e h r =
    (set_appender-IsReady w i _ h r, rw ((==_iff i i).1 refl) h, refl, refl)

AllExist-append :
    (w : World) (is : List ℕ) (i : ℕ) → AllExist w is → IsLive w i → AllExist w (is ++ i ∷ [])
AllExist-append w [] i h k = (k, tt)
AllExist-append w (j ∷ is) i h k = (h.0, AllExist-append w is i h.1 k)

pub add_appender-IsReady :
    (w : World) (l i : ℕ) → i < w.next_appender → IsReady w → IsReady (add_appender w l i)
unfolding add_appender
add_appender-IsReady w l i made r =
    let given = give_formatter w i (w.appender i).formatter (w.logger l).formatter in
    let (ready, exists, same, next) =
      give_formatter-IsReady w i (w.appender i).formatter (w.logger l).formatter refl
        (r.formatter_set l) r in
    set_logger-IsReady given l _
      (AllExist-append given (w.logger l).appenders i
        (subst (λ (g : ℕ → Logger). AllExist given (g l).appenders) same (ready.appenders_set l))
        (rw next made, exists))
      (r.formatter_set l) (same_root w l r) ready

pub clear_appenders-IsReady : (w : World) (l : ℕ) → IsReady w → IsReady (clear_appenders w l)
unfolding clear_appenders
clear_appenders-IsReady w l r = set_logger-IsReady w l _ tt (r.formatter_set l) (same_root w l r) r

erase_first-AllExist :
    (w : World) (i : ℕ) (is : List ℕ) → AllExist w is → AllExist w (erase_first i is)
unfolding erase_first
erase_first-AllExist w i [] h = tt
erase_first-AllExist w i (j ∷ is) h = elim (Bool-cases (j == i)) [
  | inl e ↦ rw e h.1
  | inr e ↦ rw e (h.0, erase_first-AllExist w i is h.1)
]

pub del_appender-IsReady : (w : World) (l i : ℕ) → IsReady w → IsReady (del_appender w l i)
unfolding del_appender
del_appender-IsReady w l i r =
    set_logger-IsReady w l _ (erase_first-AllExist w i _ (r.appenders_set l)) (r.formatter_set l)
      (same_root w l r) r

pub set_level-IsReady :
    (w : World) (l : ℕ) (level : Level) → IsReady w → IsReady (set_level w l level)
set_level-IsReady w l level r =
    set_logger-IsReady w l _ (r.appenders_set l) (r.formatter_set l) (same_root w l r) r
