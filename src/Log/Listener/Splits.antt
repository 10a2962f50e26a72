-- ===== src/Log/Listener/Splits.antt =====
-- When configuring one logger follows a null pointer.
use chord_server.Prelude.{
  ℕ, ◌<◌, Bool, true, false, not, ◌&&◌, ◌||◌, ◌≡◌, refl, List, [], ◌∷◌, Option, none, some, ◌==◌,
  if◌then◌else◌, is_empty, all, Bytes, Bool-cases, inl, inr, arith,
}
use chord_server.Log.Level.{Level}
use chord_server.Log.Formatter.{LogFormatter}
use chord_server.Log.World.{
  World, System, Target, std_out, Run, ok, null_pointer, ◌>>=◌, set_appender, cout,
}
use chord_server.Log.Appender
use chord_server.Log.Logger.{set_pattern, add_appender}
use chord_server.Log.Logger.Safety.{IsReady}
use chord_server.Log.Logger.Calls.{
  set_appender-IsReady, cout-IsReady, set_pattern-IsReady, add_appender-IsReady,
  clear_appenders-IsReady, set_level-IsReady,
}
use chord_server.Log.Manager.{make_appender, make_file}
use chord_server.Log.Manager.Safety.{
  mono-IsReady, make_appender-IsReady, set_appender_level-IsReady,
}
use chord_server.Log.Definition.{LogAppenderDefine, LogDefine, LogDefines, find_define, same_define}
use chord_server.Log.Listener.{
  Site, new_defined, dress_with, dress, apply_appender, apply_appenders, configure,
}

-- The define can be applied: it is not an old one that is the same, and all types are known.
abbrev pub is_known : LogAppenderDefine → Bool
is_known a = a.type == 1 || a.type == 2

abbrev pub is_change : LogDefine → Option LogDefine → Bool
is_change d none = true
is_change d (some e) = not (same_define d e)

abbrev pub is_applicable : LogDefines → LogDefine → Bool
is_applicable old d = is_change d (find_define d.name old) && all is_known d.appenders

-- The run ends well if the test holds, and follows a null pointer if not.
abbrev pub Splits : {A : Type 0} → (A → Type 0) → Run A → Bool → Type 0
Splits {A} P r true = (a : A) × (r ≡ ok a) × P a
Splits P r false = r ≡ null_pointer

pub Splits-bind :
    {A B : Type 0} (P : A → Type 0) (Q : B → Type 0) (r : Run A) (f : A → Run B) (b c : Bool)
    → Splits P r b
    → ((a : A) → P a → Splits Q (f a) c)
    → Splits Q (r >>= f) (b && c)
Splits-bind P Q r f true c (a, e, p) k = rw e (k a p)
Splits-bind P Q r f false c h k = rw h refl

pub Splits-map :
    {A B : Type 0} (P : A → Type 0) (Q : B → Type 0) (r : Run A) (f : A → B) (b : Bool)
    → Splits P r b
    → ((a : A) → P a → Q (f a))
    → Splits Q (r >>= λ a. ok (f a)) b
Splits-map P Q r f true (a, e, p) k = rw e (f a, refl, k a p)
Splits-map P Q r f false h k = rw h refl

-- A ready world in which the next place is taken.
abbrev HasNext : World → World → Type 0
HasNext w v = IsReady v × (w.next_appender < v.next_appender)

make_appender-HasNext : (w : World) (t : Target) → IsReady w → HasNext w (make_appender w t)
make_appender-HasNext w t r = (make_appender-IsReady w t r, unfold make_appender in omega arith)

make_file-HasNext :
    (sys : System) (w : World) (path : Bytes) (last_time : ℕ)
    → IsReady w
    → HasNext w (make_file sys w path last_time)
make_file-HasNext sys w path last_time r =
    make_appender-HasNext _ _ (mono-IsReady w (record w { disk = _ }) (λ i x. x) refl r.made r)

set_appender-HasNext :
    (w v : World) (i : ℕ) (level : Level)
    → HasNext w v
    → HasNext w (set_appender v i (Appender.set_level (v.appender i) level))
set_appender-HasNext w v i level (r, n) = (set_appender_level-IsReady v i level r, n)

dress_with-HasNext :
    (w v : World) (i : ℕ) (d : LogDefine) (a : LogAppenderDefine) (f : Option LogFormatter)
    → HasNext w v
    → HasNext w (dress_with v i d a f)
unfolding dress_with
dress_with-HasNext w v i d a none h = h
dress_with-HasNext w v i d a (some f) (r, n) = elim (Bool-cases f.is_error) [
  | inl e ↦ rw e (cout-IsReady v _ r, n)
  | inr e ↦ rw e (unfold Appender.set_formatter in set_appender-IsReady v i _ tt r, n)
]

dress-HasNext :
    (w v : World) (i : ℕ) (d : LogDefine) (a : LogAppenderDefine)
    → HasNext w v
    → HasNext w (dress v i d a)
unfolding dress
dress-HasNext w v i d a (r, n) = elim (Bool-cases (is_empty a.formatter)) [
  | inl e ↦ rw e (r, n)
  | inr e ↦ rw e (dress_with-HasNext w (cout v _) i d a _ (cout-IsReady v _ r, n))
]

apply_next-IsReady :
    (w v : World) (l : ℕ) (d : LogDefine) (a : LogAppenderDefine)
    → HasNext w v
    → IsReady (
        add_appender
          (dress
            (set_appender v w.next_appender
              (Appender.set_level (v.appender w.next_appender) a.level))
            w.next_appender
            d
            a)
          l
          w.next_appender)
apply_next-IsReady w v l d a h =
    let (r, n) =
      dress-HasNext w _ w.next_appender d a (set_appender-HasNext w v w.next_appender a.level h) in
    add_appender-IsReady _ l w.next_appender n r

apply_appender_ok :
    (s : Site) (d : LogDefine) (w v : World) (l : ℕ) (a : LogAppenderDefine)
    → new_defined s w a ≡ some v
    → HasNext w v
    → Splits IsReady (apply_appender s d w l a) true
unfolding apply_appender
apply_appender_ok s d w v l a e h = rw (e, apply_appender) (_, refl, apply_next-IsReady w v l d a h)

apply_appender_null :
    (s : Site) (d : LogDefine) (w : World) (l : ℕ) (a : LogAppenderDefine)
    → new_defined s w a ≡ none
    → Splits IsReady (apply_appender s d w l a) false
unfolding apply_appender
apply_appender_null s d w l a e = rw (e, apply_appender) refl

apply_appender-Splits :
    (s : Site) (d : LogDefine) (w : World) (l : ℕ) (a : LogAppenderDefine)
    → IsReady w
    → Splits IsReady (apply_appender s d w l a) (is_known a)
unfolding new_defined
apply_appender-Splits s d w l a r = elim (Bool-cases (a.type == 1)) [
  | inl e ↦
      let v = make_file s.sys w a.file (s.last_time w.next_appender) in
      rw e (apply_appender_ok s d w v l a (rw e) (make_file-HasNext s.sys w a.file _ r))
  | inr e ↦ elim (Bool-cases (a.type == 2)) [
    | inl f ↦
        rw (e, f)
          (apply_appender_ok s d w (make_appender w std_out) l a (rw (e, f))
            (make_appender-HasNext w std_out r))
    | inr f ↦ rw (e, f) (apply_appender_null s d w l a (rw (e, f)))
  ]
]

apply_appenders-Splits :
    (s : Site) (d : LogDefine) (w : World) (l : ℕ) (as' : List LogAppenderDefine)
    → IsReady w
    → Splits IsReady (apply_appenders s d w l as') (all is_known as')
unfolding apply_appenders
apply_appenders-Splits s d w l [] r = (w, refl, r)
apply_appenders-Splits s d w l (a ∷ as') r =
    Splits-bind IsReady IsReady (apply_appender s d w l a) _ (is_known a) (all is_known as')
      (apply_appender-Splits s d w l a r) (λ v q. apply_appenders-Splits s d v l as' q)

formatted-IsReady :
    (w : World) (l : ℕ) (pattern : Bytes)
    → IsReady w
    → IsReady (if not (is_empty pattern) then set_pattern w l pattern else w)
formatted-IsReady w l [] r = r
formatted-IsReady w l (c ∷ p) r = set_pattern-IsReady w l (c ∷ p) r

pub configure-Splits :
    (s : Site) (d : LogDefine) (w : World) (l : ℕ)
    → IsReady w
    → Splits IsReady (configure s d w l) (all is_known d.appenders)
unfolding configure
configure-Splits s d w l r = apply_appenders-Splits s d _ l d.appenders (
    clear_appenders-IsReady _ l
      (formatted-IsReady _ l d.formatter (set_level-IsReady w l d.level r)))
