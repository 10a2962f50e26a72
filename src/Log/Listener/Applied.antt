-- ===== src/Log/Listener/Applied.antt =====
-- The first loop of the listener: every new define has its logger.
use chord_server.Prelude.{
  ℕ, false, ◌≡◌, sym, ap, subst, ◌∙◌, [], ◌∷◌, some, Bytes, less_ne, equal, All, Bool-cases,
  Option-cases, inl, inr,
}
use chord_server.Log.World.{World, Logger}
use chord_server.Log.Manager.{LoggerManager, find, get_logger}
use chord_server.Log.Definition.{LogDefine, LogDefines, find_define, same_define}
use chord_server.Log.Definition.Order.{Above, IsOrdered}
use chord_server.Log.Listener.{
  Site, configure, configure_named, apply_define, apply_defines, too_high,
}
use chord_server.Log.Formatter.{LogFormatter}
use chord_server.Log.Listener.Changes.{AsksFor}
use chord_server.Log.Listener.Realises.{Realises-kept, Realises}
use chord_server.Log.Listener.Keyed.{
  IsKeyed, Touches, Touches-trans, Names, get_logger-Names, Changes-Touches,
}
use chord_server.Log.Listener.Appenders.{
  Holds, Holds-bind, Holds-mono, Configured, configure-Configured,
}

-- The logger of a define is at its level, with the formatter that it asks for, and with the
-- appenders that it lists, each with the formatter that it asks for of its own; the logger of one
-- that is gone logs nothing.
abbrev pub IsConfigured : LoggerManager → LogDefine → Type 0
IsConfigured m d =
    (l : ℕ) × (find d.name m.loggers ≡ some l)
    × ((m.world.logger l).level ≡ d.level)
    × ((f : LogFormatter) → AsksFor d.formatter f → (m.world.logger l).formatter ≡ some f)
    × Realises m.world (m.world.logger l).appenders d.appenders

abbrev pub IsRetired : LoggerManager → LogDefine → Type 0
IsRetired m d =
    (l : ℕ) × (find d.name m.loggers ≡ some l)
    × ((m.world.logger l).level ≡ too_high)
    × ((m.world.logger l).appenders ≡ [])

pub IsConfigured-Touches :
    (name : Bytes) (m o : LoggerManager) (d : LogDefine)
    → equal name d.name ≡ false
    → Touches name m o
    → IsConfigured m d
    → IsConfigured o d
IsConfigured-Touches name m o d f t (l, e, level, format, real) =
    let same = t.apart d.name l f e in
    (
      l,
      t.bound d.name l e,
      ap (λ (g : Logger). g.level) same ∙ level,
      λ h x. ap (λ (g : Logger). g.formatter) same ∙ format h x,
      subst (λ (g : Logger). Realises o.world g.appenders d.appenders) (sym same)
          (Realises-kept m.world o.world (m.world.logger l).appenders d.appenders t.grows t.same
            real),
    )

pub IsRetired-Touches :
    (name : Bytes) (m o : LoggerManager) (d : LogDefine)
    → equal name d.name ≡ false
    → Touches name m o
    → IsRetired m d
    → IsRetired o d
IsRetired-Touches name m o d f t (l, e, level, none_left) =
    let same = t.apart d.name l f e in
    (
      l,
      t.bound d.name l e,
      ap (λ (g : Logger). g.level) same ∙ level,
      ap (λ (g : Logger). g.appenders) same ∙ none_left,
    )

-- The manager behind configuring one define.
abbrev Applied : LogDefine → LoggerManager → LoggerManager → Type 0
Applied d m o = IsKeyed o × Touches d.name m o × IsConfigured o d

Configured-Applied :
    (d : LogDefine) (m o : LoggerManager) (l : ℕ) (w : World)
    → Names m d.name (o, l)
    → Configured l d o.world w
    → Applied d m (record o { world = w })
Configured-Applied d m o l w (k, e, t) (c, level, format, real) =
    let (k', t') = Changes-Touches d.name o l w k e c in
    (k', Touches-trans t t', (l, e, level, format, real))

configure_named-Applied :
    (s : Site) (d : LogDefine) (m : LoggerManager)
    → IsKeyed m
    → Holds (Applied d m) (configure_named s d m)
unfolding configure_named
configure_named-Applied s d m k =
    let g = get_logger m d.name in
    Holds-bind (Configured g.1 d g.0.world) (Applied d m) (configure s d g.0.world g.1) _
      (configure-Configured s d g.0.world g.1)
      (λ w c. Configured-Applied d m g.0 g.1 w (get_logger-Names m d.name k) c)

apply_define-Applied :
    (s : Site) (old : LogDefines) (d : LogDefine) (m : LoggerManager)
    → IsKeyed m
    → Holds (Applied d m) (apply_define s old d m)
unfolding apply_define
apply_define-Applied s old d m k = elim (Option-cases (find_define d.name old)) [
  | inl e ↦ rw (e, apply_define) (configure_named-Applied s d m k)
  | inr (o, e) ↦ elim (Bool-cases (same_define d o)) [
    | inl f ↦ rw (e, apply_define) (rw f tt)
    | inr f ↦ rw (e, apply_define) (rw f (configure_named-Applied s d m k))
  ]
]

-- No define of the set has the name.
abbrev pub Apart : Bytes → LogDefines → Type 0
Apart name = All (λ e. equal e.name name ≡ false)

pub Above-Apart : (name : Bytes) (ds : LogDefines) → Above name ds → Apart name ds
Above-Apart name [] h = tt
Above-Apart name (d ∷ ds) h = (less_ne name d.name h.0, Above-Apart name ds h.1)

-- The manager behind the first loop.
abbrev pub AllApplied : LogDefines → LoggerManager → LoggerManager → Type 0
AllApplied ds m o =
    IsKeyed o
    × All (IsConfigured o) ds
    × ((e : LogDefine) → Apart e.name ds → IsConfigured m e → IsConfigured o e)

pub apply_defines-AllApplied :
    (s : Site) (old ds : LogDefines) (m : LoggerManager)
    → IsKeyed m
    → IsOrdered ds
    → Holds (AllApplied ds m) (apply_defines s old ds m)
unfolding apply_defines
apply_defines-AllApplied s old [] m k h = (k, tt, λ e a c. c)
apply_defines-AllApplied s old (d ∷ ds) m k h =
    Holds-bind (Applied d m) (AllApplied (d ∷ ds) m) (apply_define s old d m) _
      (apply_define-Applied s old d m k)
      (λ v x.
        Holds-mono (AllApplied ds v) (AllApplied (d ∷ ds) m) (apply_defines s old ds v)
          (λ o y. (
            y.0,
            (y.2 d (Above-Apart d.name ds h.0) x.2, y.1),
            λ e a c. y.2 e a.1 (IsConfigured-Touches d.name m v e a.0 x.1 c),
          ))
          (apply_defines-AllApplied s old ds v x.0 h.1))
