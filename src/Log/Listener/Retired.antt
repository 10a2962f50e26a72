-- ===== src/Log/Listener/Retired.antt =====
-- The second loop of the listener: the loggers of defines that are gone.
use chord_server.Prelude.{
  Bool, true, false, ◌≡◌, refl, ap, [], ◌∷◌, Option, none, some, ◌==◌, Bytes, equal, equal_iff, All,
  Option-cases, inl, inr, arith, ==_iff,
}
use chord_server.Log.Logger.{set_level, clear_appenders}
use chord_server.Log.Manager.{LoggerManager, get_logger}
use chord_server.Log.Definition.{LogDefine, LogDefines, find_define}
use chord_server.Log.Definition.Order.{IsOrdered}
use chord_server.Log.Listener.{retire, retire_all, too_high}
use chord_server.Log.Listener.Changes.{Changes-trans, set_logger-Changes}
use chord_server.Log.Listener.Keyed.{
  IsKeyed, Touches, Touches-trans, get_logger-Names, Changes-Touches,
}
use chord_server.Log.Listener.Applied.{
  IsConfigured, IsRetired, IsConfigured-Touches, IsRetired-Touches, Apart, Above-Apart,
}

-- The second loop: what it does to the loggers of defines that are gone, and to all others.
abbrev pub RetiredUnless : Option LogDefine → LoggerManager → LogDefine → Type 0
RetiredUnless none m d = IsRetired m d
RetiredUnless (some e) m d = Unit

abbrev pub IsSettled : LogDefines → LoggerManager → LogDefine → Type 0
IsSettled new m d = RetiredUnless (find_define d.name new) m d

abbrev retired : LogDefine → LoggerManager → LoggerManager
retired d m =
    let (o, l) = get_logger m d.name in
    record o { world = clear_appenders (set_level o.world l too_high) l }

retired-IsRetired :
    (d : LogDefine) (m : LoggerManager)
    → IsKeyed m
    → IsKeyed (retired d m) × Touches d.name m (retired d m) × IsRetired (retired d m) d
unfolding clear_appenders
retired-IsRetired d m k =
    let (o, l) = get_logger m d.name in
    let (k', e, t) = get_logger-Names m d.name k in
    let self : (l == l) ≡ true = (==_iff l l).1 refl in
    let level = set_logger-Changes l o.world (record (o.world.logger l) { level = too_high }) in
    let cleared =
      set_logger-Changes l (set_level o.world l too_high)
        (record ((set_level o.world l too_high).logger l) { appenders = [] }) in
    let (k'', t') = Changes-Touches d.name o l _ k' e (Changes-trans level cleared) in
    (k'', Touches-trans t t', (l, e, rw self refl, rw self refl))

abbrev pub is_bound : Option LogDefine → Bool
is_bound none = false
is_bound (some e) = true

RetiredUnless-Touches :
    (found : Option LogDefine) (name : Bytes) (m o : LoggerManager) (d : LogDefine)
    → equal name d.name ≡ false
    → Touches name m o
    → RetiredUnless found m d
    → RetiredUnless found o d
RetiredUnless-Touches none name m o d f t r = IsRetired-Touches name m o d f t r
RetiredUnless-Touches (some e) name m o d f t r = tt

-- The manager behind the second loop.
abbrev pub AllSettled : LogDefines → LogDefines → LoggerManager → LoggerManager → Type 0
AllSettled new ds m o =
    IsKeyed o
    × All (IsSettled new o) ds
    × ((e : LogDefine) → Apart e.name ds → IsSettled new m e → IsSettled new o e)
    × ((e : LogDefine)
        → is_bound (find_define e.name new) ≡ true
        → IsConfigured m e
        → IsConfigured o e)

retire-AllSettled :
    (new : LogDefines) (d : LogDefine) (m : LoggerManager)
    → IsKeyed m
    → AllSettled new (d ∷ []) m (retire new d m)
unfolding retire
retire-AllSettled new d m k = elim (Option-cases (find_define d.name new)) [
  | inr (o, e) ↦ rw (e, retire) (k, (tt, tt), λ j a s. s, λ j b c. c)
  | inl e ↦
      let (k', t, r) = retired-IsRetired d m k in
      rw (e, retire)
        (
          k',
          (r, tt),
          λ j a s. RetiredUnless-Touches (find_define j.name new) d.name m _ j a.0 t s,
          λ j b c. IsConfigured-Touches d.name m _ j (not_bound j b e) t c,
        )
]
  where
    not_bound :
        (j : LogDefine)
        → is_bound (find_define j.name new) ≡ true
        → find_define d.name new ≡ none
        → equal d.name j.name ≡ false
    not_bound j b e = ground (arith, equal_iff d.name j.name, ap is_bound e)

pub retire_all-AllSettled :
    (new ds : LogDefines) (m : LoggerManager)
    → IsKeyed m
    → IsOrdered ds
    → AllSettled new ds m (retire_all new ds m)
unfolding retire_all
retire_all-AllSettled new [] m k h = (k, tt, λ j a s. s, λ j b c. c)
retire_all-AllSettled new (d ∷ ds) m k h =
    let (k', (now, _), other, kept) = retire-AllSettled new d m k in
    let (k'', rest, other', kept') = retire_all-AllSettled new ds (retire new d m) k' h.1 in
    (
      k'',
      (other' d (Above-Apart d.name ds h.0) now, rest),
      λ j a s. other' j a.1 (other j (a.0, tt) s),
      λ j b c. kept' j b (kept j b c),
    )
