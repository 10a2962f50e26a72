-- ===== src/Log/Listener/Crashes.antt =====
-- When the listener follows a null pointer.
use chord_server.Prelude.{
  ℕ, true, refl, [], ◌∷◌, all, leb, Bytes, Bool-cases, Option-cases, inl, inr,
}
use chord_server.Log.Level.{Level}
use chord_server.Log.Event.{LogEvent}
use chord_server.Log.World.{World, System}
use chord_server.Log.Logger.{log_level}
use chord_server.Log.Logger.Safety.{IsReady, log-Serves}
use chord_server.Log.Logger.Calls.{clear_appenders-IsReady, set_level-IsReady}
use chord_server.Log.Manager.{LoggerManager, get_logger}
use chord_server.Log.Manager.Safety.{IsSound, get_found-IsSound}
use chord_server.Log.Definition.{LogDefine, LogDefines, find_define, same_define}
use chord_server.Log.Listener.{
  Site, announce, configure, configure_named, apply_define, apply_defines, retire, retire_all,
  on_logs_changed,
}
use chord_server.Log.Listener.Splits.{
  is_known, is_applicable, Splits, Splits-bind, Splits-map, configure-Splits,
}

get_logger-IsSound : (m : LoggerManager) (name : Bytes) → IsSound m → IsSound (get_logger m name).0
unfolding get_logger
get_logger-IsSound m name s = get_found-IsSound m name _ s

configure_named-Splits :
    (s : Site) (d : LogDefine) (m : LoggerManager)
    → IsSound m
    → Splits IsSound (configure_named s d m) (all is_known d.appenders)
unfolding configure_named
configure_named-Splits s d m h =
    let g = get_logger-IsSound m d.name h in
    Splits-map IsReady IsSound (configure s d (get_logger m d.name).0.world (get_logger m d.name).1)
      (λ w. record (get_logger m d.name).0 { world = w }) (all is_known d.appenders)
      (configure-Splits s d _ _ g.ready) (λ w r. record { ready = r; at_root = g.at_root })

apply_define-Splits :
    (s : Site) (old : LogDefines) (d : LogDefine) (m : LoggerManager)
    → IsSound m
    → Splits IsSound (apply_define s old d m) (is_applicable old d)
unfolding apply_define
apply_define-Splits s old d m h = elim (Option-cases (find_define d.name old)) [
  | inl e ↦ rw (e, apply_define) (configure_named-Splits s d m h)
  | inr (o, e) ↦ elim (Bool-cases (same_define d o)) [
    | inl f ↦ rw (e, apply_define) (rw f refl)
    | inr f ↦ rw (e, apply_define) (rw f (configure_named-Splits s d m h))
  ]
]

apply_defines-Splits :
    (s : Site) (old ds : LogDefines) (m : LoggerManager)
    → IsSound m
    → Splits IsSound (apply_defines s old ds m) (all (is_applicable old) ds)
unfolding apply_defines
apply_defines-Splits s old [] m h = (m, refl, h)
apply_defines-Splits s old (d ∷ ds) m h =
    Splits-bind IsSound IsSound (apply_define s old d m) _ (is_applicable old d)
      (all (is_applicable old) ds) (apply_define-Splits s old d m h)
      (λ n q. apply_defines-Splits s old ds n q)

retire-IsSound :
    (new : LogDefines) (d : LogDefine) (m : LoggerManager) → IsSound m → IsSound (retire new d m)
unfolding retire
retire-IsSound new d m h = elim (Option-cases (find_define d.name new)) [
  | inl e ↦
      let g = get_logger-IsSound m d.name h in
      rw (e, retire)
        (record {
          ready = clear_appenders-IsReady _ _ (set_level-IsReady _ _ _ g.ready);
          at_root = g.at_root;
        })
  | inr (o, e) ↦ rw (e, retire) h
]

retire_all-IsSound :
    (new ds : LogDefines) (m : LoggerManager) → IsSound m → IsSound (retire_all new ds m)
unfolding retire_all
retire_all-IsSound new [] m h = h
retire_all-IsSound new (d ∷ ds) m h =
    retire_all-IsSound new ds (retire new d m) (retire-IsSound new d m h)

pub log_level-Splits :
    (sys : System) (w : World) (l : ℕ) (level : Level) (event : LogEvent)
    → IsReady w
    → Splits IsReady (log_level sys w l level event) true
unfolding log_level
log_level-Splits sys w l level event r = elim (Bool-cases (leb (w.logger l).level level)) [
  | inl e ↦ rw e (log-Serves sys w event.logger event.level event r)
  | inr e ↦ rw e (w, refl, r)
]

-- The listener, on a sound manager: it ends well if every new define is either no old one or
-- differs from the old one of its name, and all types of appenders are known; otherwise it follows
-- a null pointer.
pub on_logs_changed-Splits :
    (s : Site) (old new : LogDefines) (m : LoggerManager)
    → IsSound m
    → Splits IsSound (on_logs_changed s old new m) (all (is_applicable old) new)
unfolding on_logs_changed announce
on_logs_changed-Splits s old new m h =
    Splits-bind IsReady IsSound (announce s m) _ true (all (is_applicable old) new)
      (log_level-Splits s.sys m.world m.root _ _ h.ready)
      (λ w r.
        Splits-map IsSound IsSound (apply_defines s old new (record m { world = w }))
          (retire_all new old) (all (is_applicable old) new)
          (apply_defines-Splits s old new _ (record { ready = r; at_root = h.at_root }))
          (λ n q. retire_all-IsSound new old n q))
