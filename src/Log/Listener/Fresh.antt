-- ===== src/Log/Listener/Fresh.antt =====
-- An appender that the listener makes.
use chord_server.Prelude.{
  ℕ, ◌<◌, true, false, ◌≡◌, refl, Option, none, some, ◌==◌, Bool-cases, inl, inr, arith, ==_iff,
}
use chord_server.Log.World.{World, System, Target, std_out, file, set_appender}
use chord_server.Log.Appender
use chord_server.Log.Appender.{new_log_file}
use chord_server.Log.Manager.{make_appender, make_file}
use chord_server.Log.Definition.{LogAppenderDefine}
use chord_server.Log.Listener.{Site, new_defined}
use chord_server.Log.Listener.Changes.{Changes, IsTarget}

-- A world with one more appender, as the define says, and all loggers as they were.
pub record Fresh (l : ℕ) (a : LogAppenderDefine) (w v : World) : Type 0 where
  pub changes : Changes l w v
  pub loggers : v.logger ≡ w.logger
  pub taken : w.next_appender < v.next_appender
  pub target : IsTarget (v.appender w.next_appender).target a
  pub plain : (v.appender w.next_appender).has_formatter ≡ false

make_appender-Fresh :
    (l : ℕ) (a : LogAppenderDefine) (w : World) (t : Target)
    → IsTarget t a
    → Fresh l a w (make_appender w t)
unfolding make_appender
make_appender-Fresh l a w t h =
    let self : (w.next_appender == w.next_appender) ≡ true = (==_iff _ _).1 refl in
    record {
      changes = record {
        others = λ k e. refl;
        loggers = refl;
        grows = omega arith;
        same = λ i n.
            let e : (w.next_appender == i) ≡ false = ground arith in
            rw e (refl, λ e x. x, λ f x. x);
      };
      loggers = refl;
      taken = omega arith;
      target = rw self h;
      plain = rw self refl;
    }

make_file-Fresh :
    (l : ℕ) (a : LogAppenderDefine) (sys : System) (w : World) (last_time : ℕ)
    → a.type ≡ 1
    → Fresh l a w (make_file sys w a.file last_time)
unfolding new_log_file Appender.reopen
make_file-Fresh l a sys w last_time h =
    let st = new_log_file sys a.file last_time w.disk in
    let f = make_appender-Fresh l a (record w { disk = st.disk }) (file st.file) (h, refl) in
    record {
      changes = record {
        others = f.changes.others;
        loggers = f.changes.loggers;
        grows = f.changes.grows;
        same = f.changes.same;
      };
      loggers = f.loggers;
      taken = f.taken;
      target = f.target;
      plain = f.plain;
    }

abbrev pub MakesFresh : ℕ → LogAppenderDefine → World → Option World → Type 0
MakesFresh l a w none = Unit
MakesFresh l a w (some v) = Fresh l a w v

pub new_defined-MakesFresh :
    (l : ℕ) (s : Site) (w : World) (a : LogAppenderDefine) → MakesFresh l a w (new_defined s w a)
unfolding new_defined
new_defined-MakesFresh l s w a = elim (Bool-cases (a.type == 1)) [
  | inl e ↦ rw e (make_file-Fresh l a s.sys w (s.last_time w.next_appender) ((==_iff a.type 1).0 e))
  | inr e ↦ elim (Bool-cases (a.type == 2)) [
    | inl f ↦ rw (e, f) (make_appender-Fresh l a w std_out ((==_iff a.type 2).0 f))
    | inr f ↦ rw (e, f) tt
  ]
]

-- The fresh appender with its level: what the define says but for its formatter.
pub levelled-Levelled :
    (l : ℕ) (a : LogAppenderDefine) (w v : World)
    → Fresh l a w v
    → let i = w.next_appender in
      let u = set_appender v i (Appender.set_level (v.appender i) a.level) in
      Changes l w u
      × (i < u.next_appender)
      × ((u.appender i).level ≡ a.level)
      × IsTarget (u.appender i).target a
      × ((u.appender i).has_formatter ≡ false)
levelled-Levelled l a w v f =
    let i = w.next_appender in
    let self : (i == i) ≡ true = (==_iff i i).1 refl in
    (
      record {
        others = f.changes.others;
        loggers = f.changes.loggers;
        grows = f.changes.grows;
        same = λ j n. let e : (i == j) ≡ false = ground arith in rw e (f.changes.same j n);
      },
      f.taken,
      rw self refl,
      rw self f.target,
      rw self f.plain,
    )
