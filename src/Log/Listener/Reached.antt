-- ===== src/Log/Listener/Reached.antt =====
-- What a program may have done to the manager before the variable "logs" changes.
use chord_server.Prelude.{ℕ, ◌<◌, ◌≡◌, refl, subst, [], ◌∷◌, some, Bytes, codes, equal_iff, arith}
use chord_server.Log.World.{World, System}
use chord_server.Log.Logger
use chord_server.Log.Logger.{depth, give_formatter, inherit, inherit_all, set_formatter_made}
use chord_server.Log.Manager.{
  LoggerManager, LoggerMap, find, gets, makes_std_out, makes_file, adds, removes, clears,
  sets_level, sets_pattern, sets_formatter, appender_sets_formatter, appender_sets_level, logs,
  Call, insert, new_manager, step,
}
use chord_server.Log.Manager.Safety.{Reach, here, next}
use chord_server.Log.Listener.Appenders.{add_appender-Changes, Holds, Holds-bind}
use chord_server.Log.Listener.Keyed.{IsKeyed, get_logger-Names}
use chord_server.Log.Listener.Changes.{set_formatter-Changes, set_pattern-Changes}
use chord_server.Log.Listener.Announced.{Undisturbed, log-Undisturbed}

abbrev only_root : LoggerMap
only_root = (codes "root", 0) ∷ []

root_below : (n : Bytes) (l : ℕ) → find n only_root ≡ some l → l < 1
unfolding find
root_below n l e = ground (arith, e)

root_one : (n k : Bytes) (l : ℕ) → find n only_root ≡ some l → find k only_root ≡ some l → n ≡ k
unfolding find
root_one n k l e f = ground (arith, equal_iff (codes "root") n, equal_iff (codes "root") k, e, f)

new_manager-IsKeyed : (disk : Bytes → Bytes) → IsKeyed (new_manager disk)
unfolding new_manager find insert
new_manager-IsKeyed disk = record {
  below = λ n l e. rw ((add_appender-Changes 0 _ 0).loggers) (root_below n l e);
  one = root_one;
}

world-IsKeyed :
    (m : LoggerManager) (w : World)
    → IsKeyed m
    → w.next_logger ≡ m.world.next_logger
    → IsKeyed (record m { world = w })
world-IsKeyed m w k e = record { below = λ n l x. rw e (k.below n l x); one = k.one }

step-IsKeyed :
    (sys : System) (m : LoggerManager) (c : Call) → IsKeyed m → Holds IsKeyed (step sys m c)
unfolding step
step-IsKeyed sys m (gets name) k = (get_logger-Names m name k).0
step-IsKeyed sys m makes_std_out k = world-IsKeyed m _ k refl
step-IsKeyed sys m (makes_file filename last_time) k = world-IsKeyed m _ k refl
step-IsKeyed sys m (adds l i) k = world-IsKeyed m _ k (add_appender-Changes l m.world i).loggers
step-IsKeyed sys m (removes l i) k = world-IsKeyed m _ k (unfold Logger.del_appender in refl)
step-IsKeyed sys m (clears l) k = world-IsKeyed m _ k (unfold Logger.clear_appenders in refl)
step-IsKeyed sys m (sets_level l level) k = world-IsKeyed m _ k refl
step-IsKeyed sys m (sets_pattern l pattern) k =
    world-IsKeyed m _ k (set_pattern-Changes l m.world pattern).loggers
step-IsKeyed sys m (sets_formatter l f) k =
    world-IsKeyed m _ k (set_formatter-Changes l m.world f).loggers
step-IsKeyed sys m (appender_sets_formatter i f) k = world-IsKeyed m _ k refl
step-IsKeyed sys m (appender_sets_level i level) k = world-IsKeyed m _ k refl
step-IsKeyed sys m (logs l level event) k =
    Holds-bind (Undisturbed m.world) IsKeyed (Logger.log depth sys m.world l level event) _
      (log-Undisturbed depth sys m.world l level event) (λ w e. world-IsKeyed m w k e.0)

-- No logger ever has two names, and every name's logger was made: whatever calls a program has
-- made since the manager was built.
pub Reach-IsKeyed :
    (disk : Bytes → Bytes) {m : LoggerManager} → Reach (new_manager disk) m → IsKeyed m
Reach-IsKeyed disk here = new_manager-IsKeyed disk
Reach-IsKeyed disk (next {n} sys c r h e) =
    subst (Holds IsKeyed) e (step-IsKeyed sys n c (Reach-IsKeyed disk r))
