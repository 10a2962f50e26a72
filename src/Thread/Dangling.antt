-- ===== src/Thread/Dangling.antt =====
-- When a thread uses its Thread object after the object is gone.
use chord_server.Prelude.{ℕ, ◌≤◌, true, false, ◌≡◌, refl, is_empty, Bytes, arith}
use chord_server.Thread.{
  waiting, destroyed, Place, unborn, entered, bound, named, identified, titled, swapped, notified,
  finished, Handover, wait_fails, run_at, run, set_name, Reaches,
}
use chord_server.Thread.Start.{rank, Reaches-IsSafe}

-- Two statements of a thread whose object is gone.
dead-fault :
    (tid : ℕ) (p : Place) (h : Handover)
    → h.place ≡ p
    → h.alive ≡ false
    → 1 ≤ rank p
    → rank p ≤ 6
    → (run tid (run_at p tid h)).fault ≡ true
unfolding run run_at
dead-fault tid unborn h e a l u = ground arith
dead-fault tid entered h e a l u = ground arith
dead-fault tid bound h e a l u = ground arith
dead-fault tid named h e a l u = ground arith
dead-fault tid identified h e a l u = ground arith
dead-fault tid titled h e a l u = ground arith
dead-fault tid swapped h e a l u = ground arith
dead-fault tid notified h e a l u = ground arith
dead-fault tid finished h e a l u = ground arith

-- If the wait of the constructor is interrupted before the new thread has notified, the constructor
-- throws, and the new thread uses the object that is gone within its next two statements.
pub wait_fails-fault :
    (cb tid : ℕ) (name : Bytes) (h : Handover)
    → Reaches cb tid name h
    → h.owner ≡ waiting
    → rank h.place ≤ 6
    → (run tid (run tid (wait_fails h))).fault ≡ true
unfolding wait_fails
wait_fails-fault cb tid name h r o l =
    let s = Reaches-IsSafe cb tid name h r in
    unfold run in dead-fault tid h.place (wait_fails h) refl refl (s.waiting_born o) l

-- A callback that renames its thread, to a name that is not empty, after the object was destroyed
-- without joining, uses the object that is gone: the thread-local pointer still points to it.
pub set_name-fault :
    (cb tid : ℕ) (name given : Bytes) (h : Handover)
    → Reaches cb tid name h
    → h.owner ≡ destroyed
    → is_empty given ≡ false
    → (set_name h given).fault ≡ true
unfolding set_name
set_name-fault cb tid name given h r o e =
    let s = Reaches-IsSafe cb tid name h r in ground (arith, s.over, s.this, s.gone)
