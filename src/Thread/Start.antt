-- ===== src/Thread/Start.antt =====
-- What the constructor of Thread promises: its semaphore hands the object over.
use chord_server.Prelude.{
  ℕ, zero, suc, ◌+◌, ◌-◌, ◌≤◌, ◌<◌, Bool, true, false, ◌||◌, ◌≡◌, refl, some, leb, ◌==◌, Bool-cases,
  inl, inr, if◌then◌else◌, take, Bytes, arith,
}
use chord_server.Thread.{
  Owner, creating, waiting, constructed, joined, destroyed, Place, unborn, entered, bound, named,
  identified, titled, swapped, notified, finished, Handover, name_or_unknown, new_semaphore,
  begin_with, construct, create, create_fails, wait, run_at, run, set_name, join_throws, join,
  destroy, Step, creates, gives_up, waits, runs, renames, joins, joins_again, fails_to_join,
  destroys, destroys_joined, Reaches, start, step,
}

-- How far the new thread is.
abbrev pub rank : Place → ℕ
rank unborn = 0
rank entered = 1
rank bound = 2
rank named = 3
rank identified = 4
rank titled = 5
rank swapped = 6
rank notified = 7
rank finished = 8

-- The constructor has returned.
abbrev pub is_over : Owner → Bool
is_over constructed = true
is_over joined = true
is_over destroyed = true
is_over _ = false

pub record IsSafe (cb tid : ℕ) (name : Bytes) (h : Handover) : Type 0 where
  pub no_fault : h.fault ≡ false
  pub dead : h.alive ≡ false → (leb 7 (rank h.place) || rank h.place == 0) ≡ true
  pub creating_unborn : h.owner ≡ creating → rank h.place ≡ 0
  pub creating_alive : h.owner ≡ creating → h.alive ≡ true
  pub waiting_born : h.owner ≡ waiting → 1 ≤ rank h.place
  pub waiting_alive : h.owner ≡ waiting → h.alive ≡ true
  pub gone : h.owner ≡ destroyed → h.alive ≡ false
  pub count : is_over h.owner ≡ false → h.object.semaphore ≡ (if leb 7 (rank h.place) then 1 else 0)
  pub over : is_over h.owner ≡ true → 7 ≤ rank h.place
  pub this : 2 ≤ rank h.place → h.locals.has_this ≡ true
  pub id : 4 ≤ rank h.place → h.object.id ≡ some tid
  pub own_name : rank h.place ≤ 6 → h.object.name ≡ name_or_unknown name
  pub title : 5 ≤ rank h.place → h.title ≡ take 15 (name_or_unknown name)
  pub held : rank h.place ≤ 5 → h.object.cb ≡ some cb
  pub taken : 6 ≤ rank h.place → h.taken ≡ some cb
  pub called : 8 ≤ rank h.place → h.called ≡ some cb

module _ (cb tid : ℕ) (name : Bytes) where
  run_at-IsSafe :
      (p : Place) (h : Handover)
      → h.place ≡ p
      → IsSafe cb tid name h
      → IsSafe cb tid name (run_at p tid h)
  unfolding run_at
  run_at-IsSafe unborn h e s = s
  run_at-IsSafe entered h e s = ground arith
  run_at-IsSafe bound h e s = ground arith
  run_at-IsSafe named h e s = ground arith
  run_at-IsSafe identified h e s = ground arith
  run_at-IsSafe titled h e s = ground arith
  run_at-IsSafe swapped h e s = ground arith
  run_at-IsSafe notified h e s = ground arith
  run_at-IsSafe finished h e s = s

  run-IsSafe : (h : Handover) → IsSafe cb tid name h → IsSafe cb tid name (run tid h)
  unfolding run
  run-IsSafe h s = run_at-IsSafe h.place h refl s

  set_name-IsSafe :
      (h : Handover) (given : Bytes)
      → h.place ≡ notified
      → h.alive ≡ true
      → IsSafe cb tid name h
      → IsSafe cb tid name (set_name h given)
  unfolding set_name
  set_name-IsSafe h given e a s = ground arith

  Step-IsSafe : (h k : Handover) → Step tid h k → IsSafe cb tid name h → IsSafe cb tid name k
  unfolding create create_fails wait join join_throws destroy
  Step-IsSafe h k (creates handle o n) s = ground arith
  Step-IsSafe h k (gives_up o) s = ground arith
  Step-IsSafe h k (waits o n) s = ground arith
  Step-IsSafe h k runs s = run-IsSafe h s
  Step-IsSafe h k (renames given e a) s = set_name-IsSafe h given e a s
  Step-IsSafe h k (joins o e) s = ground arith
  Step-IsSafe h k (joins_again rt o) s = ground arith
  Step-IsSafe h k (fails_to_join rt o t) s = ground arith
  Step-IsSafe h k (destroys o) s = ground arith
  Step-IsSafe h k (destroys_joined o) s = ground arith

  construct-IsSafe : (rt : ℕ) → IsSafe cb tid name (construct rt cb name)
  unfolding construct new_semaphore begin_with create_fails
  construct-IsSafe rt = elim (Bool-cases (rt == 0)) [
    | inl e ↦ rw e (ground arith)
    | inr e ↦ rw e (ground arith)
  ]

  -- However the steps of the constructing thread and of the new thread come after one another,
  -- without interrupted waits, and with the callback renaming its thread only while the object
  -- exists: no statement uses the object when it is gone. Once the constructor
  -- has returned, the new thread has its id in the object, itself as its current thread, at most 15
  -- bytes of its name known to the system, and the callback taken out; it calls that callback.
  pub Reaches-IsSafe : (h : Handover) → Reaches cb tid name h → IsSafe cb tid name h
  Reaches-IsSafe h (start rt) = construct-IsSafe rt
  Reaches-IsSafe h (step {h = k} r st) = Step-IsSafe k h st (Reaches-IsSafe k r)

  -- The new thread, for as many statements.
  abbrev pub run_for : ℕ → Handover → Handover
  run_for zero h = h
  run_for (suc n) h = run_for n (run tid h)

  run_at-rank :
      (p : Place) (h : Handover)
      → h.place ≡ p
      → h.owner ≡ waiting
      → IsSafe cb tid name h
      → rank p < 7
      → (rank (run_at p tid h).place ≡ suc (rank p)) × ((run_at p tid h).owner ≡ waiting)
  unfolding run_at
  run_at-rank unborn h e o s l = ground arith
  run_at-rank entered h e o s l = ground arith
  run_at-rank bound h e o s l = ground arith
  run_at-rank named h e o s l = ground arith
  run_at-rank identified h e o s l = ground arith
  run_at-rank titled h e o s l = ground arith
  run_at-rank swapped h e o s l = ground arith
  run_at-rank notified h e o s l = ground arith
  run_at-rank finished h e o s l = ground arith

  run_for-Reaches :
      (n : ℕ) (h : Handover) → Reaches cb tid name h → Reaches cb tid name (run_for n h)
  run_for-Reaches zero h r = r
  run_for-Reaches (suc n) h r = run_for-Reaches n (run tid h) (step r runs)

  run_for-rank :
      (n : ℕ) (h : Handover)
      → h.owner ≡ waiting
      → IsSafe cb tid name h
      → rank h.place + n ≡ 7
      → (rank (run_for n h).place ≡ 7) × ((run_for n h).owner ≡ waiting)
  unfolding run
  run_for-rank zero h o s e = (omega (arith, e), o)
  run_for-rank (suc n) h o s e =
      let (k, o') = run_at-rank h.place h refl o s (omega (arith, e)) in
      run_for-rank n (run tid h) o' (run-IsSafe h s) (omega (arith, k, e))

  -- The constructor cannot wait for ever: at a wait the new thread has at most six statements to
  -- run before it has notified, none of which waits for anything, and then the wait can end.
  pub Reaches-waits :
      (h : Handover)
      → Reaches cb tid name h
      → h.owner ≡ waiting
      → (n : ℕ) × (n ≤ 6)
        × (0 < (run_for n h).object.semaphore)
        × Step tid (run_for n h) (wait (run_for n h))
  Reaches-waits h r o =
      let s = Reaches-IsSafe h r in
      elim (Bool-cases (leb 7 (rank h.place))) [
        | inl e ↦
            let c : 0 < h.object.semaphore = ground (arith, s.count) in
            (0, omega arith, c, waits o c)
        | inr e ↦
            let n = 7 - rank h.place in
            let born = s.waiting_born o in
            let (k, o') = run_for-rank n h o s (ground arith) in
            let t = Reaches-IsSafe (run_for n h) (run_for-Reaches n h r) in
            let c : 0 < (run_for n h).object.semaphore = ground (arith, t.count) in
            (n, ground arith, c, waits o' c)
      ]
