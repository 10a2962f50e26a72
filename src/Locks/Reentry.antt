-- ===== src/Locks/Reentry.antt =====
-- A listener that calls its own variable.
use mathlib.Core.List.{Memᴰ}
use mathlib.Core.List.Memᴰ.{head, tail}
use chord_server.Prelude.{
  ℕ, true, false, ◌≡◌, refl, sym, subst, ap, ◌∙◌, append_assoc, List, [], ◌∷◌, ◌++◌, all, arith,
  cons-cases, inl, inr, ◌⊎◌,
}
use chord_server.Locks.{variable, reading, alone, Hold, Act, lock, unlock}
use chord_server.Locks.Configuring.{
  VarCall, sets_value, adds_listener, deletes_listener, clears_listener, set_value_locks, var_locks,
}
use chord_server.Locks.Threads.{LockThread, leaves_free, is_able, act, advance, Step, moves}
use chord_server.Locks.Ordered.{same_mutex_refl}

pub data Steps (ts : List LockThread) : List LockThread → Type 0 where
  here : Steps ts ts
  more : {us vs : List LockThread} → Steps ts us → Step us vs → Steps ts vs

-- Members of a list with one element replaced.
Memᴰ-replace :
    {A : Type 0} {x : A} (before behind : List A) (y z : A)
    → Memᴰ x (before ++ y ∷ behind)
    → (x ≡ y) ⊎ Memᴰ x (before ++ z ∷ behind)
Memᴰ-replace [] behind y z m = elim (cons-cases m) [ inl e ↦ inl e | inr n ↦ inr (tail n) ]
Memᴰ-replace (w ∷ before) behind y z (head e) = inr (head e)
Memᴰ-replace (w ∷ before) behind y z (tail m) = elim (Memᴰ-replace before behind y z m) [
  | inl e ↦ inl e
  | inr n ↦ inr (tail n)
]

not-able :
    (ts : List LockThread) (h : Hold) (t : LockThread)
    → Memᴰ t ts
    → leaves_free h t ≡ false
    → all (leaves_free h) ts ≡ false
not-able [] h t m e = elim m [ ]
not-able (u ∷ ts) h t (head same) e =
    let f : leaves_free h u ≡ false = subst (λ x. leaves_free h x ≡ false) same e in rw f refl
not-able (u ∷ ts) h t (tail m) e = ground (arith, not-able ts h t m e)

-- A thread that wants a lock against one that it holds itself is not moved by any step.
Step-waits :
    {ts us : List LockThread} (t : LockThread) (h : Hold) (after : List Act)
    → t.rest ≡ lock h ∷ after
    → leaves_free h t ≡ false
    → Step ts us
    → Memᴰ t ts
    → Memᴰ t us
unfolding is_able
Step-waits {ts} t h after wants taken (moves before behind u e able e') m =
    elim (Memᴰ-replace before behind u (advance u) (subst (Memᴰ t) e m)) [
      | inr n ↦ subst (Memᴰ t) (sym e') n
      | inl same ↦
          let own : is_able ts t.rest ≡ true =
            subst (λ x. is_able ts x.rest ≡ true) (sym same) able in
          let free : all (leaves_free h) ts ≡ true = subst (λ r. is_able ts r ≡ true) wants own in
          absurd (ground (arith, free, not-able ts h t m taken))
    ]

Steps-waits :
    {ts us : List LockThread} (t : LockThread) (h : Hold) (after : List Act)
    → t.rest ≡ lock h ∷ after
    → leaves_free h t ≡ false
    → Steps ts us
    → Memᴰ t ts
    → Memᴰ t us
Steps-waits t h after wants taken here m = m
Steps-waits t h after wants taken (more ss s) m =
    Step-waits t h after wants taken s (Steps-waits t h after wants taken ss m)

abbrev pub ChangesListeners : VarCall → Type 0
ChangesListeners adds_listener = Unit
ChangesListeners deletes_listener = Unit
ChangesListeners clears_listener = Unit
ChangesListeners _ = ⊥

-- What setValue takes for its listeners, and what the three calls take.
abbrev pub read_hold : ℕ → Hold
read_hold v = record { mode = reading; mutex = variable v }

abbrev pub write_hold : ℕ → Hold
write_hold v = record { mode = alone; mutex = variable v }

-- A thread that is about to set a variable to another value, where the first thing that the
-- listeners do with locks is the call of the variable.
abbrev pub setting : ℕ → VarCall → List Act → List Act → LockThread
setting v c others after = record {
  holds = [];
  rest = var_locks v (sets_value false (var_locks v c ++ others)) ++ after;
}

-- What setValue does behind the call in the listener.
abbrev pub behind_call : ℕ → List Act → List Act → List Act
behind_call v rest after =
    rest ++ (unlock (read_hold v) ∷ lock (write_hold v) ∷ unlock (write_hold v) ∷ after)

-- That thread in the listener.
abbrev pub in_listener : ℕ → VarCall → List Act → LockThread
in_listener v c after = record {
  holds = record { mode = reading; mutex = variable v } ∷ [];
  rest = var_locks v c ++ after;
}

var_locks-write :
    (v : ℕ) (c : VarCall)
    → ChangesListeners c
    → var_locks v c ≡ lock (write_hold v) ∷ unlock (write_hold v) ∷ []
unfolding var_locks
var_locks-write v adds_listener ch = refl
var_locks-write v deletes_listener ch = refl
var_locks-write v clears_listener ch = refl
var_locks-write v _ ch = absurd ch

in_listener-stays :
    {ts us : List LockThread} (v : ℕ) (c : VarCall) (after : List Act)
    → ChangesListeners c
    → Steps ts us
    → Memᴰ (in_listener v c after) ts
    → Memᴰ (in_listener v c after) us
in_listener-stays v c after ch ss m =
    Steps-waits (in_listener v c after) (write_hold v) (unlock (write_hold v) ∷ after)
      (ap (λ acts. acts ++ after) (var_locks-write v c ch))
      (ground (arith, same_mutex_refl (variable v))) ss m

-- The first act of setValue takes the lock for reading and leads into the listener.
advance-setting :
    (v : ℕ) (c : VarCall) (rest after : List Act)
    → advance (setting v c rest after) ≡ in_listener v c (behind_call v rest after)
unfolding act var_locks set_value_locks
advance-setting v c rest after = simp append_assoc

Memᴰ-midst : {A : Type 0} (before behind : List A) (x : A) → Memᴰ x (before ++ x ∷ behind)
Memᴰ-midst [] behind x = head refl
Memᴰ-midst (y ∷ before) behind x = tail (Memᴰ-midst before behind x)

-- A thread that calls setValue of a variable with another value, where the first thing that the
-- listeners do with locks is addListener, delListener or clearListener of the same variable:
-- whatever the threads do, it has not begun, or it waits in the listener, with the variable's lock
-- for reading, for the same lock for writing. So the call never returns.
pub setting-waits :
    {ts us : List LockThread} (v : ℕ) (c : VarCall) (rest after : List Act)
    → ChangesListeners c
    → Steps ts us
    → Memᴰ (setting v c rest after) ts
    → Memᴰ (setting v c rest after) us ⊎ Memᴰ (in_listener v c (behind_call v rest after)) us
setting-waits v c rest after ch here m = inl m
setting-waits v c rest after ch (more ss s) m = elim (setting-waits v c rest after ch ss m) [
  | inr n ↦ inr (in_listener-stays v c (behind_call v rest after) ch (more here s) n)
  | inl n ↦ setting-moves s n
]
  where
    setting-moves :
        {ts us : List LockThread}
        → Step ts us
        → Memᴰ (setting v c rest after) ts
        → Memᴰ (setting v c rest after) us ⊎ Memᴰ (in_listener v c (behind_call v rest after)) us
    setting-moves (moves before behind u e able e') n =
        elim (Memᴰ-replace before behind u (advance u) (subst (Memᴰ _) e n)) [
          | inr k ↦ inl (subst (Memᴰ _) (sym e') k)
          | inl same ↦ inr (
              subst (Memᴰ _) (sym e') (
                subst (λ t. Memᴰ t (before ++ advance u ∷ behind))
                  (ap advance (sym same) ∙ advance-setting v c rest after)
                  (Memᴰ-midst before behind (advance u))))
        ]
