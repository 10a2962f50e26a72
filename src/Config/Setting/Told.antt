-- ===== src/Config/Setting/Told.antt =====
-- What every interleaving of setValue keeps.
use chord_server.Prelude.{
  ℕ, Bool, true, false, ◌||◌, ◌≡◌, refl, ◌⊎◌, inl, inr, List, [], ◌∷◌, ◌==◌, ==_iff, Bool-cases,
  All, arith, Option, none, some,
}
use chord_server.Config.Setting.{
  Phase, told, between, writing, holds_read, holds_write, Shared, lock_read, return_same, call_back,
  unlock_read, lock_write, assign, unlock_write, Step, reads, returns, calls_back, releases, writes,
  assigns, ends, Interleaves, begin, next,
}

-- The listeners have been told of the value.
abbrev pub Told : {T : Type 0} → T → List (T × T) → Type 0
Told v [] = ⊥
Told v (c ∷ cs) = (c.1 ≡ v) ⊎ Told v cs

-- The value that a thread will assign, or is assigning.
abbrev pub announced : {T : Type 0} → Phase T → Option T
announced (told v) = some v
announced (between v) = some v
announced (writing v) = some v
announced _ = none

module _ {T : Type 0} (eq : T → T → Bool) (start : T) where
  pub record IsTold (s : Shared T) : Type 0 where
    pub alone :
        (i j : ℕ)
        → holds_write (s.phase i) ≡ true
        → (holds_read (s.phase j) || holds_write (s.phase j)) ≡ true
        → i ≡ j
    pub pending : (i : ℕ) (v : T) → announced (s.phase i) ≡ some v → Told v s.calls
    pub current : (s.val ≡ start) ⊎ Told s.val s.calls
    pub changes : All (λ c. eq c.1 c.0 ≡ false) s.calls

  Step-alone :
      {s : Shared T} {k : ℕ} {t : Shared T}
      → Step eq s k t
      → IsTold s
      → (i j : ℕ) → holds_write (t.phase i) ≡ true
      → (holds_read (t.phase j) || holds_write (t.phase j)) ≡ true
      → i ≡ j
  unfolding lock_read return_same call_back unlock_read lock_write assign unlock_write
  Step-alone {s} {k = k} (reads v e f) h i j a b =
      ground (arith, f i, ==_iff k i, ==_iff k j, h.alone i j)
  Step-alone {s} {k = k} (returns v e f) h i j a b =
      ground (arith, ==_iff k i, ==_iff k j, h.alone i j)
  Step-alone {s} {k = k} (calls_back v e f) h i j a b =
      ground (arith, ==_iff k i, ==_iff k j, h.alone i j)
  Step-alone {s} {k = k} (releases v e) h i j a b =
      ground (arith, ==_iff k i, ==_iff k j, h.alone i j)
  Step-alone {s} {k = k} (writes v e f g) h i j a b =
      ground (arith, f i, g i, f j, g j, ==_iff k i, ==_iff k j)
  Step-alone {s} {k = k} (assigns v e) h i j a b =
      ground (arith, ==_iff k i, ==_iff k j, h.alone i j, h.alone k j, h.alone i k)
  Step-alone {s} {k = k} (ends e) h i j a b = ground (arith, ==_iff k i, ==_iff k j, h.alone i j)

  Step-pending :
      {s : Shared T} {k : ℕ} {t : Shared T}
      → Step eq s k t
      → IsTold s
      → (i : ℕ) (v : T) → announced (t.phase i) ≡ some v
      → Told v t.calls
  unfolding lock_read return_same call_back unlock_read lock_write assign unlock_write
  Step-pending {s} {k = k} (reads u e f) h i v a = ground (arith, h.pending i v)
  Step-pending {s} {k = k} (returns u e f) h i v a = ground (arith, h.pending i v)
  Step-pending {s} {k = k} (calls_back u e f) h i v a = elim (Bool-cases (k == i)) [
    | inl x ↦ inl (ground (arith, x, a))
    | inr x ↦ inr (h.pending i v (ground (arith, x, a)))
  ]
  Step-pending {s} {k = k} (releases u e) h i v a = ground (arith, h.pending i v, h.pending k v)
  Step-pending {s} {k = k} (writes u e f g) h i v a = ground (arith, h.pending i v, h.pending k v)
  Step-pending {s} {k = k} (assigns u e) h i v a = ground (arith, h.pending i v)
  Step-pending {s} {k = k} (ends e) h i v a = ground (arith, h.pending i v)

  Step-IsTold : {s : Shared T} {k : ℕ} {t : Shared T} → Step eq s k t → IsTold s → IsTold t
  unfolding lock_read return_same call_back unlock_read lock_write assign unlock_write
  Step-IsTold {s} {k = k} st h = record {
    alone = Step-alone st h;
    pending = Step-pending st h;
    current = current st;
    changes = changes st;
  }
    where
      current : {t : Shared T} → Step eq s k t → (t.val ≡ start) ⊎ Told t.val t.calls
      current (reads u e f) = h.current
      current (returns u e f) = h.current
      current (calls_back u e f) = elim h.current [ inl x ↦ inl x | inr x ↦ inr (inr x) ]
      current (releases u e) = h.current
      current (writes u e f g) = h.current
      current (assigns u e) = inr (h.pending k u (ground (arith, e)))
      current (ends e) = h.current

      changes : {t : Shared T} → Step eq s k t → All (λ c. eq c.1 c.0 ≡ false) t.calls
      changes (reads u e f) = h.changes
      changes (returns u e f) = h.changes
      changes (calls_back u e f) = (f, h.changes)
      changes (releases u e) = h.changes
      changes (writes u e f g) = h.changes
      changes (assigns u e) = h.changes
      changes (ends e) = h.changes

  -- However the steps of threads that set the variable come after one another: while a thread
  -- assigns, no other one reads or assigns; every value that the variable takes, or that a thread
  -- is about to assign, was told to the listeners before; and they are only told of changes.
  pub Interleaves-IsTold : {s : Shared T} → Interleaves eq start s → IsTold s
  Interleaves-IsTold begin = record {
    alone = λ i j a b. cc;
    pending = λ i v a. cc;
    current = inl refl;
    changes = tt;
  }
  Interleaves-IsTold (next i r st) = Step-IsTold st (Interleaves-IsTold r)
