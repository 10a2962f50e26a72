-- ===== src/Config/Setting/Races.antt =====
-- Two threads that set a variable at the same time.
use chord_server.Prelude.{ℕ, Bool, false, ◌≡◌, refl, [], ◌∷◌, arith}
use chord_server.Config.Setting.{
  outside, Shared, new_shared, lock_read, call_back, unlock_read, lock_write, assign, unlock_write,
  reads, calls_back, releases, writes, assigns, ends, Interleaves, begin, next,
}

module _ {T : Type 0} (eq : T → T → Bool) (start a b : T) where
  -- Both have called the listeners: the first thread with `a`, the second with `b`.
  abbrev pub both_reading : Shared T
  both_reading = lock_read (lock_read (new_shared start) 0 a) 1 b

  abbrev pub both_told : Shared T
  both_told = call_back (call_back both_reading 0 a) 1 b

  abbrev pub both_between : Shared T
  both_between = unlock_read (unlock_read both_told 0 a) 1 b

  abbrev pub second_done : Shared T
  second_done = unlock_write (assign (lock_write both_between 1 b) 1 b) 1

  abbrev pub first_done : Shared T
  first_done = unlock_write (assign (lock_write second_done 0 a) 0 a) 0

  both_between-Interleaves :
      eq a start ≡ false → eq b start ≡ false → Interleaves eq start both_between
  unfolding lock_read call_back unlock_read
  both_between-Interleaves f g =
      next 1
        (next 0
          (next 1
            (next 0
              (next 1 (next 0 begin (reads a refl (λ j. refl))) (reads b refl (λ j. ground arith)))
              (calls_back a refl f))
            (calls_back b refl g))
          (releases a refl))
        (releases b refl)

  pub first_done-Interleaves :
      eq a start ≡ false → eq b start ≡ false → Interleaves eq start first_done
  unfolding lock_read call_back unlock_read lock_write assign unlock_write
  first_done-Interleaves f g =
      next 0
        (next 0
          (next 0
            (next 1
              (next 1
                (next 1 (both_between-Interleaves f g)
                  (writes b refl (λ j. ground arith) (λ j. ground arith)))
                (assigns b refl))
              (ends refl))
            (writes a refl (λ j. ground arith) (λ j. ground arith)))
          (assigns a refl))
        (ends refl)

  -- If two threads set values that both differ from the variable's, the listeners can be told of
  -- the first thread's value and last of the second's, both as changes of the old value, while the
  -- variable is left at the first thread's.
  pub first_done-races :
      eq a start ≡ false
      → eq b start ≡ false
      → (s : Shared T) × Interleaves eq start s
        × (s.val ≡ a)
        × (s.calls ≡ (start, b) ∷ (start, a) ∷ [])
        × ((i : ℕ) → s.phase i ≡ outside)
  unfolding lock_read call_back unlock_read lock_write assign unlock_write
  first_done-races f g = (first_done, first_done-Interleaves f g, refl, refl, λ i. ground arith)
