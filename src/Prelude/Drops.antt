-- ===== src/Prelude/Drops.antt =====
-- A position in a text as what is left from there on.
use Prim.Native.Nat.{ℕ, zero, suc, ◌+◌, ◌-◌}
use mathlib.Core.Path.{◌≡◌, refl, sym, ap}
use mathlib.Core.List.{List, [], ◌∷◌, ◌++◌}
use native.Mathlib.Numerals.{add-one}
use native.Mathlib.Omega.{arith}
use chord_server.Prelude.Lists.{length, get_or, take, drop}

module _ {ℓ} {A : Type ℓ} where
  pub get_or-drop :
      (n : ℕ) (p : List A) {c : A} {r : List A} (d : A) → drop n p ≡ c ∷ r → get_or p n d ≡ c
  get_or-drop zero [] d h = ground arith
  get_or-drop zero (x ∷ p) d h = ground arith
  get_or-drop (suc n) [] d h = ground arith
  get_or-drop (suc n) (x ∷ p) d h = get_or-drop n p d h

  drop-suc : (n : ℕ) (p : List A) {c : A} {r : List A} → drop n p ≡ c ∷ r → drop (suc n) p ≡ r
  drop-suc zero [] h = ground arith
  drop-suc zero (x ∷ p) h = ground arith
  drop-suc (suc n) [] h = ground arith
  drop-suc (suc n) (x ∷ p) h = drop-suc n p h

  pub drop-add-one :
      (n : ℕ) (p : List A) {c : A} {r : List A} → drop n p ≡ c ∷ r → drop (n + 1) p ≡ r
  drop-add-one n p h = rw add-one (drop-suc n p h)

  pub length-drop : (n : ℕ) (p : List A) → length (drop n p) ≡ length p - n
  length-drop zero p = omega arith
  length-drop (suc n) [] = omega arith
  length-drop (suc n) (x ∷ p) = omega (arith, length-drop n p)

  pub lt-length_of_drop :
      (n : ℕ) (p : List A) {c : A} {r : List A} → drop n p ≡ c ∷ r → length p ≡ n + 1 + length r
  lt-length_of_drop n p h = omega (arith, ap length h, length-drop n p)

  drop-nil : (n : ℕ) → drop {A = A} n [] ≡ []
  drop-nil zero = refl
  drop-nil (suc n) = refl

  pub drop-drop : (m n : ℕ) (p : List A) → drop m (drop n p) ≡ drop (n + m) p
  drop-drop m zero p = let e : zero + m ≡ m = omega arith in rw e refl
  drop-drop zero (suc n) [] = let e : suc n + zero ≡ suc n = omega arith in rw e refl
  drop-drop (suc m) (suc n) [] = sym (drop-nil (suc n + suc m))
  drop-drop m (suc n) (x ∷ p) =
      let e : suc n + m ≡ suc (n + m) = omega arith in rw e (drop-drop m n p)

  pub take-add-one :
      (m : ℕ) (q : List A) {c : A} {r : List A}
      → drop m q ≡ c ∷ r
      → take (m + 1) q ≡ take m q ++ c ∷ []
  take-add-one m q h = rw add-one (go m q h)
    where
      go :
          (k : ℕ) (q : List A) {c : A} {r : List A}
          → drop k q ≡ c ∷ r
          → take (suc k) q ≡ take k q ++ c ∷ []
      go zero [] h = ground arith
      go zero (x ∷ q) h = ground arith
      go (suc k) [] h = ground arith
      go (suc k) (x ∷ q) h = ap (◌∷◌ x) (go k q h)

  pub take_of_drop-nil : (n : ℕ) (q : List A) → drop n q ≡ [] → take n q ≡ q
  take_of_drop-nil zero q h = ground arith
  take_of_drop-nil (suc n) [] h = refl
  take_of_drop-nil (suc n) (x ∷ q) h = ap (◌∷◌ x) (take_of_drop-nil n q h)
