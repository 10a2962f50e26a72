-- ===== src/Prelude/Members.antt =====
-- Members of lists, with their places.
use mathlib.Core.List.{Memᴰ}
use mathlib.Core.List.Memᴰ.{head, tail}
use mathlib.Core.Path.{◌≡◌, refl, sym, ap, subst}
use mathlib.Core.Logic.{◌⊎◌, inl, inr}
use mathlib.Core.Bool.{Bool, false}
use mathlib.Core.List.{List, [], ◌∷◌, ◌++◌}
use native.Mathlib.Omega.{arith}
use chord_server.Prelude.Tests.{Bool-cases}
use chord_server.Prelude.Lists.{All, all}

pub append-kept : {A : Type 0} {x : A} (xs ys : List A) → Memᴰ x xs → Memᴰ x (xs ++ ys)
append-kept [] ys m = elim m [ ]
append-kept (x ∷ xs) ys (head e) = head e
append-kept (x ∷ xs) ys (tail m) = tail (append-kept xs ys m)

pub append-last : {A : Type 0} {x : A} (xs : List A) → Memᴰ x (xs ++ x ∷ [])
append-last [] = head refl
append-last (x ∷ xs) = tail (append-last xs)

pub cons-cases : {A : Type 0} {x y : A} {xs : List A} → Memᴰ x (y ∷ xs) → (x ≡ y) ⊎ Memᴰ x xs
cons-cases (head e) = inl e
cons-cases (tail m) = inr m

pub Memᴰ-split :
    {A : Type 0} {x : A} (xs : List A)
    → Memᴰ x xs
    → (before : List A) × (behind : List A) × (xs ≡ before ++ x ∷ behind)
Memᴰ-split [] m = elim m [ ]
Memᴰ-split (y ∷ ys) (head e) = ([], ys, ap (λ z. z ∷ ys) (sym e))
Memᴰ-split (y ∷ ys) (tail m) =
    let (before, behind, e) = Memᴰ-split ys m in (y ∷ before, behind, ap (λ zs. y ∷ zs) e)

pub All-at : {A : Type 0} (P : A → Type 0) {x : A} (xs : List A) → All P xs → Memᴰ x xs → P x
All-at P [] h m = elim m [ ]
All-at P (x ∷ xs) h (head e) = subst P (sym e) h.0
All-at P (x ∷ xs) h (tail m) = All-at P xs h.1 m

-- One element in the midst of a list.
pub All-midst :
    {A : Type 0} (P : A → Type 0) (before behind : List A) {x : A}
    → All P (before ++ x ∷ behind)
    → P x
All-midst P [] behind h = h.0
All-midst P (y ∷ before) behind h = All-midst P before behind h.1

pub All-replace :
    {A : Type 0} (P : A → Type 0) (before behind : List A) (x : A) {y : A}
    → All P (before ++ x ∷ behind)
    → P y
    → All P (before ++ y ∷ behind)
All-replace P [] behind x h p = (p, h.1)
All-replace P (z ∷ before) behind x h p = (h.0, All-replace P before behind x h.1 p)

-- A test that fails for a list fails for a member.
pub all-counterexample :
    {A : Type 0} (p : A → Bool) (xs : List A)
    → all p xs ≡ false
    → (x : A) × Memᴰ x xs × (p x ≡ false)
all-counterexample p [] h = absurd (ground arith)
all-counterexample p (x ∷ xs) h = elim (Bool-cases (p x)) [
  | inr fails ↦ (x, head refl, fails)
  | inl holds ↦ let (y, m, fails) = all-counterexample p xs (rw holds at h) in (y, tail m, fails)
]
