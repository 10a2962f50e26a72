-- ===== src/Config/Conversion/Refills.antt =====
-- Filling an empty container with the elements of another one.
use chord_server.Prelude.{
  equal_sym, Bool, true, false, ◌||◌, ◌≡◌, refl, sym, ap, ◌∙◌, List, [], ◌∷◌, ◌++◌, append-nil,
  append_assoc, Bytes, equal, less, less_ne, All, arith,
}
use chord_server.Config.Conversion.{Container, sequence, ordered, insert_by, key_less}

-- The elements come into the container one after another.
abbrev pub refill : {A : Type 0} (k : Container A) → List A → k.Carrier → k.Carrier
refill k [] c = c
refill k (x ∷ xs) c = refill k xs (k.add c x)

-- Some element passes the test.
abbrev pub any : {A : Type 0} → (A → Bool) → List A → Bool
any P [] = false
any P (x ∷ xs) = P x || any P xs

-- What an unordered container promises: an element that comes in is there, and no other one comes
-- or goes.
pub record IsBag {A : Type 0} (k : Container A) : Type 0 where
  pub any-empty : (P : A → Bool) → any P (k.elements k.empty) ≡ false
  pub any-add :
      (P : A → Bool) (c : k.Carrier) (x : A)
      → any P (k.elements (k.add c x)) ≡ (P x || any P (k.elements c))

-- The same for pairs, where a key that is there keeps its value.
pub record IsDictionary {A : Type 0} (k : Container (Bytes × A)) : Type 0 where
  pub any-empty : (P : Bytes × A → Bool) → any P (k.elements k.empty) ≡ false
  pub any-add :
      (P : Bytes × A → Bool) (c : k.Carrier) (key : Bytes) (x : A)
      → any (λ p. equal key p.0) (k.elements c) ≡ false
      → any P (k.elements (k.add c (key, x))) ≡ (P (key, x) || any P (k.elements c))

-- No key comes twice.
abbrev pub IsDistinct : {A : Type 0} → List (Bytes × A) → Type 0
IsDistinct [] = Unit
IsDistinct ((key, x) ∷ es) = All (λ p. equal key p.0 ≡ false) es × IsDistinct es

-- Each element is below all that follow.
abbrev pub IsAscending : {A : Type 0} → (A → A → Bool) → List A → Type 0
IsAscending below [] = Unit
IsAscending below (x ∷ xs) = All (λ y. below x y ≡ true) xs × IsAscending below xs

or_swap : (a b d : Bool) → (a || (b || d)) ≡ ((b || a) || d)
or_swap a b d = ground arith

module _ {A : Type 0} where
  pub refill-sequence : (xs ys : List A) → refill (sequence A) xs ys ≡ ys ++ xs
  refill-sequence [] ys = sym (append-nil ys)
  refill-sequence (x ∷ xs) ys = refill-sequence xs (ys ++ x ∷ []) ∙ append_assoc ys (x ∷ []) xs

  pub any-refill :
      (k : Container A) (P : A → Bool) (xs : List A) (c : k.Carrier)
      → IsBag k
      → any P (k.elements (refill k xs c)) ≡ (any P xs || any P (k.elements c))
  any-refill k P [] c h = refl
  any-refill k P (x ∷ xs) c h =
      any-refill k P xs (k.add c x) h ∙ rw (h.any-add P c x) (or_swap (any P xs) (P x) _)

  module _ (below : A → A → Bool) (asym : (x y : A) → below x y ≡ true → below y x ≡ false) where
    insert_by-last :
        (x : A) (ys : List A) → All (λ y. below y x ≡ true) ys → insert_by below x ys ≡ ys ++ x ∷ []
    insert_by-last x [] h = refl
    insert_by-last x (y ∷ ys) h = ground (arith, asym y x h.0, insert_by-last x ys h.1)

    -- Each of the first elements is below each of the others.
    abbrev pub Ahead : List A → List A → Type 0
    Ahead ys xs = All (λ y. All (λ x. below y x ≡ true) xs) ys

    Ahead-head :
        (x : A) (xs ys : List A) → Ahead ys (x ∷ xs) → All (λ y. below y x ≡ true) ys × Ahead ys xs
    Ahead-head x xs [] h = (tt, tt)
    Ahead-head x xs (y ∷ ys) h = let (a, r) = Ahead-head x xs ys h.1 in ((h.0.0, a), (h.0.1, r))

    Ahead-snoc :
        (x : A) (xs ys : List A)
        → Ahead ys xs
        → All (λ y. below x y ≡ true) xs
        → Ahead (ys ++ x ∷ []) xs
    Ahead-snoc x xs [] h a = (a, tt)
    Ahead-snoc x xs (y ∷ ys) h a = (h.0, Ahead-snoc x xs ys h.1 a)

    pub refill-ordered :
        (xs ys : List A)
        → IsAscending below xs
        → Ahead ys xs
        → refill (ordered below) xs ys ≡ ys ++ xs
    refill-ordered [] ys h a = sym (append-nil ys)
    refill-ordered (x ∷ xs) ys h a =
        let (l, r) = Ahead-head x xs ys a in
        ap (refill (ordered below) xs) (insert_by-last x ys l)
        ∙ refill-ordered xs (ys ++ x ∷ []) h.1 (Ahead-snoc x xs ys r h.0)
        ∙ append_assoc ys (x ∷ []) xs

-- Pairs in the order of their keys have different keys.
pub IsAscending-IsDistinct :
    {A : Type 0} (es : List (Bytes × A)) → IsAscending key_less es → IsDistinct es
IsAscending-IsDistinct [] h = tt
IsAscending-IsDistinct {A} ((key, x) ∷ es) h = (apart es h.0, IsAscending-IsDistinct es h.1)
  where
    apart :
        (es : List (Bytes × A))
        → All (λ p. less key p.0 ≡ true) es
        → All (λ p. equal key p.0 ≡ false) es
    apart [] a = tt
    apart ((j, y) ∷ es) a = (equal_sym j key (less_ne key j a.0), apart es a.1)

module _ {A : Type 0} (k : Container (Bytes × A)) (h : IsDictionary k) where
  -- No key of the pairs is in the container.
  abbrev pub AllNew : List (Bytes × A) → k.Carrier → Type 0
  AllNew es c = All (λ e. any (λ p. equal e.0 p.0) (k.elements c) ≡ false) es

  AllNew-add :
      (key : Bytes) (x : A) (es : List (Bytes × A)) (c : k.Carrier)
      → any (λ p. equal key p.0) (k.elements c) ≡ false
      → All (λ e. equal key e.0 ≡ false) es
      → AllNew es c
      → AllNew es (k.add c (key, x))
  AllNew-add key x [] c f d n = tt
  AllNew-add key x (e ∷ es) c f d n = (
    h.any-add (λ p. equal e.0 p.0) c key x f ∙ rw (equal_sym key e.0 d.0) n.0,
    AllNew-add key x es c f d.1 n.1,
  )

  pub AllNew-empty : (es : List (Bytes × A)) → AllNew es k.empty
  AllNew-empty [] = tt
  AllNew-empty (e ∷ es) = (h.any-empty (λ p. equal e.0 p.0), AllNew-empty es)

  pub any-refill_pairs :
      (P : Bytes × A → Bool) (es : List (Bytes × A)) (c : k.Carrier)
      → IsDistinct es
      → AllNew es c
      → any P (k.elements (refill k es c)) ≡ (any P es || any P (k.elements c))
  any-refill_pairs P [] c d n = refl
  any-refill_pairs P ((key, x) ∷ es) c d n =
      any-refill_pairs P es (k.add c (key, x)) d.1 (AllNew-add key x es c n.0 d.0 n.1)
      ∙ rw (h.any-add P c key x n.0) (or_swap (any P es) (P (key, x)) _)
