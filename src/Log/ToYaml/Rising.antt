-- ===== src/Log/ToYaml/Rising.antt =====
-- The order of the manager's map.
use chord_server.Prelude.{
  less_total, ℕ, true, ◌≡◌, sym, subst, [], ◌∷◌, Bytes, equal, equal_iff, less, less_trans, All,
  Bool-cases, inl, inr, arith,
}
use chord_server.Log.Manager.{LoggerMap, insert}

-- The keys rise along the map.
abbrev pub Above : Bytes → LoggerMap → Type 0
Above name = All (λ e. less name e.0 ≡ true)

abbrev pub IsRising : LoggerMap → Type 0
IsRising [] = Unit
IsRising ((key, l) ∷ m) = Above key m × IsRising m

Above-trans : (a b : Bytes) (m : LoggerMap) → less a b ≡ true → Above b m → Above a m
Above-trans a b [] h x = tt
Above-trans a b ((key, l) ∷ m) h x = (less_trans a b key h x.0, Above-trans a b m h x.1)

insert-Above :
    (a name : Bytes) (l : ℕ) (m : LoggerMap)
    → less a name ≡ true
    → Above a m
    → Above a (insert name l m)
unfolding insert
insert-Above a name l [] h x = (h, tt)
insert-Above a name l ((key, k) ∷ m) h x = ground (arith, insert-Above a name l m h x.1)

pub insert-IsRising :
    (name : Bytes) (l : ℕ) (m : LoggerMap) → IsRising m → IsRising (insert name l m)
unfolding insert
insert-IsRising name l [] h = (tt, tt)
insert-IsRising name l ((key, k) ∷ m) h = elim (Bool-cases (equal key name)) [
  | inl e ↦ rw e h
  | inr e ↦ elim (Bool-cases (less name key)) [
    | inl f ↦ rw (e, f) ((f, Above-trans name key m f h.0), h)
    | inr f ↦
        rw (e, f)
          (insert-Above key name l m (less_total name key f e) h.0, insert-IsRising name l m h.1)
  ]
]

pub insert-All :
    (P : Bytes × ℕ → Type 0) (name : Bytes) (l : ℕ) (m : LoggerMap)
    → P (name, l)
    → All P m
    → All P (insert name l m)
unfolding insert
insert-All P name l [] p h = (p, tt)
insert-All P name l ((key, k) ∷ m) p h = elim (Bool-cases (equal key name)) [
  | inl e ↦ rw e (subst (λ t. P (t, l)) (sym ((equal_iff key name).0 e)) p, h.1)
  | inr e ↦ elim (Bool-cases (less name key)) [
    | inl f ↦ rw (e, f) (p, h)
    | inr f ↦ rw (e, f) (h.0, insert-All P name l m p h.1)
  ]
]
