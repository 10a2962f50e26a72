-- ===== src/Log/Definition/Order.antt =====
-- The order of a std::set<LogDefine>.
use chord_server.Prelude.{
  true, ◌≡◌, refl, [], ◌∷◌, ◌++◌, Bytes, less, All, Bool-cases, less_asym, less_trans, inl, inr,
  arith,
}
use chord_server.Log.Definition.{LogDefine, LogDefines, insert_define}

-- The names rise along the set.
abbrev pub Above : Bytes → LogDefines → Type 0
Above name = All (λ e. less name e.name ≡ true)

abbrev pub IsOrdered : LogDefines → Type 0
IsOrdered [] = Unit
IsOrdered (d ∷ ds) = Above d.name ds × IsOrdered ds

-- Every name of the one set is less than every name of the other.
abbrev pub Before : LogDefines → LogDefines → Type 0
Before es ds = All (λ e. Above e.name ds) es

pub insert_define-last :
    (d : LogDefine) (es : LogDefines)
    → All (λ e. less e.name d.name ≡ true) es
    → insert_define d es ≡ es ++ d ∷ []
unfolding insert_define
insert_define-last d [] h = refl
insert_define-last d (e ∷ es) h =
    ground (arith, less_asym e.name d.name h.0, insert_define-last d es h.1)

pub Before-head :
    (d : LogDefine) (es ds : LogDefines)
    → Before es (d ∷ ds)
    → All (λ e. less e.name d.name ≡ true) es × Before es ds
Before-head d [] ds h = (tt, tt)
Before-head d (e ∷ es) ds (x, h) = let (a, c) = Before-head d es ds h in ((x.0, a), (x.1, c))

pub Before-snoc :
    (d : LogDefine) (es ds : LogDefines) → Before es ds → Above d.name ds → Before (es ++ d ∷ []) ds
Before-snoc d [] ds h a = (a, tt)
Before-snoc d (e ∷ es) ds h a = (h.0, Before-snoc d es ds h.1 a)

Above-trans : (a b : Bytes) (ds : LogDefines) → less a b ≡ true → Above b ds → Above a ds
Above-trans a b [] h x = tt
Above-trans a b (d ∷ ds) h x = (less_trans a b d.name h x.0, Above-trans a b ds h x.1)

insert_define-Above :
    (name : Bytes) (d : LogDefine) (ds : LogDefines)
    → less name d.name ≡ true
    → Above name ds
    → Above name (insert_define d ds)
unfolding insert_define
insert_define-Above name d [] h x = (h, tt)
insert_define-Above name d (e ∷ es) h x = ground (arith, insert_define-Above name d es h x.1)

-- Inserting keeps the order.
pub insert_define-IsOrdered :
    (d : LogDefine) (ds : LogDefines) → IsOrdered ds → IsOrdered (insert_define d ds)
unfolding insert_define
insert_define-IsOrdered d [] h = (tt, tt)
insert_define-IsOrdered d (e ∷ es) h = elim (Bool-cases (less d.name e.name)) [
  | inl a ↦ rw a ((a, Above-trans d.name e.name es a h.0), h)
  | inr a ↦ elim (Bool-cases (less e.name d.name)) [
    | inl c ↦ rw (a, c) (insert_define-Above e.name d es c h.0, insert_define-IsOrdered d es h.1)
    | inr c ↦ rw (a, c) h
  ]
]
