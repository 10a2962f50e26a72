-- ===== src/Config/Registry/Loads.antt =====
-- Names and types of variables, and what loading a document sets.
use chord_server.Prelude.{
  all, ◌∙◌, ℕ, ◌<◌, false, ◌≡◌, refl, subst, inl, inr, List, [], ◌∷◌, map, Option, none, some, ◌==◌,
  if◌then◌else◌, is_empty, Bytes, equal, equal_refl, tolower, All, arith, Bool-cases, Option-cases,
}
use chord_server.Config.Names.{is_name}
use chord_server.Config.Names.Letters.{is_allowed, is_name-allowed, map-tolower_name}
use chord_server.Config.Yaml.{Yaml}
use chord_server.Config.Members.Keys.{IsMember, AllMembers, IsMember-is_name, list_all_member-Lists}
use chord_server.Config.Registry.{
  Handle, Registry, Found, found, null_pointer, invalid_argument, find, create, lookup_found,
  lookup_or_create, lookup, lookup_base, load_members, load_from_yaml,
}

-- What a call of `Lookup` with a default must answer for a name that is bound, or not.
abbrev pub answer : Registry → Bytes → ℕ → Option Handle → Found
answer r name t (some h) = if h.type_id == t then found h.place else null_pointer
answer r name t none = if is_name name then found r.next else invalid_argument

-- The answer of `Lookup` with a default is the bound variable, a null pointer for one of another
-- type, a new variable for an unbound valid name, and an exception for an invalid one; no other
-- name is touched, a bound name keeps its variable, and if a variable is answered then `Lookup`
-- without a default and `LookupBase` find it from then on.
pub lookup_or_create_lem :
    (r : Registry) (name : Bytes) (t : ℕ)
    → let (r', a) = lookup_or_create r name t in
      (a ≡ answer r name t (find name r.table))
      × ((other : Bytes) → equal name other ≡ false → find other r'.table ≡ find other r.table)
      × ((h : Handle) → find name r.table ≡ some h → r' ≡ r)
      × ((place : ℕ)
          → a ≡ found place
          → (lookup r' name t ≡ some place) × (lookup_base r' name ≡ some place))
unfolding lookup_or_create lookup_found create lookup lookup_base find
lookup_or_create_lem r name t = elim (Option-cases (find name r.table)) [
  | inl e ↦ elim (Bool-cases (is_name name)) [
    | inl good ↦
        rw (e, good)
          (
            refl,
            (λ o x. rw x refl),
            (λ h x. ground arith),
            λ place x. ground (arith, equal_refl name),
          )
    | inr bad ↦ rw (e, bad) (refl, (λ o x. refl), (λ h x. refl), λ place x. ground arith)
  ]
  | inr (h, e) ↦ elim (Bool-cases (h.type_id == t)) [
    | inl same ↦ rw (e, same) (refl, (λ o x. refl), (λ g x. refl), λ place x. ground arith)
    | inr differ ↦ rw (e, differ) (refl, (λ o x. refl), (λ g x. refl), λ place x. ground arith)
  ]
]

-- `Lookup` with a default, of a name that no variable has, answers a new variable exactly if each
-- character of the name is a lower case letter, a digit, '.' or '_', and none is 'd' or '9'; for
-- any other name it throws.
pub lookup_or_create-allowed :
    (r : Registry) (name : Bytes) (t : ℕ)
    → find name r.table ≡ none
    → (lookup_or_create r name t).1
      ≡ (if all is_allowed name then found r.next else invalid_argument)
lookup_or_create-allowed r name t h =
    (lookup_or_create_lem r name t).0 ∙ rw (h, is_name-allowed name) refl

module _ (yaml : Yaml) (root : yaml.Node) (r : Registry) where
  -- A call of `fromString` that loading must make: for a member with a valid, non-empty path, of
  -- the variable that this path names as it stands, with the member's text.
  abbrev pub IsSetting : ℕ × Bytes → Type 0
  IsSetting (place, text) =
      (path : Bytes) × (node : yaml.Node) × IsMember yaml root path node
      × (is_empty path ≡ false)
      × (lookup_base r path ≡ some place)
      × (text ≡ (if yaml.is_scalar node then yaml.scalar node else yaml.text node))

  load_members-All :
      (ms : List (Bytes × yaml.Node))
      → AllMembers yaml root ms
      → All IsSetting (load_members yaml r ms)
  unfolding load_members
  load_members-All [] h = tt
  load_members-All ((key, node) ∷ ms) (m, h) = elim (Bool-cases (is_empty key)) [
    | inl e ↦ rw e (load_members-All ms h)
    | inr e ↦ elim (Option-cases (lookup_base r (map tolower key))) [
      | inl gone ↦ rw (e, gone) (load_members-All ms h)
      | inr (place, there) ↦
          rw (e, there)
            (
              (
                key,
                node,
                m,
                e,
                subst (λ n. lookup_base r n ≡ some place)
                    (map-tolower_name key (IsMember-is_name yaml m)) there,
                refl,
              ),
              load_members-All ms h,
            )
    ]
  ]

module _ (yaml : Yaml) where
  -- Loading a finite document ends, and every call of `fromString` that it makes is for a node
  -- whose dotted path, as it stands, is a valid non-empty name of a variable of the registry; that
  -- variable is the one set, from the node's text.
  pub load_from_yaml-IsSetting :
      (root : yaml.Node) (r : Registry) (fuel : ℕ)
      → yaml.depth root < fuel
      → (calls : List (ℕ × Bytes)) × (load_from_yaml yaml fuel r root ≡ some calls)
        × All (IsSetting yaml root r) calls
  unfolding load_from_yaml
  load_from_yaml-IsSetting root r fuel d =
      let (out, e, h) = list_all_member-Lists yaml root fuel d in
      rw (load_from_yaml, e)
        (load_members yaml r out.output, refl, load_members-All yaml root r out.output h)
