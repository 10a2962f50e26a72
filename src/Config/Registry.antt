-- ===== src/Config/Registry.antt =====
-- Config of chord/config.h and chord/config.cpp: the table of variables by name, and loading.
pub mod Loads
pub mod Settings
use chord_server.Prelude.{
  ℕ, zero, suc, ◌+◌, Bool, true, false, not, List, [], ◌∷◌, ◌++◌, map, Option, none, some, ◌==◌,
  if◌then◌else◌, is_empty, Bytes, equal, tolower,
}
use chord_server.Config.Names.{is_name}
use chord_server.Config.Yaml.{Yaml}
use chord_server.Config.Members.{Listing, list_all_member}
use chord_server.Config.Members.Keys.{empty_listing}

-- A `ConfigVarBase::ptr`: the place of a variable, and the dynamic type that `typeid` and
-- `dynamic_pointer_cast` see.
pub record Handle : Type 0 where
  pub place : ℕ
  pub type_id : ℕ

-- `GetDatas()`, with the name that each variable keeps and the next free place. The order of an
-- unordered map is of no account here.
pub record Registry : Type 0 where
  pub table : List (Bytes × Handle)
  pub own_name : ℕ → Bytes
  pub next : ℕ

unfoldable pub find : Bytes → List (Bytes × Handle) → Option Handle
find name [] = none
find name ((key, h) ∷ t) = if equal key name then some h else find name t

-- What `Lookup` with a default does: it returns a variable that exists or is new, or a null pointer
-- if the types differ, or throws.
pub data Found : Type 0 where
  found : ℕ → Found
  null_pointer : Found
  invalid_argument : Found

create : Registry → Bytes → ℕ → Registry × Found
create r name type_id = if not (is_name name) then (r, invalid_argument) else (
  record {
    table = (name, record { place = r.next; type_id = type_id }) ∷ r.table;
    own_name = λ i. if i == r.next then map tolower name else r.own_name i;
    next = suc r.next;
  },
  found r.next,
)

lookup_found : Registry → Bytes → ℕ → Option Handle → Registry × Found
lookup_found r name type_id none = create r name type_id
lookup_found r name type_id (some h) =
    if h.type_id == type_id then (r, found h.place) else (r, null_pointer)

-- `Lookup(name, default_value, description)` at the type with the given id.
unfoldable pub lookup_or_create : Registry → Bytes → ℕ → Registry × Found
unfolding create lookup_found
lookup_or_create r name type_id = lookup_found r name type_id (find name r.table)

-- `Lookup(name)`: a null pointer if there is none, or its type differs.
unfoldable pub lookup : Registry → Bytes → ℕ → Option ℕ
lookup r name type_id = elim (find name r.table) [
  | none ↦ none
  | some h ↦ if h.type_id == type_id then some h.place else none
]

-- `LookupBase`
unfoldable pub lookup_base : Registry → Bytes → Option ℕ
lookup_base r name = elim (find name r.table) [ none ↦ none | some h ↦ some h.place ]

-- `Visit`, for a callback that changes a state.
unfoldable pub visit {ℓ} : {S : Type ℓ} → (ℕ → S → S) → List (Bytes × Handle) → S → S
visit cb [] s = s
visit cb ((key, h) ∷ t) s = visit cb t (cb h.place s)

module _ (yaml : Yaml) where
  open yaml use {Node, is_scalar, scalar, text}

  -- The loop of `LoadFromYaml`, as the calls of `fromString` that it makes, in order: the place of
  -- the variable and the text.
  unfoldable pub load_members : Registry → List (Bytes × Node) → List (ℕ × Bytes)
  load_members r [] = []
  load_members r ((key, node) ∷ ms) =
      let rest = load_members r ms in
      if is_empty key then rest else elim (lookup_base r (map tolower key)) [
        | none ↦ rest
        | some var ↦ (var, if is_scalar node then scalar node else text node) ∷ rest
      ]

  -- `LoadFromYaml`; `none` means that the fuel ran out.
  unfoldable pub load_from_yaml : ℕ → Registry → Node → Option (List (ℕ × Bytes))
  load_from_yaml fuel r root = elim (list_all_member yaml fuel [] root (empty_listing yaml)) [
    | none ↦ none
    | some out ↦ some (load_members r out.output)
  ]
