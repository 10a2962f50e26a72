-- ===== src/Config/Tests.antt =====
-- A document of one map and its variables, and a registry that makes and finds one.
use chord_server.Prelude.{
  if◌then◌else◌, all, ℕ, suc, ◌+◌, ◌<◌, Bool, true, false, not, ◌≡◌, refl, List, [], ◌∷◌, Option,
  none, some, Bytes, codes, equal, All, arith,
}
use chord_server.Config.Names.{is_name}
use chord_server.Config.Names.Letters.{is_allowed}
use chord_server.Config.Yaml.{Yaml}
use chord_server.Config.Members.{list_all_member, list_entries}
use chord_server.Config.Members.Keys.{empty_listing}
use chord_server.Config.Members.Complete.{ListsExactly, list_all_member_exactly}
use chord_server.Config.Registry.{
  Handle, Registry, found, invalid_argument, find, lookup_or_create, lookup, lookup_base,
  load_members, load_from_yaml,
}
use chord_server.Config.Registry.Loads.{answer, lookup_or_create_lem, lookup_or_create-allowed}
use chord_server.Config.Registry.Settings.{SetsExactly, load_from_yaml_exactly}

-- A text, the end of a map, or an entry before the rest of a map.
data Doc : Type 0 where
  scalar_doc : Bytes → Doc
  empty_map : Doc
  entry : Bytes → Doc → Doc → Doc

abbrev is_map_doc : Doc → Bool
is_map_doc (scalar_doc s) = false
is_map_doc empty_map = true
is_map_doc (entry k v rest) = true

abbrev scalar_of : Doc → Bytes
scalar_of (scalar_doc s) = s
scalar_of _ = []

abbrev entries_of : Doc → List (Doc × Doc)
entries_of (scalar_doc s) = []
entries_of empty_map = []
entries_of (entry k v rest) = (scalar_doc k, v) ∷ entries_of rest

abbrev depth_of : Doc → ℕ
depth_of (scalar_doc s) = 0
depth_of empty_map = 0
depth_of (entry k v rest) = suc (depth_of v) + depth_of rest

entries_below :
    (bound : ℕ) (d : Doc)
    → depth_of d < suc bound
    → All (λ (e : Doc × Doc). depth_of e.1 < bound) (entries_of d)
entries_below bound (scalar_doc s) h = tt
entries_below bound empty_map h = tt
entries_below bound (entry k v rest) h = (omega arith, entries_below bound rest (omega arith))

abbrev docs : Yaml
docs = record {
  Node = Doc;
  is_map = is_map_doc;
  is_scalar = λ d. not (is_map_doc d);
  scalar = scalar_of;
  text = scalar_of;
  entries = entries_of;
  depth = depth_of;
  entries-depth = λ d. entries_below (depth_of d) d (omega arith);
}

-- log: { name: "main", Level: "x" }
abbrev document : Doc
document =
    entry (codes "log")
      (entry (codes "name") (scalar_doc (codes "main"))
        (entry (codes "Level") (scalar_doc (codes "x")) empty_map))
      empty_map

list_all_member_exactly_example :
    ListsExactly docs document (list_all_member docs 9 [] document (empty_listing docs))
list_all_member_exactly_example = list_all_member_exactly docs document 9 (omega arith)

abbrev registry : Registry
registry = record {
  table = (codes "log.name", record { place = 0; type_id = 7 }) ∷ [];
  own_name = λ i. codes "log.name";
  next = 1;
}

load_from_yaml_exactly_example :
    SetsExactly docs document registry (load_from_yaml docs 9 registry document)
load_from_yaml_exactly_example = load_from_yaml_exactly docs document registry 9 (omega arith)

document_calls : load_from_yaml docs 9 registry document ≡ some ((0, codes "main") ∷ [])
unfolding load_from_yaml list_all_member list_entries load_members lookup_base find is_name
document_calls = refl

lookup_or_create-allowed_example :
    (lookup_or_create registry (codes "thread.id") 7).1
    ≡ (if all is_allowed (codes "thread.id") then found registry.next else invalid_argument)
unfolding find
lookup_or_create-allowed_example = lookup_or_create-allowed registry (codes "thread.id") 7 refl

refused : all is_allowed (codes "thread.id") ≡ false
refused = refl

lookup_or_create_lem_example :
    let (r', a) = lookup_or_create registry (codes "port") 7 in
    (a ≡ answer registry (codes "port") 7 none)
    × ((other : Bytes)
        → equal (codes "port") other ≡ false
        → find other r'.table ≡ find other registry.table)
    × ((h : Handle) → find (codes "port") registry.table ≡ some h → r' ≡ registry)
    × ((place : ℕ)
        → a ≡ found place
        → (lookup r' (codes "port") 7 ≡ some place) × (lookup_base r' (codes "port") ≡ some place))
unfolding find
lookup_or_create_lem_example = lookup_or_create_lem registry (codes "port") 7

-- A conversion that takes one character.
abbrev one_digit : Bytes → Option ℕ
one_digit (c ∷ []) = some c
one_digit _ = none
