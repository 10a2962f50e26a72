-- ===== src/Config/Members.antt =====
-- ListAllMember of chord/config.cpp.
pub mod Keys
pub mod Complete
use chord_server.Prelude.{
  ℕ, zero, suc, Bool, true, false, not, List, [], ◌∷◌, ◌++◌, Option, none, some, if◌then◌else◌,
  is_empty, Bytes, codes,
}
use chord_server.Config.Names.{is_name}
use chord_server.Config.Yaml.{Yaml}

module _ (yaml : Yaml) where
  open yaml use {Node, is_map, scalar, entries}

  -- The output list, and the prefixes that the log reports as invalid names.
  pub record Listing : Type 0 where
    pub output : List (Bytes × Node)
    pub invalid : List Bytes

  -- `prefix.empty() ? key : prefix + "." + key`
  abbrev pub join : Bytes → Bytes → Bytes
  join pfx key = if is_empty pfx then key else pfx ++ (codes "." ++ key)

  -- The loop over the entries of a map, given the recursive call.
  unfoldable pub list_entries :
      (Bytes → Node → Listing → Option Listing)
      → Bytes
      → List (Node × Node)
      → Listing
      → Option Listing
  list_entries visit pfx [] out = some out
  list_entries visit pfx ((k, v) ∷ es) out = elim (visit (join pfx (scalar k)) v out) [
    | none ↦ none
    | some out' ↦ list_entries visit pfx es out'
  ]

  -- `ListAllMember`; `none` means that the fuel ran out.
  unfoldable pub list_all_member : ℕ → Bytes → Node → Listing → Option Listing
  list_all_member zero pfx node out = none
  list_all_member (suc fuel) pfx node out =
      let listed = record out { output = out.output ++ (pfx, node) ∷ [] } in
      let below = list_entries (list_all_member fuel) pfx (entries node) listed in
      if not (is_name pfx)
      then some (record out { invalid = out.invalid ++ pfx ∷ [] })
      else if is_map node
      then below
      else some listed
