-- ===== src/Config/Registry/Settings.antt =====
-- LoadFromYaml sets every variable that a document names.
use mathlib.Core.Option.{some-injective}
use mathlib.Core.List.{Memᴰ}
use mathlib.Core.List.Memᴰ.{head, tail}
use chord_server.Prelude.{
  All-at, ℕ, ◌<◌, false, ◌≡◌, ◌↔◌, refl, sym, subst, ap, ◌∙◌, List, [], ◌∷◌, map, Option, some,
  if◌then◌else◌, is_empty, Bytes, tolower, Bool-cases, Option-cases, inl, inr,
}
use chord_server.Config.Names.Letters.{map-tolower_name}
use chord_server.Config.Yaml.{Yaml}
use chord_server.Config.Members.Keys.{IsMember-is_name}
use chord_server.Config.Members.Complete.{list_all_member_exactly}
use chord_server.Config.Registry.{Registry, lookup_base, load_members, load_from_yaml}
use chord_server.Config.Registry.Loads.{IsSetting, load_from_yaml-IsSetting}

-- The text that a node sets.
abbrev pub setting : (yaml : Yaml) → yaml.Node → Bytes
setting yaml node = if yaml.is_scalar node then yaml.scalar node else yaml.text node

module _ (yaml : Yaml) (r : Registry) where
  load_members-sets :
      {key : Bytes} {node : yaml.Node} (place : ℕ) (ms : List (Bytes × yaml.Node))
      → is_empty key ≡ false
      → lookup_base r (map tolower key) ≡ some place
      → Memᴰ (key, node) ms
      → Memᴰ (place, setting yaml node) (load_members yaml r ms)
  unfolding load_members
  load_members-sets place [] e f m = elim m [ ]
  load_members-sets {key} {node} place ((k, n) ∷ ms) e f (head same) =
      let k_same : key ≡ k = ap (λ x. x.0) same in
      let n_same : node ≡ n = ap (λ x. x.1) same in
      rw (sym k_same, e, f) (head (ap (λ x. (place, setting yaml x)) n_same))
  load_members-sets place ((k, n) ∷ ms) e f (tail m) =
      let rest = load_members-sets place ms e f m in
      elim (Bool-cases (is_empty k)) [
        | inl empty ↦ rw empty rest
        | inr full ↦ elim (Option-cases (lookup_base r (map tolower k))) [
          | inl gone ↦ rw (full, gone) rest
          | inr (other, there) ↦ rw (full, there) (tail rest)
        ]
      ]

-- What loading a document calls.
abbrev pub SetsExactly : (yaml : Yaml) → yaml.Node → Registry → Option (List (ℕ × Bytes)) → Type 0
SetsExactly yaml root r result =
    (calls : List (ℕ × Bytes)) × (result ≡ some calls)
    × ((call : ℕ × Bytes) → Memᴰ call calls ↔ IsSetting yaml root r call)

-- Loading a finite document ends, and the calls of `fromString` that it makes are exactly those of
-- the variables that the non-empty dotted paths of its nodes name, all prefixes of which are valid
-- names, each with its node's text.
pub load_from_yaml_exactly :
    (yaml : Yaml) (root : yaml.Node) (r : Registry) (fuel : ℕ)
    → yaml.depth root < fuel
    → SetsExactly yaml root r (load_from_yaml yaml fuel r root)
unfolding load_from_yaml
load_from_yaml_exactly yaml root r fuel d =
    let (out, e, exactly) = list_all_member_exactly yaml root fuel d in
    let (calls, e', all) = load_from_yaml-IsSetting yaml root r fuel d in
    let made : load_from_yaml yaml fuel r root ≡ some (load_members yaml r out.output) =
      rw (load_from_yaml, e) refl in
    let same : load_members yaml r out.output ≡ calls =
      some-injective (load_members yaml r out.output) calls (sym made ∙ e') in
    (
      calls,
      e',
      λ call. (
        All-at (IsSetting yaml root r) calls all,
        λ (path, node, i, full, there, is_text).
            let lowered : lookup_base r (map tolower path) ≡ some call.0 =
              subst (λ n. lookup_base r n ≡ some call.0)
                (sym (map-tolower_name path (IsMember-is_name yaml i))) there in
            subst (λ t. Memᴰ (call.0, t) calls) (sym is_text)
              (subst (Memᴰ (call.0, setting yaml node)) same (
                load_members-sets yaml r call.0 out.output full lowered ((exactly path node).1 i))),
      ),
    )
