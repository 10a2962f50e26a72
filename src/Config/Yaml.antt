-- ===== src/Config/Yaml.antt =====
-- What the configuration component uses of yaml-cpp: a parameter of the model.
pub mod Sample
use chord_server.Prelude.{
  ℕ, ◌<◌, Bool, ◌≡◌, List, [], ◌∷◌, ◌++◌, Option, none, some, if◌then◌else◌, Bytes, equal, All,
}

-- Nodes as the library shows them. A tree read from a text is finite: the nodes under a map are of
-- smaller depth.
pub record Yaml : Type 1 where
  pub Node : Type 0
  pub is_map : Node → Bool
  pub is_scalar : Node → Bool
  -- `Scalar()`, and `ss << node`
  pub scalar : Node → Bytes
  pub text : Node → Bytes
  -- the pairs from `begin()` to `end()`
  pub entries : Node → List (Node × Node)
  pub depth : Node → ℕ
  pub entries-depth : (n : Node) → All (λ e. depth e.1 < depth n) (entries n)

-- How documents are read and written. `load` throws where it is `none`; `items` are the nodes
-- `node[0]` to `node[node.size() - 1]`; `pairs` are `it->first.Scalar()` and `it->second` from
-- `begin()` to `end()`, or `none` where the items are no pairs, which throws; `get` is `node[key]`,
-- which throws where it is `none`, and otherwise is a node or one that is not `IsDefined()`;
-- `as_text` is `as<std::string>()`, which throws where it is `none`; `null` is a fresh
-- `YAML::Node`, `of_text` one that a text is assigned to, and `assign` is `node[key] = value`.
pub record Builder (yaml : Yaml) : Type 0 where
  pub load : Bytes → Option yaml.Node
  pub items : yaml.Node → List yaml.Node
  pub pairs : yaml.Node → Option (List (Bytes × yaml.Node))
  pub get : yaml.Node → Bytes → Option (Option yaml.Node)
  pub as_text : yaml.Node → Option Bytes
  pub null : yaml.Node
  pub of_text : Bytes → yaml.Node
  pub push_back : yaml.Node → yaml.Node → yaml.Node
  pub assign : yaml.Node → Bytes → yaml.Node → yaml.Node

-- What the conversions rely on: a sequence holds what was pushed, a map what was assigned last to a
-- key, in the order of the first assignments, a map's subscript does not throw, and a document that
-- was written is read back. `IsMap` and `IsSequence` hold of a fresh node too, which becomes what
-- it is used as.
pub record Laws (yaml : Yaml) (b : Builder yaml) : Type 1 where
  pub IsMap : yaml.Node → Type 0
  pub IsSequence : yaml.Node → Type 0
  pub null-IsMap : IsMap b.null
  pub null-IsSequence : IsSequence b.null
  pub get-null : (key : Bytes) → b.get b.null key ≡ some none
  pub get-IsMap :
      (n : yaml.Node) (key : Bytes)
      → IsMap n
      → (found : Option yaml.Node) × (b.get n key ≡ some found)
  pub items-null : b.items b.null ≡ []
  pub assign-IsMap : (n v : yaml.Node) (key : Bytes) → IsMap n → IsMap (b.assign n key v)
  pub get-assign :
      (n v : yaml.Node) (key k : Bytes)
      → IsMap n
      → b.get (b.assign n key v) k ≡ (if equal key k then some (some v) else b.get n k)
  pub push_back-IsSequence : (n x : yaml.Node) → IsSequence n → IsSequence (b.push_back n x)
  pub items-push_back :
      (n x : yaml.Node) → IsSequence n → b.items (b.push_back n x) ≡ b.items n ++ x ∷ []
  pub pairs-null : b.pairs b.null ≡ some []
  pub pairs-assign :
      (n v : yaml.Node) (key : Bytes) (es : List (Bytes × yaml.Node))
      → IsMap n
      → b.get n key ≡ some none
      → b.pairs n ≡ some es
      → b.pairs (b.assign n key v) ≡ some (es ++ (key, v) ∷ [])
  pub as_text-of_text : (s : Bytes) → b.as_text (b.of_text s) ≡ some s
  pub load-text : (n : yaml.Node) → b.load (yaml.text n) ≡ some n
