-- ===== src/Config/Conversion.antt =====
-- LexicalCast of chord/config.h for the containers of the standard library.
pub mod Refills
pub mod RoundTrip
pub mod Maps
mod Tests
use chord_server.Prelude.{
  ◌>>=◌, Bool, List, [], ◌∷◌, ◌++◌, Option, none, some, if◌then◌else◌, Bytes, less,
}
use chord_server.Config.Yaml.{Yaml, Builder}

-- LexicalCast<std::string, A> and LexicalCast<A, std::string>: `none` where they throw.
pub record LexicalCast (A : Type 0) : Type 0 where
  pub from_string : Bytes → Option A
  pub to_string : A → Option Bytes

-- What the conversions use of a container: how it starts, how an element comes in (`push_back` or
-- `insert`), and the elements from `begin()` to `end()`.
pub record Container (A : Type 0) : Type 1 where
  pub Carrier : Type 0
  pub empty : Carrier
  pub add : Carrier → A → Carrier
  pub elements : Carrier → List A

-- std::vector and std::list.
abbrev pub sequence : (A : Type 0) → Container A
sequence A = record {
  Carrier = List A;
  empty = [];
  add = λ xs x. xs ++ x ∷ [];
  elements = λ xs. xs;
}

-- An element goes to its place by `below`, unless an equivalent one is there.
abbrev pub insert_by : {A : Type 0} → (A → A → Bool) → A → List A → List A
insert_by below x [] = x ∷ []
insert_by below x (y ∷ ys) =
    if below x y then x ∷ y ∷ ys else if below y x then y ∷ insert_by below x ys else y ∷ ys

-- std::set under `below`, and std::map, whose pairs stand in the order of their keys.
abbrev pub ordered : {A : Type 0} → (A → A → Bool) → Container A
ordered {A} below = record {
  Carrier = List A;
  empty = [];
  add = λ xs x. insert_by below x xs;
  elements = λ xs. xs;
}

abbrev pub key_less : {A : Type 0} → Bytes × A → Bytes × A → Bool
key_less p q = less p.0 q.0

module _ (yaml : Yaml) (b : Builder yaml) {A : Type 0} (cast : LexicalCast A) where
  open yaml use {Node, text}
  open b use {load, items, pairs, null, push_back, assign}

  -- The loop over `node[i]`.
  unfoldable pub read_items : (k : Container A) → List Node → k.Carrier → Option k.Carrier
  read_items k [] c = some c
  read_items k (n ∷ ns) c = do x ← cast.from_string (text n); read_items k ns (k.add c x)

  unfoldable pub read_all : (k : Container A) → Bytes → Option k.Carrier
  unfolding read_items
  read_all k v = do node ← load v; read_items k (items node) k.empty

  -- The loop over the elements.
  unfoldable pub write_items : Node → List A → Option Node
  write_items n [] = some n
  write_items n (x ∷ xs) = do s ← cast.to_string x; item ← load s; write_items (push_back n item) xs

  unfoldable pub write_all : (k : Container A) → k.Carrier → Option Bytes
  unfolding write_items
  write_all k c = do node ← write_items null (k.elements c); some (text node)

  abbrev pub vector_cast : LexicalCast (List A)
  vector_cast = record { from_string = read_all (sequence A); to_string = write_all (sequence A) }

  abbrev pub list_cast : LexicalCast (List A)
  list_cast = record { from_string = read_all (sequence A); to_string = write_all (sequence A) }

  abbrev pub set_cast : (A → A → Bool) → LexicalCast (List A)
  set_cast below = record {
    from_string = read_all (ordered below);
    to_string = write_all (ordered below);
  }

  -- A std::unordered_set puts its elements in an order of its own.
  abbrev pub unordered_set_cast : (k : Container A) → LexicalCast k.Carrier
  unordered_set_cast k = record { from_string = read_all k; to_string = write_all k }

  -- The loop over the pairs of the node.
  unfoldable pub read_pairs :
      (k : Container (Bytes × A)) → List (Bytes × Node) → k.Carrier → Option k.Carrier
  read_pairs k [] c = some c
  read_pairs k ((key, n) ∷ es) c = do
    x ← cast.from_string (text n)
    read_pairs k es (k.add c (key, x))

  unfoldable pub read_map : (k : Container (Bytes × A)) → Bytes → Option k.Carrier
  unfolding read_pairs
  read_map k v = do node ← load v; es ← pairs node; read_pairs k es k.empty

  -- The loop over the pairs of the container.
  unfoldable pub write_pairs : Node → List (Bytes × A) → Option Node
  write_pairs n [] = some n
  write_pairs n ((key, x) ∷ xs) = do
    s ← cast.to_string x
    value ← load s
    write_pairs (assign n key value) xs

  unfoldable pub write_map : (k : Container (Bytes × A)) → k.Carrier → Option Bytes
  unfolding write_pairs
  write_map k c = do node ← write_pairs null (k.elements c); some (text node)

  abbrev pub map_cast : LexicalCast (List (Bytes × A))
  map_cast = record {
    from_string = read_map (ordered key_less);
    to_string = write_map (ordered key_less);
  }

  -- As for std::unordered_set.
  abbrev pub unordered_map_cast : (k : Container (Bytes × A)) → LexicalCast k.Carrier
  unordered_map_cast k = record { from_string = read_map k; to_string = write_map k }
