-- ===== src/Config/Yaml/Sample.antt =====
-- Documents for the tests: a node is its own text. A sequence is the texts of its items, each
-- behind its length; a map is the sequence of its keys and values in turn.
use chord_server.Prelude.{
  ℕ, zero, suc, ◌<◌, ◌≤◌, true, ◌≡◌, refl, ap, ◌∙◌, List, [], ◌∷◌, ◌++◌, Option, none, some,
  if◌then◌else◌, Bytes, equal, equal_iff, All, length, take, drop, take-append, drop-append,
  length-append, arith,
}
use chord_server.Config.Yaml.{Yaml, Builder, Laws}

unfoldable pub encode : List Bytes → Bytes
encode [] = []
encode (x ∷ xs) = length x ∷ (x ++ encode xs)

unfoldable pub decode : ℕ → Bytes → List Bytes
decode zero xs = []
decode (suc fuel) [] = []
decode (suc fuel) (k ∷ xs) = take k xs ∷ decode fuel (drop k xs)

decode-encode :
    (fuel : ℕ) (xs : List Bytes) → length (encode xs) ≤ fuel → decode fuel (encode xs) ≡ xs
unfolding encode decode
decode-encode zero [] h = refl
decode-encode zero (x ∷ xs) h = ground arith
decode-encode (suc fuel) [] h = refl
decode-encode (suc fuel) (x ∷ xs) h =
    rw (take-append x (encode xs), drop-append x (encode xs))
      (ap (λ r. x ∷ r) (decode-encode fuel xs (omega (arith, h, length-append x (encode xs)))))

length-take_le : (k : ℕ) (xs : Bytes) → length (take k xs) ≤ length xs
length-take_le zero xs = omega arith
length-take_le (suc k) [] = omega arith
length-take_le (suc k) (x ∷ xs) = omega (arith, length-take_le k xs)

length-drop_le : (k : ℕ) (xs : Bytes) → length (drop k xs) ≤ length xs
length-drop_le zero xs = omega arith
length-drop_le (suc k) [] = omega arith
length-drop_le (suc k) (x ∷ xs) = omega (arith, length-drop_le k xs)

abbrev items_of : Bytes → List Bytes
items_of n = decode (length n) n

items_of-encode : (xs : List Bytes) → items_of (encode xs) ≡ xs
items_of-encode xs = decode-encode (length (encode xs)) xs (omega arith)

abbrev Entries : Type 0
Entries = List (Bytes × Bytes)

abbrev pairs : List Bytes → Entries
pairs [] = []
pairs (k ∷ []) = []
pairs (k ∷ v ∷ r) = (k, v) ∷ pairs r

abbrev flat : Entries → List Bytes
flat [] = []
flat ((k, v) ∷ r) = k ∷ v ∷ flat r

pairs-flat : (r : Entries) → pairs (flat r) ≡ r
pairs-flat [] = refl
pairs-flat ((k, v) ∷ r) = ap (λ q. (k, v) ∷ q) (pairs-flat r)

abbrev look : Bytes → Entries → Option Bytes
look key [] = none
look key ((k, v) ∷ r) = if equal k key then some v else look key r

abbrev put : Bytes → Bytes → Entries → Entries
put key w [] = (key, w) ∷ []
put key w ((k, v) ∷ r) = if equal k key then (k, w) ∷ r else (k, v) ∷ put key w r

look-put :
    (key j w : Bytes) (r : Entries)
    → look j (put key w r) ≡ (if equal key j then some w else look j r)
look-put key j w [] = refl
look-put key j w ((k, v) ∷ r) =
    ground (arith, look-put key j w r, equal_iff k key, equal_iff key j, equal_iff k j)

put-fresh : (key w : Bytes) (r : Entries) → look key r ≡ none → put key w r ≡ r ++ (key, w) ∷ []
put-fresh key w [] h = refl
put-fresh key w ((k, v) ∷ r) h = ground (arith, put-fresh key w r)

decode-Below :
    (bound fuel : ℕ) (n : Bytes)
    → length n ≤ bound
    → All (λ x. length x < suc bound) (decode fuel n)
unfolding decode
decode-Below bound zero n h = tt
decode-Below bound (suc fuel) [] h = tt
decode-Below bound (suc fuel) (k ∷ xs) h = (
  omega (arith, h, length-take_le k xs),
  decode-Below bound fuel (drop k xs) (omega (arith, h, length-drop_le k xs)),
)

pairs-Below :
    (bound : ℕ) (xs : List Bytes)
    → All (λ x. length x < bound) xs
    → All (λ (e : Bytes × Bytes). length e.1 < bound) (pairs xs)
pairs-Below bound [] h = tt
pairs-Below bound (k ∷ []) h = tt
pairs-Below bound (k ∷ v ∷ r) h = (h.1.0, pairs-Below bound r h.1.1)

pub entries-Below :
    (n : Bytes) → All (λ (e : Bytes × Bytes). length e.1 < length n) (pairs (items_of n))
unfolding decode
entries-Below [] = tt
entries-Below (k ∷ xs) = pairs-Below (suc (length xs)) (items_of (k ∷ xs)) (
  omega (arith, length-take_le k xs),
  decode-Below (length xs) (length xs) (drop k xs) (length-drop_le k xs),
)

abbrev entries_of : Bytes → Entries
entries_of n = pairs (items_of n)

abbrev pub texts : Yaml
texts = record {
  Node = Bytes;
  is_map = λ n. true;
  is_scalar = λ n. true;
  scalar = λ n. n;
  text = λ n. n;
  entries = λ n. pairs (items_of n);
  depth = λ n. length n;
  entries-depth = entries-Below;
}

abbrev pub text_builder : Builder texts
text_builder = record {
  load = some;
  items = items_of;
  pairs = λ n. some (pairs (items_of n));
  get = λ n key. some (look key (pairs (items_of n)));
  as_text = some;
  null = [];
  of_text = λ s. s;
  push_back = λ n x. encode (items_of n ++ x ∷ []);
  assign = λ n key v. encode (flat (put key v (pairs (items_of n))));
}

pairs-assign :
    (n v key : Bytes)
    → pairs (items_of (encode (flat (put key v (pairs (items_of n))))))
      ≡ put key v (pairs (items_of n))
pairs-assign n v key =
    ap pairs (items_of-encode (flat (put key v (pairs (items_of n)))))
    ∙ pairs-flat (put key v (pairs (items_of n)))

some-look :
    (key k v n : Bytes) {found : Option Bytes}
    → found ≡ (if equal key k then some v else look k (entries_of n))
    → some found ≡ (if equal key k then some (some v) else some (look k (entries_of n)))
some-look key k v n e = ground (arith, e)

pub text_builder-Laws : Laws texts text_builder
unfolding decode
text_builder-Laws = record {
  IsMap = λ n. Unit;
  IsSequence = λ n. Unit;
  null-IsMap = tt;
  null-IsSequence = tt;
  get-null = λ key. refl;
  get-IsMap = λ n key h. (look key (entries_of n), refl);
  items-null = refl;
  assign-IsMap = λ n v key h. tt;
  get-assign = λ n v key k h.
      some-look key k v n
        (ap (look k) (pairs-assign n v key) ∙ look-put key k v (pairs (items_of n)));
  push_back-IsSequence = λ n x h. tt;
  items-push_back = λ n x h. items_of-encode (items_of n ++ x ∷ []);
  pairs-null = refl;
  pairs-assign = λ n v key es h e p.
      let q : entries_of n ≡ es = ground (arith, p) in
      ap some (
        pairs-assign n v key
        ∙ put-fresh key v (entries_of n) (ground (arith, e))
        ∙ ap (λ r. r ++ (key, v) ∷ []) q);
  as_text-of_text = λ s. refl;
  load-text = λ n. refl;
}
