-- ===== src/Config/Members/Complete.antt =====
-- ListAllMember leaves out no member.
use mathlib.Core.Option.{some-injective}
use mathlib.Core.List.{Memᴰ}
use chord_server.Prelude.{
  ℕ, zero, suc, ◌<◌, true, ◌≡◌, ◌↔◌, append-kept, append-last, All-at, refl, sym, ◌∙◌, List, [],
  ◌∷◌, ◌++◌, Option, some, Bytes, All, arith, Bool-cases, inl, inr,
}
use chord_server.Config.Names.{is_name}
use chord_server.Config.Yaml.{Yaml}
use chord_server.Config.Members.{Listing, join, list_entries, list_all_member}
use chord_server.Config.Members.Keys.{
  Entry, first, later, IsMember, top, child, IsMember-is_name, All-lt, empty_listing,
  list_all_member-Lists,
}

module _ (yaml : Yaml) where
  open yaml use {Node, is_map, scalar, entries, depth, entries-depth}

  -- The members that a visit of a node with a path must list, from the node down.
  data Below : Bytes → Node → Bytes → Node → Type 0 where
    here : {p : Bytes} {n : Node} → is_name p ≡ true → Below p n p n
    under :
        {p q : Bytes} {n m k v : Node}
        → is_name p ≡ true
        → is_map n ≡ true
        → Entry yaml k v (entries n)
        → Below (join yaml p (scalar k)) v q m
        → Below p n q m

  IsMember-Below :
      {root n m : Node} {p q : Bytes} → IsMember yaml root p n → Below p n q m → Below [] root q m
  IsMember-Below (top h) b = b
  IsMember-Below (child i map e good) b = IsMember-Below i (under (IsMember-is_name yaml i) map e b)

  abbrev Listed : Bytes → Node → Listing yaml → Type 0
  Listed q m out = Memᴰ (q, m) out.output

  -- The call ends, keeps what was listed, and lists what it must.
  abbrev Covers : (Bytes → Node → Type 0) → Listing yaml → Option (Listing yaml) → Type 0
  Covers Due out r =
      (out' : Listing yaml) × (r ≡ some out')
      × ((q : Bytes) (m : Node) → Listed q m out → Listed q m out')
      × ((q : Bytes) (m : Node) → Due q m → Listed q m out')

  Visits : ℕ → (Bytes → Node → Listing yaml → Option (Listing yaml)) → Type 0
  Visits fuel visit =
      (p : Bytes) (n : Node) (out : Listing yaml)
      → depth n < fuel
      → Covers (Below p n) out (visit p n out)

  Entry-cases :
      (P : Node → Node → Type 0) {k v j w : Node} {es : List (Node × Node)}
      → P k v
      → ((a b : Node) → Entry yaml a b es → P a b)
      → Entry yaml j w ((k, v) ∷ es)
      → P j w
  Entry-cases P x f first = x
  Entry-cases P x f (later e) = f _ _ e

  -- What the loop over the entries must list.
  DueOfEntries : Bytes → List (Node × Node) → Bytes → Node → Type 0
  DueOfEntries p es q m =
      (k : Node) × (v : Node) × Entry yaml k v es × Below (join yaml p (scalar k)) v q m

  list_entries-Covers :
      (fuel : ℕ) (visit : Bytes → Node → Listing yaml → Option (Listing yaml)) (p : Bytes)
      (es : List (Node × Node)) (out : Listing yaml)
      → Visits fuel visit
      → All (λ e. depth e.1 < fuel) es
      → Covers (DueOfEntries p es) out (list_entries yaml visit p es out)
  unfolding list_entries Visits DueOfEntries
  list_entries-Covers fuel visit p [] out vs ds =
      (out, refl, (λ q m l. l), λ q m (k, v, e, b). elim e [ ])
  list_entries-Covers fuel visit p ((k, v) ∷ es) out vs ds =
      let (mid, e, keep, due) = vs (join yaml p (scalar k)) v out ds.0 in
      let (out', e', keep', due') = list_entries-Covers fuel visit p es mid vs ds.1 in
      rw (e, list_entries)
        (
          out',
          e',
          (λ q m l. keep' q m (keep q m l)),
          λ q m (j, w, x, b).
              Entry-cases (λ a c. Below (join yaml p (scalar a)) c q m → Listed q m out')
                (λ d. keep' q m (due q m d)) (λ a c y d. due' q m (a, c, y, d)) x b,
        )

  -- What a visit must list is the node itself, or below one of its entries.
  Below-is_name : {p q : Bytes} {n m : Node} → Below p n q m → is_name p ≡ true
  Below-is_name (here h) = h
  Below-is_name (under h map e b) = h

  Below-cases :
      (L : Bytes → Node → Type 0) {p q : Bytes} {n m : Node}
      → L p n
      → ((a : Bytes) (c : Node) → is_map n ≡ true → DueOfEntries p (entries n) a c → L a c)
      → Below p n q m
      → L q m
  unfolding DueOfEntries
  Below-cases L x f (here h) = x
  Below-cases L x f (under h map e b) = f _ _ map (_, _, e, b)

  list_all_member-Covers : (fuel : ℕ) → Visits fuel (list_all_member yaml fuel)
  unfolding list_all_member Visits
  list_all_member-Covers zero p n out d = absurd (omega arith)
  list_all_member-Covers (suc fuel) p n out d =
      let listed = record out { output = out.output ++ (p, n) ∷ [] } in
      elim (Bool-cases (is_name p)) [
        | inr bad ↦
            rw bad (_, refl, (λ q m l. l), λ q m b. absurd (ground (arith, bad, Below-is_name b)))
        | inl good ↦ elim (Bool-cases (is_map n)) [
          | inr leaf ↦
              rw (good, leaf)
                (
                  listed,
                  refl,
                  (λ q m l. append-kept out.output _ l),
                  λ q m b.
                      Below-cases (λ a c. Listed a c listed) (append-last out.output)
                        (λ a c map due. absurd (ground (arith, leaf, map))) b,
                )
          | inl map ↦
              let (out', e, keep, due) =
                list_entries-Covers fuel (list_all_member yaml fuel) p (entries n) listed
                  (list_all_member-Covers fuel)
                  (All-lt yaml fuel n (entries n) d (entries-depth n)) in
              rw (good, map)
                (
                  out',
                  e,
                  (λ q m l. keep q m (append-kept out.output _ l)),
                  λ q m b.
                      Below-cases (λ a c. Listed a c out') (keep p n (append-last out.output))
                        (λ a c y x. due a c x) b,
                )
        ]
      ]

  -- What is listed is what are members.
  abbrev pub ListsExactly : Node → Option (Listing yaml) → Type 0
  ListsExactly root r =
      (out : Listing yaml) × (r ≡ some out)
      × ((q : Bytes) (m : Node) → Memᴰ (q, m) out.output ↔ IsMember yaml root q m)

-- From any node, with fuel above its depth, ListAllMember ends, and the pairs that it lists are
-- exactly the nodes below the root with their dotted paths, all of whose prefixes are valid names.
pub list_all_member_exactly :
    (yaml : Yaml) (root : yaml.Node) (fuel : ℕ)
    → yaml.depth root < fuel
    → ListsExactly yaml root (list_all_member yaml fuel [] root (empty_listing yaml))
unfolding Visits
list_all_member_exactly yaml root fuel d =
    let (out, e, all) = list_all_member-Lists yaml root fuel d in
    let (out', e', keep, due) = list_all_member-Covers yaml fuel [] root (empty_listing yaml) d in
    rw e (
      out,
      refl,
      λ q m. (
        All-at (λ x. IsMember yaml root x.0 x.1) out.output all,
        λ i.
            rw (some-injective out out' (sym e ∙ e'))
              (due q m (IsMember-Below yaml i (here (IsMember-is_name yaml i)))),
      ),
    )
