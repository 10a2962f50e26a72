-- ===== src/Config/Members/Keys.antt =====
-- What ListAllMember lists.
use chord_server.Prelude.{
  ℕ, zero, suc, ◌<◌, true, ◌≡◌, refl, List, [], ◌∷◌, ◌++◌, Option, some, Bytes, All, arith,
  Bool-cases, inl, inr,
}
use chord_server.Config.Names.{is_name}
use chord_server.Config.Yaml.{Yaml}
use chord_server.Config.Members.{Listing, join, list_entries, list_all_member}

module _ (yaml : Yaml) where
  open yaml use {Node, is_map, scalar, entries, depth, entries-depth}

  pub data Entry : Node → Node → List (Node × Node) → Type 0 where
    first : {k v : Node} {es : List (Node × Node)} → Entry k v ((k, v) ∷ es)
    later :
        {k v : Node} {e : Node × Node} {es : List (Node × Node)} → Entry k v es → Entry k v (e ∷ es)

  -- The dotted path of a node below the root, every prefix of which is a valid name.
  pub data IsMember (root : Node) : Bytes → Node → Type 0 where
    top : is_name [] ≡ true → IsMember root [] root
    child :
        {p : Bytes} {n k v : Node}
        → IsMember root p n
        → is_map n ≡ true
        → Entry k v (entries n)
        → is_name (join yaml p (scalar k)) ≡ true
        → IsMember root (join yaml p (scalar k)) v

  -- The path of a member is a valid name.
  pub IsMember-is_name : {root n : Node} {p : Bytes} → IsMember root p n → is_name p ≡ true
  IsMember-is_name (top h) = h
  IsMember-is_name (child m h e g) = g

  abbrev pub AllMembers : Node → List (Bytes × Node) → Type 0
  AllMembers root = All (λ e. IsMember root e.0 e.1)

  -- The call ends, and all that it has listed are members.
  abbrev pub Lists : Node → Option (Listing yaml) → Type 0
  Lists root r = (out : Listing yaml) × (r ≡ some out) × AllMembers root out.output

  AllMembers-append :
      (root : Node) (xs : List (Bytes × Node)) (p : Bytes) (n : Node)
      → AllMembers root xs
      → IsMember root p n
      → AllMembers root (xs ++ (p, n) ∷ [])
  AllMembers-append root [] p n h m = (m, tt)
  AllMembers-append root (x ∷ xs) p n h m = (h.0, AllMembers-append root xs p n h.1 m)

  -- A visit of a node of bounded depth that may be a member lists members.
  Visits : ℕ → Node → (Bytes → Node → Listing yaml → Option (Listing yaml)) → Type 0
  Visits fuel root visit =
      (p : Bytes) (n : Node) (out : Listing yaml)
      → (is_name p ≡ true → IsMember root p n)
      → depth n < fuel
      → AllMembers root out.output
      → Lists root (visit p n out)

  list_entries-Lists :
      (fuel : ℕ) (root : Node) (visit : Bytes → Node → Listing yaml → Option (Listing yaml))
      (p : Bytes) (n : Node) (es : List (Node × Node)) (out : Listing yaml)
      → Visits fuel root visit
      → ((k v : Node)
          → Entry k v es
          → is_name (join yaml p (scalar k)) ≡ true
          → IsMember root (join yaml p (scalar k)) v)
      → All (λ e. depth e.1 < fuel) es
      → AllMembers root out.output
      → Lists root (list_entries yaml visit p es out)
  unfolding list_entries Visits
  list_entries-Lists fuel root visit p n [] out vs kids ds h = (out, refl, h)
  list_entries-Lists fuel root visit p n ((k, v) ∷ es) out vs kids ds h =
      let (out', e, h') = vs (join yaml p (scalar k)) v out (kids k v first) ds.0 h in
      rw (e, list_entries)
        (list_entries-Lists fuel root visit p n es out' vs (λ a b x. kids a b (later x)) ds.1 h')

  pub All-lt :
      (fuel : ℕ) (n : Node) (es : List (Node × Node))
      → depth n < suc fuel
      → All (λ e. depth e.1 < depth n) es
      → All (λ e. depth e.1 < fuel) es
  All-lt fuel n [] h ds = tt
  All-lt fuel n (e ∷ es) h ds = (omega arith, All-lt fuel n es h ds.1)

  list_all_member-Visits : (fuel : ℕ) (root : Node) → Visits fuel root (list_all_member yaml fuel)
  unfolding list_all_member Visits
  list_all_member-Visits zero root p n out m d h = absurd (omega arith)
  list_all_member-Visits (suc fuel) root p n out m d h = elim (Bool-cases (is_name p)) [
    | inr bad ↦ rw bad (_, refl, h)
    | inl good ↦ elim (Bool-cases (is_map n)) [
      | inr leaf ↦ rw (good, leaf) (_, refl, AllMembers-append root out.output p n h (m good))
      | inl map ↦
          rw (good, map)
            (list_entries-Lists fuel root _ p n (entries n) _ (list_all_member-Visits fuel root)
              (λ k v x y. child (m good) map x y) (All-lt fuel n (entries n) d (entries-depth n))
              (AllMembers-append root out.output p n h (m good)))
    ]
  ]

abbrev pub empty_listing : (yaml : Yaml) → Listing yaml
empty_listing yaml = record { output = []; invalid = [] }

-- From any node, with fuel above its depth, ListAllMember ends, and every pair that it lists is a
-- node below the root with its dotted path, all of whose prefixes are valid names.
pub list_all_member-Lists :
    (yaml : Yaml) (root : yaml.Node) (fuel : ℕ)
    → yaml.depth root < fuel
    → Lists yaml root (list_all_member yaml fuel [] root (empty_listing yaml))
unfolding is_name
list_all_member-Lists yaml root fuel d =
    unfold Visits in
    list_all_member-Visits yaml fuel root [] root (empty_listing yaml) (λ _. top refl) d tt
