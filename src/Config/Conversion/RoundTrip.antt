-- ===== src/Config/Conversion/RoundTrip.antt =====
-- Containers are written and read back.
use chord_server.Prelude.{
  Bool, true, false, ◌≡◌, refl, sym, ap, subst, ◌∙◌, List, [], ◌∷◌, ◌++◌, append-nil, append_assoc,
  some, Bytes, All, arith,
}
use chord_server.Config.Yaml.{Yaml, Builder, Laws}
use chord_server.Config.Conversion.{
  LexicalCast, Container, sequence, ordered, read_items, read_all, write_items, write_all,
  vector_cast, list_cast, set_cast, unordered_set_cast,
}
use chord_server.Config.Conversion.Refills.{
  refill, any, IsBag, IsAscending, refill-sequence, any-refill, refill-ordered,
}

module _ (yaml : Yaml) (b : Builder yaml) where
  open yaml use {Node, text}
  open b use {load, items, pairs, get, null, push_back, assign}

  -- The text for `x` is a document from whose node `y` is read.
  abbrev pub Reads : {A : Type 0} → LexicalCast A → A → A → Type 0
  Reads cast x y =
      (s : Bytes) × (n : Node) × (cast.to_string x ≡ some s)
      × (load s ≡ some n)
      × (cast.from_string (text n) ≡ some y)

  -- The value is read back from its text.
  abbrev pub IsKept : {A : Type 0} → LexicalCast A → A → Type 0
  IsKept cast x = Reads cast x x

  module _ (y : Laws yaml b) {A : Type 0} (cast : LexicalCast A) where
    -- The node that the loop leaves, and what reading it gives.
    write_items-Reads :
        (k : Container A) (xs : List A) (n : Node)
        → y.IsSequence n
        → All (IsKept cast) xs
        → (o : Node) × (ns : List Node) × (write_items yaml b cast n xs ≡ some o)
          × (items o ≡ items n ++ ns)
          × ((c : k.Carrier) → read_items yaml b cast k ns c ≡ some (refill k xs c))
    unfolding write_items read_items
    write_items-Reads k [] n q h = (n, [], refl, sym (append-nil (items n)), λ c. refl)
    write_items-Reads k (x ∷ xs) n q ((s, m, e, l, f), h) =
        let (o, ns, w, i, r) =
          write_items-Reads k xs (push_back n m) (y.push_back-IsSequence n m q) h in
        (
          o,
          m ∷ ns,
          rw e (rw l w),
          i ∙ ap (λ ms. ms ++ ns) (y.items-push_back n m q) ∙ append_assoc (items n) (m ∷ []) ns,
          λ c. rw f (r (k.add c x)),
        )

    write_all-Reads :
        (k : Container A) (c : k.Carrier)
        → All (IsKept cast) (k.elements c)
        → Reads (unordered_set_cast yaml b cast k) c (refill k (k.elements c) k.empty)
    unfolding write_all read_all
    write_all-Reads k c h =
        let (o, ns, w, i, r) = write_items-Reads k (k.elements c) null y.null-IsSequence h in
        let all_items : items o ≡ ns = i ∙ ap (λ ms. ms ++ ns) y.items-null in
        (text o, o, rw w refl, y.load-text o, rw (y.load-text o) (rw all_items (r k.empty)))

    -- A vector or list is written as a document that reads back as the same vector or list, if each
    -- of its elements is.
    pub sequence_casts-IsKept :
        (xs : List A)
        → All (IsKept cast) xs
        → IsKept (vector_cast yaml b cast) xs × IsKept (list_cast yaml b cast) xs
    sequence_casts-IsKept xs h =
        let kept : IsKept (vector_cast yaml b cast) xs =
          subst (Reads (vector_cast yaml b cast) xs) (refill-sequence xs [])
            (write_all-Reads (sequence A) xs h) in
        (kept, kept)

    -- A set, with its elements in an order that is asymmetric, is written as a document that reads
    -- back as the same set, if each of its elements is.
    pub set_cast-IsKept :
        (below : A → A → Bool)
        → ((x z : A) → below x z ≡ true → below z x ≡ false)
        → (xs : List A) → IsAscending below xs
        → All (IsKept cast) xs
        → IsKept (set_cast yaml b cast below) xs
    set_cast-IsKept below asym xs a h =
        subst (Reads (set_cast yaml b cast below) xs) (refill-ordered below asym xs [] a tt)
          (write_all-Reads (ordered below) xs h)

    -- An unordered set is written as a document that reads back as one with the same elements, if
    -- each of its elements is read back as it was.
    pub unordered_set_cast-Reads :
        (k : Container A) (c : k.Carrier)
        → IsBag k
        → All (IsKept cast) (k.elements c)
        → (d : k.Carrier) × Reads (unordered_set_cast yaml b cast k) c d
          × ((P : A → Bool) → any P (k.elements d) ≡ any P (k.elements c))
    unordered_set_cast-Reads k c g h = (
      refill k (k.elements c) k.empty,
      write_all-Reads k c h,
      λ P. any-refill k P (k.elements c) k.empty g ∙ ground (arith, g.any-empty P),
    )
