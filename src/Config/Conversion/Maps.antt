-- ===== src/Config/Conversion/Maps.antt =====
-- Maps are written and read back.
use chord_server.Prelude.{
  Bool, false, ◌≡◌, refl, sym, ap, subst, ◌∙◌, List, [], ◌∷◌, ◌++◌, append-nil, append_assoc, none,
  some, Bytes, equal, less_asym, All, arith,
}
use chord_server.Config.Yaml.{Yaml, Builder, Laws}
use chord_server.Config.Conversion.{
  LexicalCast, Container, ordered, key_less, read_pairs, read_map, write_pairs, write_map, map_cast,
  unordered_map_cast,
}
use chord_server.Config.Conversion.Refills.{
  refill, any, IsDictionary, IsDistinct, IsAscending, refill-ordered, IsAscending-IsDistinct,
  AllNew-empty, any-refill_pairs,
}
use chord_server.Config.Conversion.RoundTrip.{Reads, IsKept}

module _ (yaml : Yaml) (b : Builder yaml) (y : Laws yaml b) {A : Type 0}
    (cast : LexicalCast A) where
  open yaml use {Node, text}
  open b use {load, pairs, get, null, assign}

  -- The node has none of the keys.
  abbrev NoKey : Node → List (Bytes × A) → Type 0
  NoKey n = All (λ e. get n e.0 ≡ some none)

  NoKey-null : (es : List (Bytes × A)) → NoKey null es
  NoKey-null [] = tt
  NoKey-null (e ∷ es) = (y.get-null e.0, NoKey-null es)

  NoKey-assign :
      (n v : Node) (key : Bytes) (es : List (Bytes × A))
      → y.IsMap n
      → All (λ e. equal key e.0 ≡ false) es
      → NoKey n es
      → NoKey (assign n key v) es
  NoKey-assign n v key [] q d h = tt
  NoKey-assign n v key (e ∷ es) q d h =
      (y.get-assign n v key e.0 q ∙ rw d.0 h.0, NoKey-assign n v key es q d.1 h.1)

  -- The node that the loop leaves, and what reading it gives.
  write_pairs-Reads :
      (k : Container (Bytes × A)) (es : List (Bytes × A)) (n : Node) (old : List (Bytes × Node))
      → y.IsMap n
      → pairs n ≡ some old
      → NoKey n es
      → IsDistinct es
      → All (λ e. IsKept yaml b cast e.1) es
      → (o : Node) × (ns : List (Bytes × Node)) × (write_pairs yaml b cast n es ≡ some o)
        × (pairs o ≡ some (old ++ ns))
        × ((c : k.Carrier) → read_pairs yaml b cast k ns c ≡ some (refill k es c))
  unfolding write_pairs read_pairs
  write_pairs-Reads k [] n old q p f d h =
      (n, [], refl, p ∙ ap some (sym (append-nil old)), λ c. refl)
  write_pairs-Reads k ((key, x) ∷ es) n old q p f d ((s, m, e, l, r), h) =
      let (o, ns, w, i, read) =
        write_pairs-Reads k es (assign n key m) (old ++ (key, m) ∷ []) (y.assign-IsMap n m key q)
          (y.pairs-assign n m key old q f.0 p) (NoKey-assign n m key es q d.0 f.1) d.1 h in
      (
        o,
        (key, m) ∷ ns,
        rw e (rw l w),
        i ∙ ap some (append_assoc old ((key, m) ∷ []) ns),
        λ c. rw r (read (k.add c (key, x))),
      )

  write_map-Reads :
      (k : Container (Bytes × A)) (c : k.Carrier)
      → IsDistinct (k.elements c)
      → All (λ e. IsKept yaml b cast e.1) (k.elements c)
      → Reads yaml b (unordered_map_cast yaml b cast k) c (refill k (k.elements c) k.empty)
  unfolding write_map read_map
  write_map-Reads k c d h =
      let (o, ns, w, i, r) =
        write_pairs-Reads k (k.elements c) null [] y.null-IsMap y.pairs-null
          (NoKey-null (k.elements c)) d h in
      (text o, o, rw w refl, y.load-text o, rw (y.load-text o) (rw i (r k.empty)))

  -- A map, with its keys in order, is written as a document that reads back as the same map, if
  -- each of its values is read back as it was.
  pub map_cast-IsKept :
      (es : List (Bytes × A))
      → IsAscending key_less es
      → All (λ e. IsKept yaml b cast e.1) es
      → IsKept yaml b (map_cast yaml b cast) es
  map_cast-IsKept es a h =
      subst (Reads yaml b (map_cast yaml b cast) es)
        (refill-ordered key_less (λ p q. less_asym p.0 q.0) es [] a tt)
        (write_map-Reads (ordered key_less) es (IsAscending-IsDistinct es a) h)

  -- An unordered map, with no key twice, is written as a document that reads back as one with the
  -- same pairs, if each of its values is read back as it was.
  pub unordered_map_cast-Reads :
      (k : Container (Bytes × A)) (c : k.Carrier)
      → IsDictionary k
      → IsDistinct (k.elements c)
      → All (λ e. IsKept yaml b cast e.1) (k.elements c)
      → (d : k.Carrier) × Reads yaml b (unordered_map_cast yaml b cast k) c d
        × ((P : Bytes × A → Bool) → any P (k.elements d) ≡ any P (k.elements c))
  unordered_map_cast-Reads k c g d h = (
    refill k (k.elements c) k.empty,
    write_map-Reads k c d h,
    λ P.
        any-refill_pairs k g P (k.elements c) k.empty d (AllNew-empty k g (k.elements c))
        ∙ ground (arith, g.any-empty P),
  )
