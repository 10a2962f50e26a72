-- ===== src/Log/Formatter/Grammar/Fuel.antt =====
-- The bound of `read_pieces` does not matter once it exceeds the length, and the equations that
-- the unbounded reading then has.
use chord_server.Prelude.{
  ℕ, zero, suc, ◌≤◌, ◌<◌, true, false, not, ◌||◌, ◌≡◌, refl, [], ◌∷◌, ◌++◌, length, ◌==◌, Bytes,
  arith,
}
use chord_server.Log.Formatter.Scan.{flush}
use chord_server.Log.Formatter.Grammar.{
  Directive, read_braced, read_directive, directive_piece, error_piece, starts_percent, read_pieces,
  pieces,
}

read_braced-rest-le : (name fmt r : Bytes) → length (read_braced name fmt r).rest ≤ length r
unfolding read_braced
read_braced-rest-le name fmt [] = omega arith
read_braced-rest-le name fmt (x ∷ r) = ground (arith, read_braced-rest-le name (fmt ++ x ∷ []) r)

read_directive-rest-le : (name r : Bytes) → length (read_directive name r).rest ≤ length r
unfolding read_directive
read_directive-rest-le name [] = omega arith
read_directive-rest-le name (x ∷ r) =
    ground (arith, read_directive-rest-le (name ++ x ∷ []) r, read_braced-rest-le name [] r)

read_pieces_fuel :
    (n m : ℕ) (nstr r : Bytes)
    → length r < n
    → length r < m
    → read_pieces n nstr r ≡ read_pieces m nstr r
unfolding read_pieces
read_pieces_fuel zero m nstr r h k = absurd (omega arith)
read_pieces_fuel (suc n) zero nstr r h k = absurd (omega arith)
read_pieces_fuel (suc n) (suc m) nstr [] h k = refl
read_pieces_fuel (suc n) (suc m) nstr (x ∷ r) h k =
    let d = read_directive [] r in
    let left : length d.rest ≤ length r = read_directive-rest-le [] r in
    unfold read_pieces in
    rw (
      read_pieces_fuel n m (nstr ++ x ∷ []) r (omega arith) (omega arith),
      read_pieces_fuel n m [] d.rest (omega arith) (omega arith),
      read_pieces_fuel n m nstr r (omega arith) (omega arith),
    )

module _ (nstr r : Bytes) (x : ℕ) where
  pub pieces_plain :
      (not (x == b'%') || starts_percent r) ≡ true → pieces nstr (x ∷ r) ≡ pieces (nstr ++ x ∷ []) r
  unfolding read_pieces
  pieces_plain e = rw e

  -- A directive that is closed, behind some literal text.
  pub pieces_closed :
      (d : Directive)
      → (not (x == b'%') || starts_percent r) ≡ false
      → read_directive [] r ≡ d
      → d.closed ≡ true
      → pieces nstr (x ∷ r)
        ≡ (flush [] nstr ++ directive_piece d ∷ (pieces [] d.rest).0, (pieces [] d.rest).1)
  pieces_closed d e read c =
      let left : length (read_directive [] r).rest ≤ length r = read_directive-rest-le [] r in
      let fits : length d.rest ≤ length r = rw read at left in
      let same : read_pieces (suc (length r)) [] d.rest ≡ pieces [] d.rest =
        read_pieces_fuel (suc (length r)) (suc (length d.rest)) [] d.rest (omega arith)
          (omega arith) in
      unfold read_pieces in rw (e, read, c, same)

  pub pieces_unclosed :
      (not (x == b'%') || starts_percent r) ≡ false
      → (read_directive [] r).closed ≡ false
      → pieces nstr (x ∷ r) ≡ (error_piece ∷ (pieces nstr r).0, true)
  unfolding read_pieces
  pieces_unclosed e c = rw (e, c)
