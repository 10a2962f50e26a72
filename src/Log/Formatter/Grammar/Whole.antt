-- ===== src/Log/Formatter/Grammar/Whole.antt =====
-- The outer loop of LogFormatter::init against the grammar.
use chord_server.Prelude.{
  lt→ltb, ℕ, zero, suc, ◌+◌, ◌≤◌, ◌<◌, Bool, true, false, not, ◌&&◌, ◌||◌, ◌≡◌, refl, sym, ap, ◌∙◌,
  inl, inr, List, [], ◌∷◌, ◌++◌, Option, none, some, length, get_or, drop, ◌==◌, ltb, if◌then◌else◌,
  Bytes, Bool-cases, Option-cases, arith, get_or-drop, drop-add-one, lt-length_of_drop, length-drop,
  append_assoc, append-nil,
}
use chord_server.Log.Formatter.Scan.{
  Piece, Cursor, Scanner, first_cursor, first_scanner, flush, directive_loop, after_directive,
  scan_step, scan_loop, scan,
}
use chord_server.Log.Formatter.Grammar.{
  Directive, read_directive, directive_piece, error_piece, starts_percent, read_pieces,
}
use chord_server.Log.Formatter.Grammar.Braced.{Reads}
use chord_server.Log.Formatter.Grammar.Named.{directive_loop-read_directive}

flush-append : (vec : List Piece) (nstr : Bytes) → flush vec nstr ≡ vec ++ flush [] nstr
flush-append vec [] = sym (append-nil vec)
flush-append vec (x ∷ nstr) = refl

-- The locals after one pass over a directive.
record Took (p : Bytes) (s : Scanner) (d : Directive) (t : Scanner) : Type 0 where
  vec : t.vec ≡ (
      if d.closed then flush s.vec s.nstr ++ directive_piece d ∷ [] else s.vec ++ error_piece ∷ [])
  nstr : t.nstr ≡ (if d.closed then [] else s.nstr)
  error : t.error ≡ (if d.closed then s.error else true)
  rest : drop (t.i + 1) p ≡ (if d.closed then d.rest else drop (s.i + 1) p)
  later : s.i ≤ t.i

abbrev Takes : Bytes → Scanner → Directive → Option Scanner → Type 0
Takes p s d none = ⊥
Takes p s d (some t) = Took p s d t

module _ (p : Bytes) (s : Scanner) (x : ℕ) (r : Bytes) (at : drop s.i p ≡ x ∷ r) where
  here : get_or p s.i 0 ≡ x
  here = get_or-drop s.i p 0 at

  next : drop (s.i + 1) p ≡ r
  next = drop-add-one s.i p at

  fits : length p ≡ s.i + 1 + length r
  fits = lt-length_of_drop s.i p at

  starts : (y : ℕ) (q : Bytes) → r ≡ y ∷ q → get_or p (s.i + 1) 0 ≡ y
  starts y q e = get_or-drop (s.i + 1) p 0 (next ∙ e)

  escaped :
      (q : Bytes)
      → r ≡ q
      → (ltb (s.i + 1) (length p) && (get_or p (s.i + 1) 0 == b'%')) ≡ starts_percent q
  escaped [] e = ground (arith, fits, ap length e)
  escaped (y ∷ q) e = ground (arith, fits, ap length e, starts y q e)

  step_plain :
      (not (x == b'%') || starts_percent r) ≡ true
      → scan_step p s ≡ some (record s { nstr = s.nstr ++ x ∷ [] })
  unfolding scan_step
  step_plain e = ground (arith, here, escaped r refl)

  took :
      (o : Option Cursor)
      → Reads p s.i (read_directive [] r) o
      → Takes p s
          (read_directive [] r)
          (elim o [ none ↦ none | some c ↦ some (after_directive p s c) ])
  unfolding after_directive
  took none h = absurd h
  took (some c) h = ground (arith, h.status, h.fmt, h.str, h.rest, h.unread, h.later)

  step_directive :
      (not (x == b'%') || starts_percent r) ≡ false
      → Takes p s (read_directive [] r) (scan_step p s)
  unfolding scan_step
  step_directive e = ground (
    arith,
    here,
    escaped r refl,
    took (directive_loop (length p) p s.i (first_cursor s.i))
        (rw next at (directive_loop-read_directive p s.i (omega (arith, fits)))),
  )

-- What the loop leaves agrees with the pieces that the grammar reads.
abbrev Scans : List Piece → Bool → List Piece × Bool → Option Scanner → Type 0
Scans vec error read none = ⊥
Scans vec error read (some t) = (flush t.vec t.nstr ≡ vec ++ read.0) × (t.error ≡ (error || read.1))

-- More pieces in front of what is read later.
Scans-append :
    (o : Option Scanner) (vec vec' pre : List Piece) (error error' bad : Bool)
    (read out : List Piece × Bool)
    → vec' ≡ vec ++ pre
    → error' ≡ (error || bad)
    → out.0 ≡ pre ++ read.0
    → out.1 ≡ (bad || read.1)
    → Scans vec' error' read o
    → Scans vec error out o
Scans-append none vec vec' pre error error' bad read out a b c d h = h
Scans-append (some t) vec vec' pre error error' bad read out a b c d h =
    (h.0 ∙ rw (a, c) (append_assoc vec pre read.0), ground arith)

scan_loop_next :
    (fuel : ℕ) (p : Bytes) (s t : Scanner)
    → s.i < length p
    → scan_step p s ≡ some t
    → scan_loop (suc fuel) p s ≡ scan_loop fuel p (record t { i = t.i + 1 })
unfolding scan_loop
scan_loop_next fuel p s t h e = rw (lt→ltb _ _ h, e)

module _ (n : ℕ) (nstr r : Bytes) (x : ℕ) where
  read_pieces_plain :
      (not (x == b'%') || starts_percent r) ≡ true
      → read_pieces (suc n) nstr (x ∷ r) ≡ read_pieces n (nstr ++ x ∷ []) r
  unfolding read_pieces
  read_pieces_plain e = rw e

  read_pieces_directive :
      (not (x == b'%') || starts_percent r) ≡ false
      → let d = read_directive [] r in
        read_pieces (suc n) nstr (x ∷ r) ≡ (
          if d.closed
          then (
            flush [] nstr ++ directive_piece d ∷ (read_pieces n [] d.rest).0,
            (read_pieces n [] d.rest).1,
          )
          else (error_piece ∷ (read_pieces n nstr r).0, true))
  unfolding read_pieces
  read_pieces_directive e = rw e

module _ (n : ℕ) (p : Bytes) (s t : Scanner) (x : ℕ) (r : Bytes) (o : Option Scanner)
    (at : drop s.i p ≡ x ∷ r) (e : (not (x == b'%') || starts_percent r) ≡ false)
    (took_it : Took p s (read_directive [] r) t)
    (later : Scans t.vec t.error (read_pieces n t.nstr (drop (t.i + 1) p)) o) where
  Scans-closed :
      (read_directive [] r).closed ≡ true
      → Scans s.vec s.error (read_pieces (suc n) s.nstr (x ∷ r)) o
  Scans-closed c =
      let text : t.nstr ≡ [] = took_it.nstr ∙ rw c in
      let place : drop (t.i + 1) p ≡ (read_directive [] r).rest = took_it.rest ∙ rw c in
      rw (read_pieces_directive n s.nstr r x e, c)
        (Scans-append o s.vec t.vec (flush [] s.nstr ++ directive_piece (read_directive [] r) ∷ [])
          s.error t.error false (read_pieces n [] (read_directive [] r).rest) _
          (took_it.vec ∙ rw (c, flush-append s.vec s.nstr) (append_assoc s.vec (flush [] s.nstr) _))
          (ground (arith, took_it.error)) (sym (append_assoc (flush [] s.nstr) _ _)) refl
          (rw (text, place) at later))

  Scans-unclosed :
      (read_directive [] r).closed ≡ false
      → Scans s.vec s.error (read_pieces (suc n) s.nstr (x ∷ r)) o
  Scans-unclosed c =
      let text : t.nstr ≡ s.nstr = took_it.nstr ∙ rw c in
      let place : drop (t.i + 1) p ≡ r = took_it.rest ∙ rw c (next p s x r at) in
      rw (read_pieces_directive n s.nstr r x e, c)
        (Scans-append o s.vec t.vec (error_piece ∷ []) s.error t.error true (read_pieces n s.nstr r)
          _ (took_it.vec ∙ rw c) (ground (arith, took_it.error)) refl refl
          (rw (text, place) at later))

scan_loop-Scans :
    (fuel n : ℕ) (p r : Bytes) (s : Scanner)
    → drop s.i p ≡ r
    → length r < fuel
    → length r < n
    → Scans s.vec s.error (read_pieces n s.nstr r) (scan_loop fuel p s)
scan_loop-Scans zero n p r s at h k = absurd (omega arith)
scan_loop-Scans (suc fuel) zero p r s at h k = absurd (omega arith)
scan_loop-Scans (suc fuel) (suc n) p [] s at h k =
    unfold scan_loop read_pieces in
    ground (arith, ap length at, length-drop s.i p, flush-append s.vec s.nstr)
scan_loop-Scans (suc fuel) (suc n) p (x ∷ r) s at h k =
    let below : s.i < length p = omega (arith, fits p s x r at) in
    elim (Bool-cases (not (x == b'%') || starts_percent r)) [
      | inl e ↦
          let step = step_plain p s x r at e in
          rw (scan_loop_next fuel p s _ below step, read_pieces_plain n s.nstr r x e)
            (scan_loop-Scans fuel n p r (record s { nstr = s.nstr ++ x ∷ []; i = s.i + 1 })
              (next p s x r at) (omega arith) (omega arith))
      | inr e ↦ elim (Option-cases (scan_step p s)) [
        | inl f ↦ absurd (rw f at (step_directive p s x r at e))
        | inr (t, f) ↦ rw (scan_loop_next fuel p s t below f) (
            let took_it : Took p s (read_directive [] r) t =
              rw f at (step_directive p s x r at e) in
            let left : length (drop (t.i + 1) p) ≤ length r =
              omega (arith, length-drop (t.i + 1) p, fits p s x r at, took_it.later) in
            let later =
              scan_loop-Scans fuel n p (drop (t.i + 1) p) (record t { i = t.i + 1 }) refl
                (omega arith) (omega arith) in
            elim (Bool-cases (read_directive [] r).closed) [
              | inl c ↦ Scans-closed n p s t x r _ at e took_it later c
              | inr c ↦ Scans-unclosed n p s t x r _ at e took_it later c
            ])
      ]
    ]

-- LogFormatter::init ends on every pattern, and its index arithmetic reads the pieces of the
-- grammar, with the same error flag.
pub scan-read_pieces :
    (p : Bytes)
    → (s : Scanner) × (scan p ≡ some s)
      × (s.vec ≡ (read_pieces (suc (length p)) [] p).0)
      × (s.error ≡ (read_pieces (suc (length p)) [] p).1)
unfolding scan
scan-read_pieces p =
    let read =
      scan_loop-Scans (suc (length p)) (suc (length p)) p p first_scanner refl (omega arith)
        (omega arith) in
    elim (Option-cases (scan_loop (suc (length p)) p first_scanner)) [
      | inl e ↦ absurd (rw e at read)
      | inr (t, e) ↦
          let found = rw e at read in
          (record t { vec = flush t.vec t.nstr }, rw (e, scan), found.0, found.1)
    ]
