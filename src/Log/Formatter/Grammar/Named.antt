-- ===== src/Log/Formatter/Grammar/Named.antt =====
-- The inner loop of LogFormatter::init behind a '%'.
use chord_server.Prelude.{
  ℕ, zero, suc, ◌+◌, ◌-◌, ◌<◌, true, false, ◌≡◌, sym, ap, ◌∙◌, inl, inr, [], ◌∷◌, ◌++◌, some,
  length, get_or, take, drop, ◌==◌, if◌then◌else◌, Bytes, Bool-cases, arith, get_or-drop,
  drop-add-one, lt-length_of_drop, drop-drop, take-add-one, is_empty, take_of_drop-nil, length-drop,
}
use chord_server.Log.Formatter.Scan.{Cursor, advance, directive_step, directive_loop, first_cursor}
use chord_server.Log.Formatter.Grammar.{is_name, read_braced, read_directive}
use chord_server.Log.Formatter.Grammar.Braced.{Ends, Reads, InBraces, directive_loop-Reads_braced}

-- The cursor stands `m` characters behind the '%' at `i`, and these are `name`.
record InName (p : Bytes) (i m : ℕ) (name r : Bytes) (c : Cursor) : Type 0 where
  at : drop c.n p ≡ r
  place : c.n ≡ i + 1 + m
  read : take m (drop (i + 1) p) ≡ name
  outside : c.fmt_status ≡ 0
  none_yet : c.fmt ≡ []
  str : c.str ≡ (if is_empty r then name else [])

module _ (p : Bytes) (i m : ℕ) (name r : Bytes) (x : ℕ) (c : Cursor)
    (b : InName p i m name (x ∷ r) c) where
  drop-i : drop m (drop (i + 1) p) ≡ x ∷ r
  drop-i = drop-drop m (i + 1) p ∙ rw (← b.place) b.at

  take-i : take (m + 1) (drop (i + 1) p) ≡ name ++ x ∷ []
  take-i = take-add-one m _ drop-i ∙ rw b.read

  take-i_end : r ≡ [] → drop (i + 1) p ≡ name ++ x ∷ []
  take-i_end e =
      sym (take_of_drop-nil (m + 1) (drop (i + 1) p) (drop-add-one m _ drop-i ∙ e)) ∙ take-i

  char_at-here : get_or p c.n 0 ≡ x
  char_at-here = get_or-drop c.n p 0 b.at

  drop-next : drop (c.n + 1) p ≡ r
  drop-next = drop-add-one c.n p b.at

  substr-name : take (c.n - i - 1) (drop (i + 1) p) ≡ name
  substr-name = let e : c.n - i - 1 ≡ m = omega (arith, b.place) in rw e b.read

  stop :
      is_name x ≡ false
      → (x == b'{') ≡ false
      → Ends p i
          (record { name = name; fmt = []; rest = x ∷ r; closed = true })
          (directive_step p i c).0
        × ((directive_step p i c).1 ≡ false)
  unfolding directive_step
  stop e f = ground (arith, char_at-here, substr-name)

  open_brace :
      (x == b'{') ≡ true
      → InBraces p i 0 name [] r (directive_step p i c).0 × ((directive_step p i c).1 ≡ true)
  unfolding directive_step
  open_brace e = ground (arith, char_at-here, drop-next, substr-name)

  advance-InName : InName p i (m + 1) (name ++ x ∷ []) r (advance p i c)
  unfolding advance
  advance-InName =
      ground (arith, drop-next, take-i, take-i_end, length-drop c.n p, lt-length_of_drop c.n p b.at)

  go_on : is_name x ≡ true → directive_step p i c ≡ (advance p i c, true)
  unfolding directive_step
  go_on e = ground (arith, char_at-here)

module _ (p : Bytes) (i fuel : ℕ) (c : Cursor) (below : c.n < length p) where
  directive_loop_next :
      (directive_step p i c).1 ≡ true
      → directive_loop (suc fuel) p i c ≡ directive_loop fuel p i (directive_step p i c).0
  unfolding directive_loop
  directive_loop_next e = ground arith

  directive_loop_stop :
      (directive_step p i c).1 ≡ false
      → directive_loop (suc fuel) p i c ≡ some (directive_step p i c).0
  unfolding directive_loop
  directive_loop_stop e = ground arith

module _ (name r : Bytes) (x : ℕ) where
  read_directive_name :
      is_name x ≡ true → read_directive name (x ∷ r) ≡ read_directive (name ++ x ∷ []) r
  unfolding read_directive
  read_directive_name e = rw e

  read_directive_brace :
      is_name x ≡ false → (x == b'{') ≡ true → read_directive name (x ∷ r) ≡ read_braced name [] r
  unfolding read_directive
  read_directive_brace e f = rw (e, f)

  read_directive_stop :
      is_name x ≡ false
      → (x == b'{') ≡ false
      → read_directive name (x ∷ r) ≡ record { name = name; fmt = []; rest = x ∷ r; closed = true }
  unfolding read_directive
  read_directive_stop e f = rw (e, f)

directive_loop-Reads :
    (r p : Bytes) (i m fuel : ℕ) (name : Bytes) (c : Cursor)
    → InName p i m name r c
    → length r < fuel
    → Reads p i (read_directive name r) (directive_loop fuel p i c)
directive_loop-Reads r p i m zero name c b h = absurd (omega arith)
directive_loop-Reads [] p i m (suc fuel) name c b h =
    unfold directive_loop read_directive in ground (arith, ap length b.at, length-drop c.n p)
directive_loop-Reads (x ∷ r) p i m (suc fuel) name c b h =
    let below : c.n < length p = omega (arith, lt-length_of_drop c.n p b.at) in
    elim (Bool-cases (is_name x)) [
      | inl e ↦
          let step = go_on p i m name r x c b e in
          rw
            (
              read_directive_name name r x e,
              directive_loop_next p i fuel c below (ap (λ t. t.1) step),
              step,
            )
            (directive_loop-Reads r p i (m + 1) fuel (name ++ x ∷ []) (advance p i c)
              (advance-InName p i m name r x c b) (omega arith))
      | inr e ↦ elim (Bool-cases (x == b'{')) [
        | inl f ↦
            let (next, goes) = open_brace p i m name r x c b f in
            rw (read_directive_brace name r x e f, directive_loop_next p i fuel c below goes)
              (directive_loop-Reads_braced r p i 0 fuel name [] _ next (omega arith))
        | inr f ↦
            let (ends, goes) = stop p i m name r x c b e f in
            rw (read_directive_stop name r x e f, directive_loop_stop p i fuel c below goes) ends
      ]
    ]

-- The loop ends, and has read what the grammar reads behind the '%' at `i`.
pub directive_loop-read_directive :
    (p : Bytes) (i : ℕ)
    → i < length p
    → Reads p i
        (read_directive [] (drop (i + 1) p))
        (directive_loop (length p) p i (first_cursor i))
directive_loop-read_directive p i h =
    directive_loop-Reads (drop (i + 1) p) p i 0 (length p) [] (first_cursor i) (ground arith)
      (omega (arith, length-drop (i + 1) p))
