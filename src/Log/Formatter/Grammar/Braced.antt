-- ===== src/Log/Formatter/Grammar/Braced.antt =====
-- The inner loop of LogFormatter::init behind a '{'.
use chord_server.Prelude.{
  ℕ, zero, suc, ◌+◌, ◌-◌, ◌<◌, true, false, ◌≡◌, ◌∙◌, ◌⊎◌, inl, inr, [], ◌∷◌, ◌++◌, Option, none,
  some, length, get_or, take, drop, ◌==◌, if◌then◌else◌, Bytes, Bool-cases, arith, get_or-drop,
  length-drop, ap, drop-add-one, lt-length_of_drop, drop-drop, take-add-one,
}
use chord_server.Log.Formatter.Scan.{Cursor, directive_step, directive_loop}
use chord_server.Log.Formatter.Grammar.{Directive, read_braced}

-- The cursor `c` has read the directive `d` behind the '%' at `i`.
pub record Ends (p : Bytes) (i : ℕ) (d : Directive) (c : Cursor) : Type 0 where
  pub status : c.fmt_status ≡ (if d.closed then 0 else 1)
  pub fmt : c.fmt ≡ d.fmt
  pub str : d.closed ≡ true → c.str ≡ d.name
  pub rest : d.closed ≡ true → drop c.n p ≡ d.rest
  pub unread : d.closed ≡ false → c.fmt ≡ []
  pub later : i < c.n

abbrev pub Reads : Bytes → ℕ → Directive → Option Cursor → Type 0
Reads p i d none = ⊥
Reads p i d (some c) = Ends p i d c

-- The cursor stands `m` characters behind a '{', and these are `fmt`.
pub record InBraces (p : Bytes) (i m : ℕ) (name fmt r : Bytes) (c : Cursor) : Type 0 where
  pub at : drop c.n p ≡ r
  pub place : c.n ≡ c.fmt_begin + 1 + m
  pub read : take m (drop (c.fmt_begin + 1) p) ≡ fmt
  pub inside : c.fmt_status ≡ 1
  pub none_yet : c.fmt ≡ []
  pub str : (r ≡ []) ⊎ (c.str ≡ name)
  pub later : i < c.n

module _ (p : Bytes) (i m : ℕ) (name fmt r : Bytes) (x : ℕ) (c : Cursor)
    (b : InBraces p i m name fmt (x ∷ r) c) where
  drop-fmt_begin : drop m (drop (c.fmt_begin + 1) p) ≡ x ∷ r
  drop-fmt_begin = drop-drop m (c.fmt_begin + 1) p ∙ rw (← b.place) b.at

  take-fmt_begin : take (m + 1) (drop (c.fmt_begin + 1) p) ≡ fmt ++ x ∷ []
  take-fmt_begin = take-add-one m _ drop-fmt_begin ∙ rw b.read

  char_at-here : get_or p c.n 0 ≡ x
  char_at-here = get_or-drop c.n p 0 b.at

  drop-next : drop (c.n + 1) p ≡ r
  drop-next = drop-add-one c.n p b.at

  substr-fmt : take (c.n - c.fmt_begin - 1) (drop (c.fmt_begin + 1) p) ≡ fmt
  substr-fmt = let e : c.n - c.fmt_begin - 1 ≡ m = omega (arith, b.place) in rw e b.read

  close :
      (x == b'}') ≡ true
      → Ends p i
          (record { name = name; fmt = fmt; rest = r; closed = true })
          (directive_step p i c).0
        × ((directive_step p i c).1 ≡ false)
  unfolding directive_step
  close e = ground (arith, char_at-here, drop-next, substr-fmt, b.inside, b.str, b.later)

  go_on :
      (x == b'}') ≡ false
      → InBraces p i (m + 1) name (fmt ++ x ∷ []) r (directive_step p i c).0
        × ((directive_step p i c).1 ≡ true)
  unfolding directive_step
  go_on e = ground (arith, char_at-here, drop-next, take-fmt_begin, lt-length_of_drop c.n p b.at)

pub directive_loop-Reads_braced :
    (r p : Bytes) (i m fuel : ℕ) (name fmt : Bytes) (c : Cursor)
    → InBraces p i m name fmt r c
    → length r < fuel
    → Reads p i (read_braced name fmt r) (directive_loop fuel p i c)
unfolding directive_loop read_braced
directive_loop-Reads_braced r p i m zero name fmt c b h = absurd (omega arith)
directive_loop-Reads_braced [] p i m (suc fuel) name fmt c b h =
    ground (arith, ap length b.at, length-drop c.n p)
directive_loop-Reads_braced (x ∷ r) p i m (suc fuel) name fmt c b h =
    elim (Bool-cases (x == b'}')) [
      | inl e ↦ ground (arith, close p i m name fmt r x c b e, lt-length_of_drop c.n p b.at)
      | inr e ↦
          let (next, goes) = go_on p i m name fmt r x c b e in
          ground (
            arith,
            goes,
            lt-length_of_drop c.n p b.at,
            directive_loop-Reads_braced r p i (m + 1) fuel name (fmt ++ x ∷ []) _ next,
          )
    ]
