-- ===== src/Log/Formatter/Scan.antt =====
-- The first half of LogFormatter::init: the pattern is read by index into a vector of pieces.
use chord_server.Prelude.{
  ℕ, zero, suc, ◌+◌, ◌-◌, Bool, true, false, not, ◌&&◌, List, [], ◌∷◌, ◌++◌, Option, none, some,
  length, get_or, drop, is_empty, ltb, ◌==◌, if◌then◌else◌, Bytes, codes, substr, isalpha,
}

-- std::tuple<std::string, std::string, int>: kind 0 is literal text, kind 1 a directive.
pub record Piece : Type 0 where
  pub text : Bytes
  pub fmt : Bytes
  pub kind : ℕ

abbrev pub literal_piece : Bytes → Piece
literal_piece s = record { text = s; fmt = []; kind = 0 }

-- The locals of the inner loop.
pub record Cursor : Type 0 where
  pub n : ℕ
  pub fmt_status : ℕ
  pub fmt_begin : ℕ
  pub str : Bytes
  pub fmt : Bytes

-- `m_pattern[n]`
abbrev pub char_at : Bytes → ℕ → ℕ
char_at p n = get_or p n 0

-- The end of the inner body: `++n`, and `str` is set if the pattern ends there.
unfoldable pub advance : Bytes → ℕ → Cursor → Cursor
advance p i c =
    if (c.n + 1 == length p) && is_empty c.str
    then record c { n = c.n + 1; str = drop (i + 1) p }
    else record c { n = c.n + 1 }

-- One pass of the inner body; the flag says whether the loop goes on (`break` ends it).
unfoldable pub directive_step : Bytes → ℕ → Cursor → Cursor × Bool
unfolding advance
directive_step p i c =
    let ch = char_at p c.n in
    if (c.fmt_status == 0) && (not (isalpha ch) && (not (ch == b'{') && not (ch == b'}')))
    then (record c { str = substr p (i + 1) (c.n - i - 1) }, false)
    else if (c.fmt_status == 0) && (ch == b'{')
    then (
      record c {
        str = substr p (i + 1) (c.n - i - 1);
        fmt_status = 1;
        fmt_begin = c.n;
        n = c.n + 1;
      },
      true,
    )
    else if (c.fmt_status == 1) && (ch == b'}')
    then (
      record c {
        fmt = substr p (c.fmt_begin + 1) (c.n - c.fmt_begin - 1);
        fmt_status = 0;
        n = c.n + 1;
      },
      false,
    )
    else (advance p i c, true)

-- `while(n < m_pattern.size())`; `none` means that the fuel ran out.
unfoldable pub directive_loop : ℕ → Bytes → ℕ → Cursor → Option Cursor
directive_loop zero p i c = none
directive_loop (suc fuel) p i c =
    let next = directive_step p i c in
    let rest = directive_loop fuel p i next.0 in
    if ltb c.n (length p) then if next.1 then rest else some next.0 else some c

-- The locals before the inner loop.
abbrev pub first_cursor : ℕ → Cursor
first_cursor i = record { n = i + 1; fmt_status = 0; fmt_begin = 0; str = []; fmt = [] }

-- The locals of the outer loop, with `m_error`, and what it has printed on `std::cout`.
pub record Scanner : Type 0 where
  pub i : ℕ
  pub nstr : Bytes
  pub vec : List Piece
  pub error : Bool
  pub printed : Bytes

-- `if(!nstr.empty()) vec.push_back(nstr, "", 0)`
abbrev pub flush : List Piece → Bytes → List Piece
flush vec nstr = if is_empty nstr then vec else vec ++ literal_piece nstr ∷ []

-- The message for a brace that is not closed, in the directive at `i`.
abbrev pub parse_error : Bytes → ℕ → Bytes
parse_error p i = codes "Pattern parse error : " ++ (p ++ (codes " - " ++ (drop i p ++ codes "\n")))

-- The three branches on `fmt_status` after the inner loop; `i` is the index of the '%'.
unfoldable pub after_directive : Bytes → Scanner → Cursor → Scanner
after_directive p s c =
    if c.fmt_status == 0
    then record s {
      vec = flush s.vec s.nstr ++ record { text = c.str; fmt = c.fmt; kind = 1 } ∷ [];
      nstr = [];
      i = c.n - 1;
    }
    else if c.fmt_status == 1
    then record s {
      printed = s.printed ++ parse_error p s.i;
      error = true;
      vec = s.vec ++ record { text = codes "<<pattern_error>>"; fmt = c.fmt; kind = 0 } ∷ [];
    }
    else if c.fmt_status == 2
    then record s {
      vec = flush s.vec s.nstr ++ record { text = c.str; fmt = c.fmt; kind = 1 } ∷ [];
      nstr = [];
      i = c.n - 1;
    }
    else s

-- The body of the outer loop, without its `++i`.
unfoldable pub scan_step : Bytes → Scanner → Option Scanner
scan_step p s =
    if not (char_at p s.i == b'%')
    then some (record s { nstr = s.nstr ++ char_at p s.i ∷ [] })
    else if ltb (s.i + 1) (length p) && (char_at p (s.i + 1) == b'%')
    then some (record s { nstr = s.nstr ++ b'%' ∷ [] })
    else elim (directive_loop (length p) p s.i (first_cursor s.i)) [
      | none ↦ none
      | some c ↦ some (after_directive p s c)
    ]

-- `for(size_t i = 0; i < m_pattern.size(); i++)`
unfoldable pub scan_loop : ℕ → Bytes → Scanner → Option Scanner
scan_loop zero p s = none
scan_loop (suc fuel) p s =
    let go : Option Scanner = elim (scan_step p s) [
      | none ↦ none
      | some t ↦ scan_loop fuel p (record t { i = t.i + 1 })
    ] in
    if ltb s.i (length p) then go else some s

abbrev pub first_scanner : Scanner
first_scanner = record { i = 0; nstr = []; vec = []; error = false; printed = [] }

-- The whole scan, with the last literal text pushed.
unfoldable pub scan : Bytes → Option Scanner
scan p = elim (scan_loop (suc (length p)) p first_scanner) [
  | none ↦ none
  | some s ↦ some (record s { vec = flush s.vec s.nstr })
]
