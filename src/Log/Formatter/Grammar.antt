-- ===== src/Log/Formatter/Grammar.antt =====
-- The language of patterns without indices: what LogFormatter::init should read from a text.
pub mod Braced
pub mod Named
pub mod Whole
pub mod Fuel
pub mod Printed
use chord_server.Prelude.{
  ℕ, zero, suc, ◌+◌, Bool, true, false, not, ◌&&◌, ◌||◌, List, [], ◌∷◌, ◌++◌, length, get_or, drop,
  ◌==◌, if◌then◌else◌, Bytes, codes, isalpha,
}
use chord_server.Log.Formatter.Scan.{Piece, literal_piece, flush}

-- What stands behind a '%': its name, the text between its braces, and what is left. A directive
-- whose brace is not closed is not `closed`.
pub record Directive : Type 0 where
  pub name : Bytes
  pub fmt : Bytes
  pub rest : Bytes
  pub closed : Bool

-- A '}' that closes nothing belongs to the name.
abbrev pub is_name : ℕ → Bool
is_name c = isalpha c || c == b'}'

-- Behind the '{' of `name`, with `fmt` read so far.
unfoldable pub read_braced : Bytes → Bytes → Bytes → Directive
read_braced name fmt [] = record { name = name; fmt = []; rest = []; closed = false }
read_braced name fmt (c ∷ r) =
    let more = read_braced name (fmt ++ c ∷ []) r in
    if c == b'}' then record { name = name; fmt = fmt; rest = r; closed = true } else more

-- Behind the '%', with `name` read so far.
unfoldable pub read_directive : Bytes → Bytes → Directive
unfolding read_braced
read_directive name [] = record { name = name; fmt = []; rest = []; closed = true }
read_directive name (c ∷ r) =
    let more = read_directive (name ++ c ∷ []) r in
    if is_name c
    then more
    else if c == b'{'
    then read_braced name [] r
    else record { name = name; fmt = []; rest = c ∷ r; closed = true }

abbrev pub directive_piece : Directive → Piece
directive_piece d = record { text = d.name; fmt = d.fmt; kind = 1 }

abbrev pub error_piece : Piece
error_piece = record { text = codes "<<pattern_error>>"; fmt = []; kind = 0 }

-- `true` if the text begins with '%'.
abbrev pub starts_percent : Bytes → Bool
starts_percent [] = false
starts_percent (c ∷ r) = c == b'%'

-- The pieces of a text, with the literal text read before it, and whether there is an error. The
-- first argument bounds the number of characters.
unfoldable pub read_pieces : ℕ → Bytes → Bytes → List Piece × Bool
read_pieces zero nstr r = (flush [] nstr, false)
read_pieces (suc n) nstr [] = (flush [] nstr, false)
read_pieces (suc n) nstr (c ∷ r) =
    let d = read_directive [] r in
    let plain = read_pieces n (nstr ++ c ∷ []) r in
    let after = read_pieces n [] d.rest in
    let again = read_pieces n nstr r in
    if not (c == b'%') || starts_percent r
    then plain
    else if d.closed
    then (flush [] nstr ++ directive_piece d ∷ after.0, after.1)
    else (error_piece ∷ again.0, true)

-- With enough for every character (Grammar/Fuel).
abbrev pub pieces : Bytes → Bytes → List Piece × Bool
pieces nstr r = read_pieces (suc (length r)) nstr r
