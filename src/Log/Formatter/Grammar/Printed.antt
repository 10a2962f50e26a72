-- ===== src/Log/Formatter/Grammar/Printed.antt =====
-- Patterns written from tokens, which the grammar reads back.
use chord_server.Prelude.{
  true, false, not, ◌||◌, ◌≡◌, refl, ◌∙◌, ◌⊎◌, inl, inr, List, [], ◌∷◌, ◌++◌, map, ◌==◌, Bytes, all,
  is_empty, arith, append-nil, append_assoc,
}
use chord_server.Log.Formatter.Scan.{Piece, literal_piece, flush}
use chord_server.Log.Formatter.Grammar.{
  is_name, read_braced, read_directive, starts_percent, pieces, read_pieces,
}
use chord_server.Log.Formatter.Grammar.Fuel.{pieces_plain, pieces_closed}

-- Literal text, `%name`, and `%name{fmt}`.
pub data Token : Type 0 where
  text : Bytes → Token
  bare : Bytes → Token
  braced : Bytes → Bytes → Token

abbrev pub show : List Token → Bytes
show [] = []
show (text s ∷ ts) = s ++ show ts
show (bare n ∷ ts) = b'%' ∷ (n ++ show ts)
show (braced n f ∷ ts) = b'%' ∷ (n ++ (b'{' ∷ (f ++ (b'}' ∷ show ts))))

abbrev pub piece_of : Token → Piece
piece_of (text s) = literal_piece s
piece_of (bare n) = record { text = n; fmt = []; kind = 1 }
piece_of (braced n f) = record { text = n; fmt = f; kind = 1 }

-- No literal text comes next: two in a row are read as one.
abbrev pub NoText : List Token → Type 0
NoText [] = Unit
NoText (text s ∷ ts) = ⊥
NoText (bare n ∷ ts) = Unit
NoText (braced n f ∷ ts) = Unit

-- What comes next ends a bare name: the end, a directive, or text that begins with neither a
-- letter nor a brace.
abbrev pub EndsName : List Token → Type 0
EndsName [] = Unit
EndsName (text [] ∷ ts) = ⊥
EndsName (text (c ∷ s) ∷ ts) = (is_name c ≡ false) × ((c == b'{') ≡ false)
EndsName (bare n ∷ ts) = Unit
EndsName (braced n f ∷ ts) = Unit

abbrev pub IsName : Bytes → Type 0
IsName n = (is_empty n ≡ false) × (all is_name n ≡ true)

abbrev pub IsPattern : List Token → Type 0
IsPattern [] = Unit
IsPattern (text s ∷ ts) =
    (is_empty s ≡ false) × (all (λ c. not (c == b'%')) s ≡ true) × NoText ts × IsPattern ts
IsPattern (bare n ∷ ts) = IsName n × EndsName ts × IsPattern ts
IsPattern (braced n f ∷ ts) = IsName n × (all (λ c. not (c == b'}')) f ≡ true) × IsPattern ts

pub pieces_text :
    (s nstr r : Bytes)
    → all (λ c. not (c == b'%')) s ≡ true
    → pieces nstr (s ++ r) ≡ pieces (nstr ++ s) r
pieces_text [] nstr r h = rw append-nil
pieces_text (c ∷ s) nstr r h =
    pieces_plain nstr (s ++ r) c (ground arith)
    ∙ pieces_text s (nstr ++ c ∷ []) r (ground arith)
    ∙ rw append_assoc

read_braced_text :
    (f name fmt r : Bytes)
    → all (λ c. not (c == b'}')) f ≡ true
    → read_braced name fmt (f ++ (b'}' ∷ r))
      ≡ record { name = name; fmt = fmt ++ f; rest = r; closed = true }
unfolding read_braced
read_braced_text [] name fmt r h = rw append-nil
read_braced_text (c ∷ f) name fmt r h =
    ground (arith, read_braced_text f name (fmt ++ c ∷ []) r, append_assoc fmt (c ∷ []) f)

pub read_directive_text :
    (n name r : Bytes)
    → all is_name n ≡ true
    → read_directive name (n ++ r) ≡ read_directive (name ++ n) r
unfolding read_directive
read_directive_text [] name r h = rw append-nil
read_directive_text (c ∷ n) name r h =
    ground (arith, read_directive_text n (name ++ c ∷ []) r, append_assoc name (c ∷ []) n)

read_directive_end :
    (ts : List Token) (name : Bytes)
    → EndsName ts
    → read_directive name (show ts)
      ≡ record { name = name; fmt = []; rest = show ts; closed = true }
unfolding read_directive
read_directive_end [] name h = refl
read_directive_end (text [] ∷ ts) name h = absurd h
read_directive_end (text (c ∷ s) ∷ ts) name h = rw (h.0, h.1)
read_directive_end (bare n ∷ ts) name h = refl
read_directive_end (braced n f ∷ ts) name h = refl

pub IsName-percent :
    (n r : Bytes) → IsName n → (not (b'%' == b'%') || starts_percent (n ++ r)) ≡ false
IsName-percent [] r h = ground arith
IsName-percent (c ∷ n) r h = ground arith

read_directive_braced :
    (n f : Bytes) (r : Bytes)
    → all is_name n ≡ true
    → all (λ c. not (c == b'}')) f ≡ true
    → read_directive [] (n ++ (b'{' ∷ (f ++ (b'}' ∷ r))))
      ≡ record { name = n; fmt = f; rest = r; closed = true }
unfolding read_directive
read_directive_braced n f r h k =
    read_directive_text n [] (b'{' ∷ (f ++ (b'}' ∷ r))) h ∙ read_braced_text f n [] r k

pub flush_text : (s : Bytes) → is_empty s ≡ false → flush [] s ≡ literal_piece s ∷ []
flush_text s e = rw e

-- A text of tokens is read as the pieces of the tokens, behind the literal text read so far.
pieces-show_behind :
    (ts : List Token) (nstr : Bytes)
    → IsPattern ts
    → (nstr ≡ []) ⊎ NoText ts
    → pieces nstr (show ts) ≡ (flush [] nstr ++ map piece_of ts, false)
pieces-show_behind [] nstr h k = unfold read_pieces in rw append-nil
pieces-show_behind (text s ∷ ts) nstr h (inr k) = absurd k
pieces-show_behind (text s ∷ ts) nstr h (inl k) =
    rw k (
      pieces_text s [] (show ts) h.1
      ∙ pieces-show_behind ts s h.3 (inr h.2)
      ∙ rw (flush_text s h.0))
pieces-show_behind (bare n ∷ ts) nstr h k =
    pieces_closed nstr (n ++ show ts) b'%'
      (record { name = n; fmt = []; rest = show ts; closed = true })
      (IsName-percent n (show ts) h.0)
      (read_directive_text n [] (show ts) h.0.1 ∙ read_directive_end ts n h.1) refl
    ∙ rw (pieces-show_behind ts [] h.2 (inl refl))
pieces-show_behind (braced n f ∷ ts) nstr h k =
    pieces_closed nstr (n ++ (b'{' ∷ (f ++ (b'}' ∷ show ts)))) b'%'
      (record { name = n; fmt = f; rest = show ts; closed = true }) (IsName-percent n _ h.0)
      (read_directive_braced n f (show ts) h.0.1 h.1) refl
    ∙ rw (pieces-show_behind ts [] h.2 (inl refl))

-- A pattern written from tokens is read back as those tokens, with no error.
pub pieces-show : (ts : List Token) → IsPattern ts → pieces [] (show ts) ≡ (map piece_of ts, false)
pieces-show ts h = pieces-show_behind ts [] h (inl refl)
