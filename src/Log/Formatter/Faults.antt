-- ===== src/Log/Formatter/Faults.antt =====
-- Patterns on which LogFormatter::init does not do what the comment above it says.
use chord_server.Prelude.{
  ℕ, true, false, not, ◌≡◌, refl, sym, ap, ◌∙◌, [], ◌∷◌, ◌++◌, some, ◌==◌, is_empty, all, Bytes,
  codes, arith, append-nil,
}
use chord_server.Log.Formatter.Scan.{literal_piece, flush}
use chord_server.Log.Formatter.Items.{FormatItem, build, make_item}
use chord_server.Log.Formatter.Grammar.{
  read_braced, read_directive, error_piece, pieces, read_pieces,
}
use chord_server.Log.Formatter.Grammar.Fuel.{pieces_plain, pieces_closed, pieces_unclosed}
use chord_server.Log.Formatter.Grammar.Printed.{
  IsName, IsName-percent, pieces_text, read_directive_text, flush_text,
}
use chord_server.Log.Formatter.Lines.{new_formatter-pieces}
use chord_server.Log.Formatter.{new_formatter}

abbrev pub NoPercent : Bytes → Type 0
NoPercent s = all (λ c. not (c == b'%')) s ≡ true

is_empty-append : (s : Bytes) (c : ℕ) (r : Bytes) → is_empty (s ++ c ∷ r) ≡ false
is_empty-append [] c r = refl
is_empty-append (x ∷ s) c r = refl

pieces-percent_percent :
    (s : Bytes)
    → NoPercent s
    → pieces [] (s ++ codes "%%")
      ≡ (literal_piece (s ++ codes "%") ∷ record { text = []; fmt = []; kind = 1 } ∷ [], false)
pieces-percent_percent s h =
    pieces_text s [] (codes "%%") h
    ∙ pieces_plain s (codes "%") b'%' refl
    ∙ pieces_closed (s ++ codes "%") [] b'%'
        (record { name = []; fmt = []; rest = []; closed = true }) refl
        (unfold read_directive in refl) refl
    ∙ unfold read_pieces in rw (flush_text (s ++ codes "%") (is_empty-append s b'%' []))

-- "%%" is no escape for '%': the second '%' is read again, so text followed by "%%" is a pattern
-- with an error, and its items are the text with one '%' and an error mark.
pub new_formatter-percent_percent :
    (s : Bytes)
    → NoPercent s
    → new_formatter (s ++ codes "%%")
      ≡ some (record {
        pattern = s ++ codes "%%";
        items =
            FormatItem.string (s ++ codes "%")
            ∷ FormatItem.string (codes "<<error_format %>>")
            ∷ [];
        is_error = true;
      })
unfolding build make_item
new_formatter-percent_percent s h =
    new_formatter-pieces (s ++ codes "%%") ∙ rw (pieces-percent_percent s h)

read_braced_open :
    (f name fmt : Bytes)
    → all (λ c. not (c == b'}')) f ≡ true
    → (read_braced name fmt f).closed ≡ false
unfolding read_braced
read_braced_open [] name fmt h = refl
read_braced_open (c ∷ f) name fmt h = ground (arith, read_braced_open f name (fmt ++ c ∷ []))

pieces_rest : (w s : Bytes) → NoPercent w → pieces s w ≡ (flush [] (s ++ w), false)
unfolding read_pieces
pieces_rest w s h = ap (pieces s) (sym (append-nil w)) ∙ pieces_text w s [] h

is_empty-append_brace : (s n f : Bytes) → is_empty (s ++ (n ++ (b'{' ∷ f))) ≡ false
is_empty-append_brace s [] f = is_empty-append s b'{' f
is_empty-append_brace s (x ∷ n) f = is_empty-append s x (n ++ (b'{' ∷ f))

closed-unclosed :
    (n f : Bytes)
    → IsName n
    → all (λ c. not (c == b'}')) f ≡ true
    → (read_directive [] (n ++ (b'{' ∷ f))).closed ≡ false
unfolding read_directive
closed-unclosed n f k r = rw (read_directive_text n [] (b'{' ∷ f) k.1) (read_braced_open f n [] r)

pieces_unclosed_brace :
    (s n f : Bytes)
    → NoPercent s
    → IsName n
    → NoPercent (n ++ (b'{' ∷ f))
    → all (λ c. not (c == b'}')) f ≡ true
    → pieces [] (s ++ (b'%' ∷ (n ++ (b'{' ∷ f))))
      ≡ (error_piece ∷ literal_piece (s ++ (n ++ (b'{' ∷ f))) ∷ [], true)
pieces_unclosed_brace s n f h k q r =
    let w = n ++ (b'{' ∷ f) in
    pieces_text s [] (b'%' ∷ w) h
    ∙ pieces_unclosed s w b'%' (IsName-percent n (b'{' ∷ f) k) (closed-unclosed n f k r)
    ∙ rw (pieces_rest w s q, flush_text (s ++ w) (is_empty-append_brace s n f))

-- In a pattern of literal text and one directive whose name is followed by a brace that is not
-- closed, with no other percent sign, the error mark comes first, then all the literal text, the
-- directive's own characters included but for its '%'.
pub new_formatter_unclosed :
    (s n f : Bytes)
    → NoPercent s
    → IsName n
    → NoPercent (n ++ (b'{' ∷ f))
    → all (λ c. not (c == b'}')) f ≡ true
    → new_formatter (s ++ (b'%' ∷ (n ++ (b'{' ∷ f))))
      ≡ some (record {
        pattern = s ++ (b'%' ∷ (n ++ (b'{' ∷ f)));
        items =
            FormatItem.string (codes "<<pattern_error>>")
            ∷ FormatItem.string (s ++ (n ++ (b'{' ∷ f)))
            ∷ [];
        is_error = true;
      })
unfolding build
new_formatter_unclosed s n f h k q r =
    new_formatter-pieces (s ++ (b'%' ∷ (n ++ (b'{' ∷ f))))
    ∙ rw (pieces_unclosed_brace s n f h k q r)
