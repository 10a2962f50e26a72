-- ===== src/Log/Formatter/Lines.antt =====
-- What a formatter prints, against the table of directives that log.h documents.
use chord_server.Prelude.{
  ℕ, Bool, true, false, ◌||◌, ◌≡◌, refl, ap, List, [], ◌∷◌, ◌++◌, map, Option, none, some, ◌==◌,
  if◌then◌else◌, is_empty, Bytes, codes, arith,
}
use chord_server.Log.Level.{Level, to_string}
use chord_server.Log.Event.{LogEvent, decimal, signed_decimal}
use chord_server.Log.Formatter.Scan.{Piece}
use chord_server.Log.Formatter.Items.{
  FormatItem, Library, make_item, build_one, build, print_item, print,
}
use chord_server.Log.Formatter.Grammar.{pieces}
use chord_server.Log.Formatter.Grammar.Whole.{scan-read_pieces}
use chord_server.Log.Formatter.Grammar.Printed.{
  Token, text, bare, braced, show, piece_of, IsPattern, pieces-show,
}
use chord_server.Log.Formatter.{LogFormatter, new_formatter, format}

module _ (lib : Library) (at_level : Level) (event : LogEvent) where
  -- The text for a letter, from the table in log.h and the comments in the table of logger.cpp.
  abbrev pub field : ℕ → Bytes → Option Bytes
  field c fmt =
      if c == b'm'
      then some event.content
      else if c == b'p'
      then some (to_string at_level)
      else if c == b'r'
      then some (decimal event.elapsed)
      else if c == b'c'
      then some (lib.logger_name event.logger)
      else if c == b't'
      then some (decimal event.thread_id)
      else if c == b'n'
      then some (b'\n' ∷ [])
      else if c == b'd'
      then some (lib.strftime (if is_empty fmt then codes "%Y-%m-%d %H:%M:%S" else fmt) event.time)
      else if c == b'f'
      then some event.file
      else if c == b'l'
      then some (signed_decimal event.line)
      else if c == b'F'
      then some (decimal event.fiber_id)
      else if c == b'T'
      then some (b'\t' ∷ [])
      else none

  -- Only names of one letter mean something.
  abbrev pub named : Bytes → Bytes → Option Bytes
  named [] fmt = none
  named (c ∷ []) fmt = field c fmt
  named (c ∷ d ∷ n) fmt = none

  abbrev pub meaning : Token → Option Bytes
  meaning (text s) = some s
  meaning (bare n) = named n []
  meaning (braced n f) = named n f

  abbrev pub join : Option Bytes → Option Bytes → Option Bytes
  join (some a) (some b) = some (a ++ b)
  join (some a) none = none
  join none b = none

  -- The line that the tokens stand for, if each of them means something.
  abbrev pub line : List Token → Option Bytes
  line [] = some []
  line (t ∷ ts) = join (meaning t) (line ts)

  printed : Option FormatItem → Option Bytes
  printed none = none
  printed (some item) = some (print_item lib item at_level event)

  make_item-named : (n fmt : Bytes) → printed (make_item n fmt) ≡ named n fmt
  unfolding printed make_item print_item
  make_item-named [] fmt = refl
  make_item-named (c ∷ []) fmt = ground arith
  make_item-named (c ∷ d ∷ n) fmt = ground arith

  -- One item against a meaning: an error exactly if there is none.
  abbrev Agrees : FormatItem × Bool → Option Bytes → Type 0
  Agrees r none = r.1 ≡ true
  Agrees r (some out) = (r.1 ≡ false) × (print_item lib r.0 at_level event ≡ out)

  Agrees-found :
      (p : Piece) (found : Option FormatItem) (out : Option Bytes)
      → printed found ≡ out
      → Agrees
          (elim found [
            | none ↦ (FormatItem.string (codes "<<error_format %" ++ (p.text ++ codes ">>")), true)
            | some item ↦ (item, false)
          ])
          out
  unfolding printed
  Agrees-found p none out h = rw (← h) refl
  Agrees-found p (some item) out h = rw (← h) (refl, refl)

  build_one-Agrees : (t : Token) → Agrees (build_one (piece_of t)) (meaning t)
  unfolding build_one print_item
  build_one-Agrees (text s) = (refl, refl)
  build_one-Agrees (bare n) =
      Agrees-found (piece_of (bare n)) (make_item n []) _ (make_item-named n [])
  build_one-Agrees (braced n f) =
      Agrees-found (piece_of (braced n f)) (make_item n f) _ (make_item-named n f)

  -- All items against the line.
  abbrev pub Renders : List FormatItem × Bool → Option Bytes → Type 0
  Renders r none = r.1 ≡ true
  Renders r (some out) = (r.1 ≡ false) × (print lib r.0 at_level event ≡ out)

  Renders-join :
      (r q : FormatItem × Bool) (items : List FormatItem) (bad : Bool) (m l : Option Bytes)
      → Agrees r m
      → Renders (items, bad) l
      → Renders (r.0 ∷ items, r.1 || bad) (join m l)
  unfolding print
  Renders-join r q items bad none l h k = rw h
  Renders-join r q items true (some a) none h k = ground arith
  Renders-join r q items false (some a) none h k = ground arith
  Renders-join r q items bad (some a) (some b) h k =
      (rw (h.0, k.0), rw (k.1) (ap (λ t. t ++ b) h.1))

  build-Renders : (ts : List Token) → Renders (build (map piece_of ts)) (line ts)
  unfolding build
  build-Renders [] = unfold print in (refl, refl)
  build-Renders (t ∷ ts) =
      Renders-join (build_one (piece_of t)) (build_one (piece_of t)) _ _ (meaning t) (line ts)
        (build_one-Agrees t) (build-Renders ts)

-- For every pattern the constructor returns a formatter: its items are built from the pieces that
-- the grammar reads, left to right, from the pattern, and its error flag is set exactly if the
-- grammar meets a brace that is not closed or a piece names no item.
pub new_formatter-pieces :
    (p : Bytes)
    → new_formatter p
      ≡ some (record {
        pattern = p;
        items = (build (pieces [] p).0).0;
        is_error = (pieces [] p).1 || (build (pieces [] p).0).1;
      })
unfolding new_formatter
new_formatter-pieces p =
    let (s, made, vec, error) = scan-read_pieces p in rw (made, new_formatter) (rw (vec, error))

-- What a formatter must do if its pattern stands for `out`: print that with no error, or report an
-- error if the pattern has no meaning.
abbrev pub Prints : Library → Level → LogEvent → LogFormatter → Option Bytes → Type 0
Prints lib at_level event f none = f.is_error ≡ true
Prints lib at_level event f (some out) = (f.is_error ≡ false) × (format lib f at_level event ≡ out)

Renders-Prints :
    (lib : Library) (at_level : Level) (event : LogEvent) (p : Bytes) (items : List FormatItem)
    (bad : Bool) (l : Option Bytes)
    → Renders lib at_level event (items, bad) l
    → Prints lib at_level event (record { pattern = p; items = items; is_error = bad }) l
unfolding format
Renders-Prints lib at_level event p items bad none h = h
Renders-Prints lib at_level event p items bad (some out) h = h

-- For every pattern written from literal text and directives, the constructor returns a formatter;
-- if each directive is in the table, it has no error and prints for every event the concatenation
-- of what the pieces stand for; if one is not, it reports an error.
pub new_formatter-show :
    (lib : Library) (at_level : Level) (event : LogEvent) (ts : List Token)
    → IsPattern ts
    → (f : LogFormatter) × (new_formatter (show ts) ≡ some f)
      × Prints lib at_level event f (line lib at_level event ts)
unfolding format
new_formatter-show lib at_level event ts h = (
  _,
  new_formatter-pieces (show ts),
  rw (pieces-show ts h) (
      Renders-Prints lib at_level event (show ts) _ _ (line lib at_level event ts)
        (build-Renders lib at_level event ts)),
)
