-- ===== src/Log/Formatter/Tests.antt =====
-- Runs of the formatter on patterns of the program.
use chord_server.Prelude.{
  true, false, List, [], ◌∷◌, ◌++◌, ◌||◌, some, ◌≡◌, refl, Bytes, codes, pos,
}
use chord_server.Log.Level.{info, to_string}
use chord_server.Log.Event.{LogEvent}
use chord_server.Log.Formatter.Items.{build, FormatItem, Library}
use chord_server.Log.Formatter.Scan.{
  scan, scan_loop, scan_step, after_directive, directive_loop, directive_step,
}
use chord_server.Log.Formatter.{LogFormatter, new_formatter, constructor_output}
use chord_server.Log.Formatter.Grammar.{pieces}
use chord_server.Log.Formatter.Grammar.Printed.{Token, text, bare, braced, show, IsPattern}
use chord_server.Log.Formatter.Lines.{Prints, line, new_formatter-pieces, new_formatter-show}
use chord_server.Log.Formatter.Faults.{new_formatter-percent_percent, new_formatter_unclosed}

abbrev default_pattern : Bytes
default_pattern = codes "%d{%Y-%m-%d %H:%M:%S}%T%t%T%F%T[%p]%T[%c]%f:%l%T%m%n"

default_items : List FormatItem
default_items =
    FormatItem.date_time (codes "%Y-%m-%d %H:%M:%S")
    ∷ FormatItem.tab
    ∷ FormatItem.thread_id
    ∷ FormatItem.tab
    ∷ FormatItem.fiber_id
    ∷ FormatItem.tab
    ∷ FormatItem.string (codes "[")
    ∷ FormatItem.level
    ∷ FormatItem.string (codes "]")
    ∷ FormatItem.tab
    ∷ FormatItem.string (codes "[")
    ∷ FormatItem.name
    ∷ FormatItem.string (codes "]")
    ∷ FormatItem.filename
    ∷ FormatItem.string (codes ":")
    ∷ FormatItem.line
    ∷ FormatItem.tab
    ∷ FormatItem.message
    ∷ FormatItem.new_line
    ∷ []

default_formatter :
    new_formatter default_pattern
    ≡ some (record { pattern = default_pattern; items = default_items; is_error = false })
unfolding new_formatter scan scan_loop scan_step after_directive directive_loop directive_step build
    default_items
default_formatter = refl

abbrev lib : Library
lib = record { strftime = λ f t. f; logger_name = λ l. codes "root" }

abbrev event : LogEvent
event = record {
  file = codes "main.cpp";
  line = pos 3;
  elapsed = 0;
  thread_id = 1;
  fiber_id = 0;
  time = 0;
  content = codes "hello";
  logger = 0;
  level = info;
}

-- "[%p] %d{%H:%M}%m"
abbrev tokens : List Token
tokens =
    text (codes "[")
    ∷ bare (codes "p")
    ∷ text (codes "] ")
    ∷ braced (codes "d") (codes "%H:%M")
    ∷ bare (codes "m")
    ∷ []

tokens_line : line lib info event tokens ≡ some (codes "[INFO] %H:%Mhello")
unfolding to_string
tokens_line = refl

tokens-IsPattern : IsPattern tokens
tokens-IsPattern = (
  refl,
  refl,
  tt,
  ((refl, refl), (refl, refl), (refl, refl, tt, ((refl, refl), refl, ((refl, refl), tt, tt)))),
)

new_formatter-show_example :
    (f : LogFormatter) × (new_formatter (show tokens) ≡ some f)
    × Prints lib info event f (line lib info event tokens)
new_formatter-show_example = new_formatter-show lib info event tokens tokens-IsPattern

new_formatter-pieces_example :
    new_formatter default_pattern
    ≡ some (record {
      pattern = default_pattern;
      items = (build (pieces [] default_pattern).0).0;
      is_error = (pieces [] default_pattern).1 || (build (pieces [] default_pattern).0).1;
    })
new_formatter-pieces_example = new_formatter-pieces default_pattern

new_formatter-percent_percent_example :
    new_formatter (codes "100" ++ codes "%%")
    ≡ some (record {
      pattern = codes "100%%";
      items =
          FormatItem.string (codes "100%") ∷ FormatItem.string (codes "<<error_format %>>") ∷ [];
      is_error = true;
    })
new_formatter-percent_percent_example = new_formatter-percent_percent (codes "100") refl

new_formatter_unclosed_example :
    new_formatter (codes "at " ++ (b'%' ∷ (codes "d" ++ (b'{' ∷ codes "H:M"))))
    ≡ some (record {
      pattern = codes "at %d{H:M";
      items =
          FormatItem.string (codes "<<pattern_error>>") ∷ FormatItem.string (codes "at d{H:M") ∷ [];
      is_error = true;
    })
new_formatter_unclosed_example =
    new_formatter_unclosed (codes "at ") (codes "d") (codes "H:M") refl (refl, refl) refl refl

-- The constructor prints a message for the pattern with a brace that is not closed.
unclosed_output :
    constructor_output (codes "at %d{H:M") ≡ codes "Pattern parse error : at %d{H:M - %d{H:M\n"
unfolding constructor_output scan scan_loop scan_step after_directive directive_loop directive_step
unclosed_output = refl
