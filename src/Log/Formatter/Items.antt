-- ===== src/Log/Formatter/Items.antt =====
-- The classes derived from LogFormatter::FormatItem, the table that makes them (second half of
-- LogFormatter::init), and what they print.
use chord_server.Prelude.{
  ℕ, Bool, true, false, ◌||◌, List, [], ◌∷◌, ◌++◌, Option, none, some, is_empty, ◌==◌,
  if◌then◌else◌, Bytes, codes, equal,
}
use chord_server.Log.Level.{Level, to_string}
use chord_server.Log.Event.{LogEvent, decimal, signed_decimal}
use chord_server.Log.Formatter.Scan.{Piece}

-- A constructor for each derived class, with the fields that it keeps.
pub data FormatItem : Type 0 where
  message level elapse name thread_id new_line filename line fiber_id tab : FormatItem
  date_time : Bytes → FormatItem
  string : Bytes → FormatItem

-- DateTimeFormatItem's constructor: an empty format is replaced.
unfoldable pub new_date_time : Bytes → FormatItem
new_date_time format = date_time (if is_empty format then codes "%Y-%m-%d %H:%M:%S" else format)

-- `s_format_items.find(str)`, and the call of what it finds.
unfoldable pub make_item : Bytes → Bytes → Option FormatItem
unfolding new_date_time
make_item str fmt =
    if equal str (codes "m")
    then some message
    else if equal str (codes "p")
    then some level
    else if equal str (codes "r")
    then some elapse
    else if equal str (codes "c")
    then some name
    else if equal str (codes "t")
    then some thread_id
    else if equal str (codes "n")
    then some new_line
    else if equal str (codes "d")
    then some (new_date_time fmt)
    else if equal str (codes "f")
    then some filename
    else if equal str (codes "l")
    then some line
    else if equal str (codes "F")
    then some fiber_id
    else if equal str (codes "T")
    then some tab
    else none

-- One round of the loop over `vec`: the item, and whether it sets `m_error`.
unfoldable pub build_one : Piece → FormatItem × Bool
build_one p = if p.kind == 0 then (string p.text, false) else elim (make_item p.text p.fmt) [
  | none ↦ (string (codes "<<error_format %" ++ (p.text ++ codes ">>")), true)
  | some item ↦ (item, false)
]

-- The loop over `vec`.
unfoldable pub build : List Piece → List FormatItem × Bool
unfolding build_one make_item
build [] = ([], false)
build (p ∷ ps) =
    let (item, bad) = build_one p in let (items, worse) = build ps in (item ∷ items, bad || worse)

-- What the items ask of the rest of the process: `localtime_r` with `strftime` into the buffer of
-- 64 bytes, and the name of a logger, which is fixed when it is made.
pub record Library : Type 0 where
  pub strftime : Bytes → ℕ → Bytes
  pub logger_name : ℕ → Bytes

-- The `format` methods, one clause for each class. `std::endl` writes a newline.
unfoldable pub print_item : Library → FormatItem → Level → LogEvent → Bytes
print_item lib message at_level event = event.content
print_item lib level at_level event = to_string at_level
print_item lib elapse at_level event = decimal event.elapsed
print_item lib name at_level event = lib.logger_name event.logger
print_item lib thread_id at_level event = decimal event.thread_id
print_item lib fiber_id at_level event = decimal event.fiber_id
print_item lib (date_time format) at_level event = lib.strftime format event.time
print_item lib filename at_level event = event.file
print_item lib line at_level event = signed_decimal event.line
print_item lib new_line at_level event = b'\n' ∷ []
print_item lib (string text) at_level event = text
print_item lib tab at_level event = b'\t' ∷ []

-- The loop of LogFormatter::format, on the stream's text.
unfoldable pub print : Library → List FormatItem → Level → LogEvent → Bytes
unfolding print_item to_string decimal signed_decimal
print lib [] at_level event = []
print lib (item ∷ items) at_level event =
    print_item lib item at_level event ++ print lib items at_level event
