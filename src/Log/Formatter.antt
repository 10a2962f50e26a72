-- ===== src/Log/Formatter.antt =====
-- LogFormatter of chord/log.h and chord/logger.cpp: the scan of the pattern by index, the table of
-- items, and the line that the items print. The definitions are in Scan and Items.
pub mod Scan
pub mod Items
pub mod Grammar
pub mod Lines
pub mod Faults
mod Tests
use chord_server.Prelude.{
  ℕ, suc, ◌+◌, Bool, true, false, ◌||◌, List, [], ◌∷◌, ◌++◌, Option, none, some, length, Bytes,
}
use chord_server.Log.Level.{Level}
use chord_server.Log.Event.{LogEvent}
use Scan.{Scanner, scan}
use Items.{FormatItem, build, print, Library}

-- `class LogFormatter`
pub record LogFormatter : Type 0 where
  pub pattern : Bytes
  pub items : List FormatItem
  pub is_error : Bool

-- The constructor, which runs `init()`; `none` only if the scan runs out of fuel.
unfoldable pub new_formatter : Bytes → Option LogFormatter
new_formatter pattern = elim (scan pattern) [
  | none ↦ none
  | some s ↦
      some (record {
        pattern = pattern;
        items = (build s.vec).0;
        is_error = s.error || (build s.vec).1;
      })
]

-- `LogFormatter::format`: the items print one after another on an empty stream.
unfoldable pub format : Library → LogFormatter → Level → LogEvent → Bytes
format lib f level event = print lib f.items level event

-- What the constructor prints on `std::cout`.
unfoldable pub constructor_output : Bytes → Bytes
constructor_output pattern = elim (scan pattern) [ none ↦ [] | some s ↦ s.printed ]
