-- ===== src/Assert.antt =====
-- The macros CHORD_ASSERT and CHORD_ASSERT2 of chord/marco.h: what they log and when they end the
-- program. The macros evaluate `x` again in `assert(x)`, which is taken to have the same value, and
-- the build leaves NDEBUG undefined.
pub mod Report
mod Tests
use chord_server.Prelude.{Bool, List, ◌++◌, Option, if◌then◌else◌, Bytes, codes, pos}
use chord_server.Log.World.{World, System, Run, ok, ◌>>=◌}
use chord_server.Log.Logger.Macros.{CallSite, log_error}
use chord_server.Log.Manager.{LoggerManager}
use chord_server.Backtrace.{backtrace_to_string}

-- The program goes on behind the macro, or `assert` ends it.
pub data Asserted : Type 0 where
  goes_on aborts : World → Asserted

-- `<< "\nbacktrace:\n" << BacktraceToString(20, 2, "    ")`, given what `backtrace_symbols` answers
-- for at most 20 frames.
unfoldable pub trace_text : Option (List Bytes) → Bytes
trace_text strings = codes "\nbacktrace:\n" ++ backtrace_to_string strings (pos 2) (codes "    ")

-- `CHORD_LOG_ERROR(CHORD_LOG_ROOT()) << text; assert(x);` where `x` is false, given the manager
-- that GetInstance answers.
unfoldable pub report : System → CallSite → LoggerManager → Bytes → Run Asserted
report sys s m text = do w ← log_error sys m.world s m.root text; ok (aborts w)

-- `CHORD_ASSERT(x)`, given the value of `x` and its text.
unfoldable pub chord_assert :
    System → CallSite → LoggerManager → Bool → Bytes → Option (List Bytes) → Run Asserted
unfolding report trace_text
chord_assert sys s m value x strings =
    if value
    then ok (goes_on m.world)
    else report sys s m (codes "ASSERTION: " ++ (x ++ trace_text strings))

-- `CHORD_ASSERT2(x, w)`, given the text of `w` as well.
unfoldable pub chord_assert2 :
    System → CallSite → LoggerManager → Bool → Bytes → Bytes → Option (List Bytes) → Run Asserted
unfolding report trace_text
chord_assert2 sys s m value x w strings =
    if value
    then ok (goes_on m.world)
    else report sys s m (codes "ASSERTION: " ++ (x ++ (codes "\n" ++ (w ++ trace_text strings))))
