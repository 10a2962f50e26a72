-- ===== src/Log/Appender.antt =====
-- LogAppender, StdOutLogAppender and FileLogAppender of chord/logger.cpp.
pub mod Files
mod Tests
use chord_server.Prelude.{
  ℕ, suc, ◌+◌, ◌-◌, ◌%◌, ◌^◌, Bool, true, false, not, List, [], ◌∷◌, ◌++◌, Option, none, some,
  length, take, drop, leb, ◌==◌, if◌then◌else◌, Bytes, codes,
}
use chord_server.Log.Level.{Level, debug}
use chord_server.Log.Event.{LogEvent}
use chord_server.Log.Formatter.Items.{Library}
use chord_server.Log.Formatter.{LogFormatter, format}
use chord_server.Log.World.{
  OutStream, LogFile, Target, std_out, file, LogAppender, World, System, Run, ok, null_pointer,
  update_disk, set_appender, cout,
}

abbrev is_some : Option LogFormatter → Bool
is_some none = false
is_some (some f) = true

-- `LogAppender::setFormatter`
unfoldable pub set_formatter : LogAppender → Option LogFormatter → LogAppender
set_formatter a val = record a { formatter = val; has_formatter = is_some val }

-- `LogAppender::getFormatter`
abbrev pub get_formatter : LogAppender → Option LogFormatter
get_formatter a = a.formatter

-- `LogAppender::setLevel`
abbrev pub set_level : LogAppender → Level → LogAppender
set_level a level = record a { level = level }

-- The members' initial values.
abbrev pub new_appender : Target → LogAppender
new_appender target = record {
  target = target;
  formatter = none;
  level = debug;
  has_formatter = false;
}

-- `ofstream::close`: it fails if no file is open.
unfoldable pub close : OutStream → OutStream
close s = if s.is_open then record s { is_open = false } else record s { failed = true }

-- `ofstream::open` in its default mode: it fails on a stream that is open already; otherwise the
-- file is emptied and the state cleared. It gives the stream and the disk.
unfoldable pub open_file :
    System → Bytes → OutStream → (Bytes → Bytes) → OutStream × (Bytes → Bytes)
open_file sys path s disk =
    if s.is_open
    then (record s { failed = true }, disk)
    else if sys.can_open path
    then (record { is_open = true; failed = false; position = 0 }, update_disk disk path [])
    else (record s { failed = true }, disk)

-- A file appender's fields and the disk.
pub record FileState : Type 0 where
  pub file : LogFile
  pub disk : Bytes → Bytes

-- `FileLogAppender::reopen`
unfoldable pub reopen : System → FileState → FileState
unfolding close open_file
reopen sys st =
    let f = st.file in
    let closed = if not f.stream.failed then close f.stream else f.stream in
    let opened = open_file sys f.filename closed st.disk in
    record { file = record f { stream = opened.0 }; disk = opened.1 }

-- What `reopen` returns, `!m_filestream` behind the opening.
unfoldable pub reopen_result : System → FileState → Bool
unfolding reopen
reopen_result sys st = (reopen sys st).file.stream.failed

-- `FileLogAppender::FileLogAppender`: `m_lastTime` is left as it was in memory.
unfoldable pub new_log_file : System → Bytes → ℕ → (Bytes → Bytes) → FileState
unfolding reopen
new_log_file sys filename last_time disk = reopen sys (record {
  file = record {
    filename = filename;
    stream = record { is_open = false; failed = false; position = 0 };
    last_time = last_time;
  };
  disk = disk;
})

-- The text in the file, at the stream's position, or the bytes that reached it before the failure.
unfoldable pub put_text : FileState → Bytes → Bool → FileState
put_text st text fails =
    let f = st.file in
    let s = f.stream in
    let old = st.disk f.filename in
    record {
      file = record f { stream = record s { position = s.position + length text; failed = fails } };
      disk =
          update_disk st.disk f.filename
            (take s.position old ++ (text ++ drop (s.position + length text) old));
    }

unfoldable pub put : FileState → Bytes → Option ℕ → FileState
unfolding put_text
put st text none = put_text st text false
put st text (some n) = put_text st (take n text) true

-- `m_filestream << text`: nothing is written by a failed stream, a stream with no file fails, and
-- the write itself may fail.
unfoldable pub write : System → FileState → Bytes → FileState
unfolding put
write sys st text =
    let f = st.file in
    let s = f.stream in
    if s.failed
    then st
    else if not s.is_open
    then record st { file = record f { stream = record s { failed = true } } }
    else put st text (sys.fails_at f.filename text)

-- `uint64_t`
abbrev pub u64 : ℕ → ℕ
u64 n = n % 2 ^ 64

-- `if(now != m_lastTime + 3) { reopen(); m_lastTime = now; }`
unfoldable pub refresh : System → FileState → FileState
unfolding reopen
refresh sys st =
    if not (sys.now == u64 (st.file.last_time + 3))
    then record {
      file = record (reopen sys st).file { last_time = sys.now };
      disk = (reopen sys st).disk;
    }
    else st

-- FileLogAppender::log behind its level test, on the formatted text.
unfoldable pub log_file : System → FileState → Bytes → FileState
log_file sys st text = write sys (refresh sys st) text

-- The formatter's text for an event; the name of a logger is read from the store.
abbrev pub line : System → World → LogFormatter → Level → LogEvent → Bytes
line sys w f level event =
    format (record { strftime = sys.strftime; logger_name = λ i. (w.logger i).name }) f level event

-- What an appender does with a formatted line.
unfoldable pub emit : System → World → ℕ → LogAppender → Target → Bytes → World
unfolding log_file
emit sys w i a std_out text = cout w text
emit sys w i a (file f) text =
    let st = log_file sys (record { file = f; disk = w.disk }) text in
    let stored =
      set_appender (record w { disk = st.disk }) i (record a { target = file st.file }) in
    if st.file.stream.failed then cout stored (codes "file_appender log error\n") else stored

unfoldable pub emit_formatted :
    System → World → ℕ → LogAppender → Option LogFormatter → Level → LogEvent → Run World
emit_formatted sys w i a none level event = null_pointer
emit_formatted sys w i a (some f) level event =
    ok (emit sys w i a a.target (line sys w f level event))

-- `StdOutLogAppender::log` and `FileLogAppender::log`, for the appender at `i`.
unfoldable pub log : System → World → ℕ → Level → LogEvent → Run World
unfolding emit_formatted
log sys w i level event =
    let a = w.appender i in
    if leb a.level level then emit_formatted sys w i a a.formatter level event else ok w
