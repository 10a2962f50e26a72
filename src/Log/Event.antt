-- ===== src/Log/Event.antt =====
-- LogEvent of chord/log.h and chord/logger.cpp, and how its numbers are printed.
use chord_server.Prelude.{
  Option, none, some, ℕ, zero, suc, ◌+◌, ◌/◌, ◌%◌, [], ◌∷◌, ◌++◌, ◌==◌, if◌then◌else◌, Bytes, ℤ,
  pos, negsuc,
}
use chord_server.Log.Level.{Level}

-- `class LogEvent`. A logger is named by its place in the store of loggers (Log/Logger); `content`
-- is what `m_ss` holds.
pub record LogEvent : Type 0 where
  pub file : Bytes
  pub line : ℤ
  pub elapsed : ℕ
  pub thread_id : ℕ
  pub fiber_id : ℕ
  pub time : ℕ
  pub content : Bytes
  pub logger : ℕ
  pub level : Level

-- The constructor: the stream starts empty.
unfoldable pub new_event : ℕ → Level → Bytes → ℤ → ℕ → ℕ → ℕ → ℕ → LogEvent
new_event logger level file line elapse thread_id fiber_id time = record {
  file = file;
  line = line;
  elapsed = elapse;
  thread_id = thread_id;
  fiber_id = fiber_id;
  time = time;
  content = [];
  logger = logger;
  level = level;
}

-- `event->getSS() << text`
unfoldable pub stream : LogEvent → Bytes → LogEvent
stream e text = record e { content = e.content ++ text }

-- `LogEvent::format`, given what `vasprintf` makes of the arguments: a text, or nothing where it
-- fails.
unfoldable pub format : LogEvent → Option Bytes → LogEvent
unfolding stream
format e none = e
format e (some text) = stream e text

decimal_onto : ℕ → ℕ → Bytes → Bytes
decimal_onto zero n out = out
decimal_onto (suc fuel) n out =
    let digit = (b'0' + n % 10) ∷ out in
    let more = decimal_onto fuel (n / 10) digit in if n / 10 == 0 then digit else more

-- `os << n` for an unsigned integer; a number has at most as many digits as its value plus one.
unfoldable pub decimal : ℕ → Bytes
unfolding decimal_onto
decimal n = decimal_onto (suc n) n []

-- `os << n` for a signed integer
unfoldable pub signed_decimal : ℤ → Bytes
unfolding decimal
signed_decimal (pos n) = decimal n
signed_decimal (negsuc n) = b'-' ∷ decimal (suc n)
