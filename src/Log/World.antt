-- ===== src/Log/World.antt =====
-- The state of the logging component: appenders and loggers as objects on a store, addressed by
-- number, since loggers share them by pointer; the standard output, and the files on disk.
use chord_server.Prelude.{ℕ, Bool, List, ◌++◌, Option, ◌==◌, if◌then◌else◌, Bytes, equal}
use chord_server.Log.Level.{Level}
use chord_server.Log.Formatter.{LogFormatter}

-- `std::ofstream`: whether it holds an open file, whether it is in a failed state, and where it
-- writes next.
pub record OutStream : Type 0 where
  pub is_open : Bool
  pub failed : Bool
  pub position : ℕ

-- FileLogAppender's own fields.
pub record LogFile : Type 0 where
  pub filename : Bytes
  pub stream : OutStream
  pub last_time : ℕ

-- The classes derived from LogAppender.
pub data Target : Type 0 where
  std_out : Target
  file : LogFile → Target

-- `class LogAppender`; a null formatter is `none`.
pub record LogAppender : Type 0 where
  pub target : Target
  pub formatter : Option LogFormatter
  pub level : Level
  pub has_formatter : Bool

-- `class Logger`; `root` is a null pointer where it is `none`.
pub record Logger : Type 0 where
  pub name : Bytes
  pub level : Level
  pub formatter : Option LogFormatter
  pub appenders : List ℕ
  pub root : Option ℕ

pub record World : Type 0 where
  pub appender : ℕ → LogAppender
  pub next_appender : ℕ
  pub logger : ℕ → Logger
  pub next_logger : ℕ
  pub std_out : Bytes
  pub disk : Bytes → Bytes

-- What the calls of the operating system answer: the clock, `strftime`, whether a path can be
-- opened for writing, and whether writing a text to the file at a path fails, behind so many bytes.
pub record System : Type 0 where
  pub now : ℕ
  pub strftime : Bytes → ℕ → Bytes
  pub can_open : Bytes → Bool
  pub fails_at : Bytes → Bytes → Option ℕ

-- A call ends, or follows a null pointer, or has run out of the model's fuel.
pub data Run {ℓ} (A : Type ℓ) : Type ℓ where
  ok : A → Run A
  null_pointer : Run A
  no_fuel : Run A

infixl 5 ◌>>=◌
abbrev pub ◌>>=◌ {ℓ κ} : {A : Type ℓ} {B : Type κ} → Run A → (A → Run B) → Run B
ok a >>= f = f a
null_pointer >>= f = null_pointer
no_fuel >>= f = no_fuel

-- Writing one object of a store.
abbrev pub update {ℓ} : {A : Type ℓ} → (ℕ → A) → ℕ → A → ℕ → A
update f i a j = if i == j then a else f j

abbrev pub update_disk : (Bytes → Bytes) → Bytes → Bytes → Bytes → Bytes
update_disk d path content q = if equal path q then content else d q

abbrev pub set_appender : World → ℕ → LogAppender → World
set_appender w i a = record w { appender = update w.appender i a }

abbrev pub set_logger : World → ℕ → Logger → World
set_logger w i l = record w { logger = update w.logger i l }

-- `std::cout << text`
abbrev pub cout : World → Bytes → World
cout w text = record w { std_out = w.std_out ++ text }
