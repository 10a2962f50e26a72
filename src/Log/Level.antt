-- ===== src/Log/Level.antt =====
-- LogLevel of chord/log.h and chord/logger.cpp.
pub mod Names
use chord_server.Prelude.{ℕ, Bool, ◌||◌, ◌==◌, if◌then◌else◌, Bytes, codes, equal}

-- `enum Level`: an unscoped enumeration, compared by its integer value; the code also casts 100 to
-- it.
abbrev pub Level : Type 0
Level = ℕ

abbrev pub unknown : Level
unknown = 0

abbrev pub debug : Level
debug = 1

abbrev pub info : Level
info = 2

abbrev pub warn : Level
warn = 3

abbrev pub error : Level
error = 4

abbrev pub fatal : Level
fatal = 5

-- `LogLevel::FromString`: the macro's ten tests, in order.
unfoldable pub from_string : Bytes → Level
from_string str =
    if equal str (codes "debug")
    then debug
    else if equal str (codes "info")
    then info
    else if equal str (codes "warn")
    then warn
    else if equal str (codes "error")
    then error
    else if equal str (codes "fatal")
    then fatal
    else if equal str (codes "DEBUG")
    then debug
    else if equal str (codes "INFO")
    then info
    else if equal str (codes "WARN")
    then warn
    else if equal str (codes "ERROR")
    then error
    else if equal str (codes "FATAL")
    then fatal
    else unknown

-- `LogLevel::ToString`
unfoldable pub to_string : Level → Bytes
to_string level =
    if level == debug
    then codes "DEBUG"
    else if level == info
    then codes "INFO"
    else if level == warn
    then codes "WARN"
    else if level == error
    then codes "ERROR"
    else if level == fatal
    then codes "FATAL"
    else codes "unknown"
