-- ===== src/Log/Level/Names.antt =====
-- Names of levels: LogLevel::FromString against LogLevel::ToString.
use chord_server.Prelude.{◌≤◌, ◌<◌, ◌≡◌, arith}
use chord_server.Log.Level.{Level, unknown, fatal, from_string, to_string}

-- Printing a level and reading the name back gives the level if it is one of the enumerators, and
-- UNKNOWN for every other value of the type.
pub from_string-to_string :
    (level : Level)
    → (level ≤ fatal → from_string (to_string level) ≡ level)
      × (fatal < level → from_string (to_string level) ≡ unknown)
unfolding from_string to_string
from_string-to_string level = (λ h. ground arith, λ h. ground arith)
