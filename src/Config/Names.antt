-- ===== src/Config/Names.antt =====
-- The characters of configuration names, in chord/config.h and chord/config.cpp.
pub mod Letters
use chord_server.Prelude.{ℕ, Bool, true, false, not, ◌||◌, List, [], ◌∷◌, Bytes, codes, all, ◌==◌}

abbrev pub member : Bytes → ℕ → Bool
member [] c = false
member (x ∷ xs) c = x == c || member xs c

-- The literal that both `find_first_not_of` calls are given.
abbrev pub name_chars : Bytes
name_chars = codes "abcefghijklmnopqrstuvwxyz._012345678"

-- `name.find_first_not_of(…) == std::string::npos`
unfoldable pub is_name : Bytes → Bool
is_name name = all (member name_chars) name
