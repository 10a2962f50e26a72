-- ===== src/Config/Names/Letters.antt =====
-- What the check of names lets through.
use chord_server.Prelude.{
  ℕ, Bool, true, not, ◌&&◌, ◌||◌, ◌≡◌, refl, ap₂, [], ◌∷◌, map, all, Bytes, leb, ◌==◌, tolower,
  arith,
}
use chord_server.Config.Names.{member, name_chars, is_name}

-- The lower case letters, the digits, '.' and '_'.
abbrev pub is_meant : ℕ → Bool
is_meant c = leb b'a' c && leb c b'z' || (leb b'0' c && leb c b'9' || (c == b'.' || c == b'_'))

-- A character that the check lets through.
abbrev pub is_allowed : ℕ → Bool
is_allowed c = is_meant c && (not (c == b'd') && not (c == b'9'))

member-name_chars : (c : ℕ) → member name_chars c ≡ is_allowed c
member-name_chars c = ground arith

all-member : (name : Bytes) → all (member name_chars) name ≡ all is_allowed name
all-member [] = refl
all-member (c ∷ name) = rw (member-name_chars c, all-member name) refl

pub is_name-allowed : (name : Bytes) → is_name name ≡ all is_allowed name
unfolding is_name
is_name-allowed name = all-member name

member-tolower : (c : ℕ) → member name_chars c ≡ true → tolower c ≡ c
member-tolower c h = ground arith

-- A valid name has no upper case letter: lowering it changes nothing.
pub map-tolower_name : (name : Bytes) → is_name name ≡ true → map tolower name ≡ name
unfolding is_name
map-tolower_name [] h = refl
map-tolower_name (c ∷ name) h =
    ap₂ ◌∷◌ (member-tolower c (and_left _ _ h)) (map-tolower_name name (and_right _ _ h))
  where
    and_left : (a b : Bool) → (a && b) ≡ true → a ≡ true
    and_left a b h = ground arith

    and_right : (a b : Bool) → (a && b) ≡ true → b ≡ true
    and_right a b h = ground arith
