-- ===== src/Names.antt =====
-- The allow-list for identifiers: the regular expression that internal/gateway/gateway.go,
-- internal/scheduler/scheduler.go and internal/builder/spec.go share.
pub mod Laws
mod Examples
use cfunc.Base.{ℕ, Bool, false, ◌&&◌, ◌||◌, [], ◌∷◌, Str, length, all, leb, nat_beq}

-- [a-zA-Z0-9_]
unfoldable pub is_word : ℕ → Bool
is_word c =
    (leb b'a' c && leb c b'z')
    || (leb b'A' c && leb c b'Z')
    || (leb b'0' c && leb c b'9')
    || nat_beq c b'_'

-- [a-zA-Z0-9_.\-]
unfoldable pub is_name_byte : ℕ → Bool
unfolding is_word
is_name_byte c = is_word c || nat_beq c b'.' || nat_beq c b'-'

-- ^[a-zA-Z0-9_][a-zA-Z0-9_.\-]{0,63}$
unfoldable pub is_valid_function_name : Str → Bool
unfolding is_name_byte
is_valid_function_name [] = false
is_valid_function_name (c ∷ rest) = is_word c && all is_name_byte rest && leb (length rest) 63
