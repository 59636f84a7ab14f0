-- ===== src/Names/Laws.antt =====
-- What a name on the allow-list cannot hold, and how long it is.
use cfunc.Base.{ℕ, ◌≤◌, ◌≡◌, true, false, [], ◌∷◌, Str, length, all, Lacks, arith, nat_beq}
use cfunc.Names.{is_word, is_name_byte, is_valid_function_name}

-- A name has 1 to 64 bytes.
pub is_valid_function_name-length :
    (s : Str) → is_valid_function_name s ≡ true → (1 ≤ length s) × (length s ≤ 64)
unfolding is_valid_function_name
is_valid_function_name-length [] h = ground arith
is_valid_function_name-length (c ∷ rest) h = ground arith

is_name_byte-word : (c : ℕ) → is_word c ≡ true → is_name_byte c ≡ true
unfolding is_name_byte
is_name_byte-word c h = ground arith

ne_of_test : (b c : ℕ) → is_name_byte b ≡ false → is_name_byte c ≡ true → nat_beq c b ≡ false
ne_of_test b c hb hc = ground arith

all-Lacks : (b : ℕ) (s : Str) → is_name_byte b ≡ false → all is_name_byte s ≡ true → Lacks b s
all-Lacks b [] hb h = tt
all-Lacks b (c ∷ s) hb h = (ne_of_test b c hb (ground arith), all-Lacks b s hb (ground arith))

-- A byte outside the class does not occur in a name: no slash, no newline, no control byte.
pub is_valid_function_name-Lacks :
    (b : ℕ) (s : Str) → is_name_byte b ≡ false → is_valid_function_name s ≡ true → Lacks b s
unfolding is_valid_function_name
is_valid_function_name-Lacks b [] hb h = tt
is_valid_function_name-Lacks b (c ∷ s) hb h =
    (ne_of_test b c hb (is_name_byte-word c (ground arith)), all-Lacks b s hb (ground arith))
