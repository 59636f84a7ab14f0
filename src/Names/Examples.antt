-- ===== src/Names/Examples.antt =====
-- Names and bytes.
use cfunc.Base.{◌≡◌, refl, true, false, lit}
use cfunc.Names.{is_name_byte, is_valid_function_name, is_word}

accepts_a_name : is_valid_function_name (lit "my_fn.v-1") ≡ true
unfolding is_valid_function_name is_name_byte is_word
accepts_a_name = refl

refuses_a_slash : is_name_byte b'/' ≡ false
unfolding is_name_byte is_word
refuses_a_slash = refl

refuses_a_parent : is_valid_function_name (lit "../x") ≡ false
unfolding is_valid_function_name is_name_byte is_word
refuses_a_parent = refl
