-- ===== src/Builder/Examples.antt =====
-- A specification with one pinned requirement over two lines.
use cfunc.Base.{◌≡◌, refl, Bool, true, false, [], ◌∷◌, ◌++◌, none, some, Str, lit}
use cfunc.Builder.{
  BuildSpec, Policy, default_policy, validate_spec, stitch_continuations, require_fully_hashed,
  at_line, inline_directive, valid_index_url,
}

abbrev digest : Str
digest = lit "0123456789abcdef0123456789abcdef0123456789abcdef0123456789abcdef"

abbrev requirements : Str
requirements =
    lit "# pinned" ++ 10 ∷ (lit "six==1.16 " ++ 92 ∷ 10 ∷ (lit "  --hash=sha256:" ++ digest))

abbrev spec : BuildSpec
spec = record {
  name = lit "six";
  version = lit "1.16+a";
  runtime = [];
  mount_path = lit "/opt/six";
  build = record {
    type = lit "python-pip";
    python = lit "3.11";
    requirements = requirements;
    index_url = lit "https://pypi.org/simple";
  };
}

-- A policy with one index that may be asked for, and one Python version.
abbrev policy : Policy
policy = record {
  allowed_python_versions = lit "3.11" ∷ [];
  allowed_index_urls = lit "https://pypi.org/simple" ∷ [];
  require_hashes = true;
}

-- Where the policy lists no index, a specification may name its own.
any_index : validate_spec spec default_policy ≡ none
unfolding validate_spec cfunc.Builder.valid_layer_name cfunc.Names.is_word cfunc.Names.is_name_byte
    cfunc.Builder.valid_layer_version cfunc.Base.str_beq cfunc.Base.has_prefix
    cfunc.Builder.validate_python_pip cfunc.Builder.valid_python_version cfunc.Base.split
    default_policy valid_index_url cfunc.Base.trim_space require_fully_hashed
    cfunc.Builder.check_lines stitch_continuations cfunc.Builder.has_hash cfunc.Base.is_space
    cfunc.Base.trim_left cfunc.Base.trim_right cfunc.Builder.hash_here cfunc.Builder.stitch
any_index = refl

stitched : stitch_continuations (lit "a " ++ 92 ∷ 32 ∷ 10 ∷ 9 ∷ lit "b") ≡ lit "a  b"
unfolding stitch_continuations
stitched = refl

inline_refused :
    require_fully_hashed (10 ∷ lit "--extra-index-url x") ≡ some (at_line 2 inline_directive)
unfolding require_fully_hashed cfunc.Builder.check_lines cfunc.Base.split stitch_continuations
    cfunc.Base.str_beq cfunc.Base.trim_space cfunc.Base.has_prefix
inline_refused = refl

with_port : valid_index_url (lit "https://a-b.c:8080/x/_") ≡ true
unfolding valid_index_url cfunc.Names.is_word cfunc.Names.is_name_byte
with_port = refl

without_port : valid_index_url (lit "https://a.b:") ≡ false
unfolding valid_index_url cfunc.Names.is_word
without_port = refl
