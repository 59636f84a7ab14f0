-- ===== src/Builder.antt =====
-- internal/builder/spec.go: what a request to build a layer may ask for. The regular expressions are
-- functions on bytes.
pub mod Pinned
pub mod Validated
mod Examples
use cfunc.Base.{
  ℕ, suc, zero, ◌+◌, ◌≤◌, Bool, true, false, not, ◌&&◌, ◌||◌, List, [], ◌∷◌, ◌++◌, Option, none,
  some, Str, lit, all, any, contains, length, take, drop, leb, ltb, nat_beq, has_prefix, split,
  trim_space, ◌==◌, if◌then◌else◌, ℤ, pos, int_eq, str_eq,
}
use cfunc.Names.{is_word, is_name_byte}

pub record BuildOptions : Type 0 where
  pub type : Str
  pub python : Str
  pub requirements : Str
  pub index_url : Str

pub record BuildSpec : Type 0 where
  pub name : Str
  pub version : Str
  pub runtime : Str
  pub mount_path : Str
  pub build : BuildOptions

pub record Policy : Type 0 where
  pub allowed_python_versions : List Str
  pub allowed_index_urls : List Str
  pub require_hashes : Bool

unfoldable pub default_policy : Policy
default_policy = record {
  allowed_python_versions = [];
  allowed_index_urls = [];
  require_hashes = true;
}

-- A duration in nanoseconds, and a number of MiB.
pub record Limits : Type 0 where
  pub timeout : ℤ
  pub max_output_mb : ℤ

unfoldable pub with_defaults : Limits → Limits
with_defaults l = record {
  timeout = if l.timeout == pos 0 then pos 300000000000 else l.timeout;
  max_output_mb = if l.max_output_mb == pos 0 then pos 1024 else l.max_output_mb;
}

pub data LineError : Type 0 where
  file_reference inline_directive missing_hash : LineError

pub data SpecError : Type 0 where
  invalid_name invalid_version mount_not_absolute type_required unknown_type : SpecError
  python_required invalid_python python_not_allowed malformed_index index_not_allowed : SpecError
  requirements_required : SpecError
  at_line : ℕ → LineError → SpecError

-- A string of up to 64 bytes, the first a word byte and the others in a class.
abbrev pub is_label : (ℕ → Bool) → Str → Bool
is_label class [] = false
is_label class (c ∷ s) = is_word c && all class s && leb (length s) 63

unfoldable pub valid_layer_name : Str → Bool
valid_layer_name s = is_label is_name_byte s

unfoldable pub valid_layer_version : Str → Bool
valid_layer_version s = is_label (λ c. is_name_byte c || nat_beq c b'+') s

abbrev pub is_digit : ℕ → Bool
is_digit c = leb b'0' c && leb c b'9'

-- One or more digits.
abbrev pub is_number : Str → Bool
is_number [] = false
is_number (c ∷ s) = all is_digit (c ∷ s)

-- Up to three numbers with dots between them.
unfoldable pub valid_python_version : Str → Bool
valid_python_version s = all is_number (split b'.' s) && leb (length (split b'.' s)) 3

-- What follows the longest front of a string that is in a class.
abbrev pub past : (ℕ → Bool) → Str → Str
past class [] = []
past class (c ∷ s) = let rest = past class s in if class c then rest else c ∷ s

abbrev pub is_host_byte : ℕ → Bool
is_host_byte c = (is_word c && not (nat_beq c b'_')) || nat_beq c b'.' || nat_beq c b'-'

abbrev pub is_path_byte : ℕ → Bool
is_path_byte c = is_name_byte c || nat_beq c b'/'

-- `(/[a-zA-Z0-9._\-/]*)?$`
abbrev pub is_path_end : Str → Bool
is_path_end [] = true
is_path_end (c ∷ s) = nat_beq c b'/' && all is_path_byte s

-- `(:\d+)?` before it.
abbrev pub is_port_end : Str → Bool
is_port_end [] = true
is_port_end (c ∷ s) =
    if nat_beq c b':'
    then ltb (length (past is_digit s)) (length s) && is_path_end (past is_digit s)
    else is_path_end (c ∷ s)

abbrev pub is_host_end : Str → Bool
is_host_end s = ltb (length (past is_host_byte s)) (length s) && is_port_end (past is_host_byte s)

unfoldable pub valid_index_url : Str → Bool
unfolding has_prefix
valid_index_url s = has_prefix s (lit "https://") && is_host_end (drop 8 s)

abbrev pub hash_mark : Str
hash_mark = lit "--hash=sha256:"

abbrev pub is_hex : ℕ → Bool
is_hex c = (leb b'a' c && leb c b'f') || is_digit c

-- `--hash=sha256:[a-f0-9]{64}` at the front, and anywhere.
unfoldable pub hash_here : Str → Bool
unfolding has_prefix
hash_here s =
    has_prefix s hash_mark && all is_hex (take 64 (drop 14 s)) && leb 64 (length (drop 14 s))

unfoldable pub has_hash : Str → Bool
unfolding hash_here
has_hash [] = false
has_hash (c ∷ s) = hash_here (c ∷ s) || has_hash s

-- `\s` of package regexp
abbrev pub is_re_space : ℕ → Bool
is_re_space c = nat_beq c 9 || nat_beq c 10 || nat_beq c 12 || nat_beq c 13 || nat_beq c 32

-- Has the white space at the front a newline in it?
abbrev pub newline_ahead : Str → Bool
newline_ahead [] = false
newline_ahead (c ∷ s) = nat_beq c 10 || (is_re_space c && newline_ahead s)

-- `\\\s*\n\s*` becomes a space: the flag says that what is left begins within a match.
unfoldable pub stitch : Bool → Str → Str
stitch within [] = []
stitch within (c ∷ s) =
    let skips = within && is_re_space c in
    let begins = nat_beq c 92 && newline_ahead s in
    let rest = stitch (skips || begins) s in
    if skips then rest else if begins then 32 ∷ rest else c ∷ rest

unfoldable pub stitch_continuations : Str → Str
unfolding stitch
stitch_continuations s = stitch false s

abbrev pub refers_to_file : Str → Bool
refers_to_file line =
    has_prefix line (lit "-r")
    || has_prefix line (lit "--requirement")
    || has_prefix line (lit "-c")
    || has_prefix line (lit "--constraint")
    || has_prefix line (lit "-e")
    || has_prefix line (lit "--editable")

abbrev pub check_line : Str → Option LineError
check_line line =
    if line == [] || has_prefix line (lit "#")
    then none
    else if refers_to_file line
    then some file_reference
    else if has_prefix line (lit "-")
    then some inline_directive
    else if not (has_hash line)
    then some missing_hash
    else none

abbrev pub or_next : ℕ → Option LineError → Option SpecError → Option SpecError
or_next n (some e) rest = some (at_line (suc n) e)
or_next n none rest = rest

unfoldable pub check_lines : ℕ → List Str → Option SpecError
check_lines n [] = none
check_lines n (raw ∷ lines) = or_next n (check_line (trim_space raw)) (check_lines (suc n) lines)

unfoldable pub require_fully_hashed : Str → Option SpecError
require_fully_hashed content = check_lines 0 (split 10 (stitch_continuations content))

-- An allow-list that is empty allows everything.
abbrev pub is_refused : List Str → Str → Bool
is_refused allowed s = ltb 0 (length allowed) && not (contains allowed s)

abbrev pub check_requirements : BuildSpec → Policy → Option SpecError
check_requirements s p =
    if trim_space s.build.requirements == []
    then some requirements_required
    else if p.require_hashes
    then require_fully_hashed s.build.requirements
    else none

abbrev pub check_index : BuildSpec → Policy → Option SpecError
check_index s p =
    if s.build.index_url == []
    then check_requirements s p
    else if not (valid_index_url s.build.index_url)
    then some malformed_index
    else if is_refused p.allowed_index_urls s.build.index_url
    then some index_not_allowed
    else check_requirements s p

unfoldable pub validate_python_pip : BuildSpec → Policy → Option SpecError
validate_python_pip s p =
    if s.build.python == []
    then some python_required
    else if not (valid_python_version s.build.python)
    then some invalid_python
    else if is_refused p.allowed_python_versions s.build.python
    then some python_not_allowed
    else check_index s p

unfoldable pub validate_spec : BuildSpec → Policy → Option SpecError
validate_spec s p =
    if not (valid_layer_name s.name)
    then some invalid_name
    else if not (valid_layer_version s.version)
    then some invalid_version
    else if not (s.mount_path == []) && not (has_prefix s.mount_path (lit "/"))
    then some mount_not_absolute
    else if s.build.type == lit "python-pip"
    then validate_python_pip s p
    else if s.build.type == []
    then some type_required
    else some unknown_type
