-- ===== src/Gateway/Path.antt =====
-- parseFunctionPath of internal/gateway/gateway.go, against the two routing forms it documents.
use cfunc.Base.{
  ◌≡◌, sym, ap, ◌∙◌, ◌↔◌, inl, inr, Option, none, some, [], ◌++◌, arith, Str, lit, has_prefix,
  trim_prefix, cut, Lacks, if◌then◌else◌, Option-cases, Bool-cases, cut-append, cut_sound,
  has_prefix-append, trim_prefix-append, trim_prefix_split,
}

-- The tests on what follows the project.
abbrev after_project : Option (Str × Str) → Option (Str × Str)
after_project none = none
after_project (some (project, after)) =
    if has_prefix after (lit "fn/") then some (project, trim_prefix after (lit "fn/")) else none

-- The Go function's `ok` is `some`.
unfoldable pub parse_function_path : Str → Option (Str × Str)
parse_function_path p =
    if has_prefix p (lit "/fn/")
    then some ([], trim_prefix p (lit "/fn/"))
    else if has_prefix p (lit "/v1/")
    then after_project (cut b'/' (trim_prefix p (lit "/v1/")))
    else none

-- The routing forms: /fn/<name>, and /v1/<project>/fn/<name> with no slash in the project.
pub data Route (p project name : Str) : Type 0 where
  legacy : p ≡ lit "/fn/" ++ name → project ≡ [] → Route p project name
  tenant :
      p ≡ lit "/v1/" ++ (project ++ (lit "/fn/" ++ name))
      → Lacks b'/' project
      → Route p project name

after_project_inv :
    (a b project name : Str)
    → after_project (some (a, b)) ≡ some (project, name)
    → (a ≡ project) × (b ≡ lit "fn/" ++ name)
after_project_inv a b project name h = elim (Bool-cases (has_prefix b (lit "fn/"))) [
  | inl e ↦ ground (arith, trim_prefix_split b (lit "fn/"))
  | inr e ↦ ground arith
]

after_project_sound :
    (rest project name : Str)
    → after_project (cut b'/' rest) ≡ some (project, name)
    → (rest ≡ project ++ (lit "/fn/" ++ name)) × Lacks b'/' project
after_project_sound rest project name h = elim (Option-cases (cut b'/' rest)) [
  | inl e ↦ ground arith
  | inr ((a, b), e) ↦
      let (same, tail) = after_project_inv a b project name (rw e at h) in
      let (whole, lacks) = cut_sound b'/' rest a b e in (rw (whole, same, tail), rw same at lacks)
]

parse-Route :
    (p project name : Str) → parse_function_path p ≡ some (project, name) → Route p project name
unfolding parse_function_path
parse-Route p project name h = elim (Bool-cases (has_prefix p (lit "/fn/"))) [
  | inl e ↦
      let parts : (([] ≡ project) × (trim_prefix p (lit "/fn/") ≡ name)) = ground arith in
      legacy (trim_prefix_split p (lit "/fn/") e ∙ ap (◌++◌ (lit "/fn/")) parts.1) (sym parts.0)
  | inr e ↦ elim (Bool-cases (has_prefix p (lit "/v1/"))) [
    | inl e' ↦
        let parts = after_project_sound (trim_prefix p (lit "/v1/")) project name (ground arith) in
        tenant (trim_prefix_split p (lit "/v1/") e' ∙ ap (◌++◌ (lit "/v1/")) parts.0) parts.1
    | inr e' ↦ ground arith
  ]
]

parse_legacy : (name : Str) → parse_function_path (lit "/fn/" ++ name) ≡ some ([], name)
unfolding parse_function_path
parse_legacy name = rw (has_prefix-append (lit "/fn/") name, trim_prefix-append (lit "/fn/") name)

parse_tenant :
    (project name : Str)
    → Lacks b'/' project
    → parse_function_path (lit "/v1/" ++ (project ++ (lit "/fn/" ++ name))) ≡ some (project, name)
unfolding parse_function_path has_prefix
parse_tenant project name h = rw (
  trim_prefix-append (lit "/v1/") (project ++ (lit "/fn/" ++ name)),
  cut-append b'/' project (lit "fn/" ++ name) h,
  trim_prefix-append (lit "fn/") name,
)

-- A path parses to a project and a name exactly when it has one of the two documented forms: the
-- legacy form with the empty project, or the tenant form with a project free of slashes.
pub parse_function_path_iff :
    (p project name : Str) → (parse_function_path p ≡ some (project, name)) ↔ Route p project name
parse_function_path_iff p project name = (parse-Route p project name, parses)
  where
    parses : Route p project name → parse_function_path p ≡ some (project, name)
    parses (legacy e empty) = rw (e, empty) (parse_legacy name)
    parses (tenant e lacks) = rw e (parse_tenant project name lacks)
