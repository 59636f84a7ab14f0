-- ===== src/Builder/Validated.antt =====
-- What a specification has that Validate of internal/builder/spec.go accepts.
use cfunc.Base.{
  ◌≡◌, ◌⊎◌, true, List, [], Str, lit, All, contains, has_prefix, split, trim_space, str_eq,
}
use cfunc.Builder.{
  BuildSpec, Policy, valid_layer_name, valid_layer_version, valid_python_version, valid_index_url,
  stitch_continuations,
}
use cfunc.Builder.Pinned.{IsPinned}

-- An allow-list that is not empty has the string; an empty one admits every string.
abbrev pub IsAllowed : List Str → Str → Type 0
IsAllowed allowed s = (allowed ≡ []) ⊎ (contains allowed s ≡ true)

pub record IsSafe (s : BuildSpec) (p : Policy) : Type 0 where
  pub name : valid_layer_name s.name ≡ true
  pub version : valid_layer_version s.version ≡ true
  pub mount : (s.mount_path ≡ []) ⊎ (has_prefix s.mount_path (lit "/") ≡ true)
  pub engine : s.build.type ≡ lit "python-pip"
  pub python : valid_python_version s.build.python ≡ true
  pub python_allowed : IsAllowed p.allowed_python_versions s.build.python
  pub index :
      (s.build.index_url ≡ [])
      ⊎ ((valid_index_url s.build.index_url ≡ true)
          × IsAllowed p.allowed_index_urls s.build.index_url)
  -- Each requirement is pinned, where the policy asks for hashes.
  pub pinned :
      p.require_hashes ≡ true
      → All
          (λ raw. IsPinned (trim_space raw))
          (split 10 (stitch_continuations s.build.requirements))
