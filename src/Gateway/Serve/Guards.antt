-- ===== src/Gateway/Serve/Guards.antt =====
-- Who is admitted by ServeHTTP.
use cfunc.Base.{
  ℕ, zero, suc, ◌+◌, ◌<◌, ℤ, pos, negsuc, is_nonpos, max_int64, ◌≡◌, ◌↔◌, ◌⊎◌, inl, inr, Option,
  none, some, Str, lit, [], get, true, Option-cases, arith, str_eq, str_beq_iff, refl, ◌∙◌, ap,
}
use cfunc.Quota.{Limiter, read, allow}
use cfunc.Quota.Allow.{allow_unlimited, allow_limited}
use cfunc.Auth.{Identity}
use cfunc.Names.{is_valid_function_name}
use cfunc.Gateway.Path.{parse_function_path, Route, parse_function_path_iff}
use cfunc.Gateway.Registry.{Gateway}
use cfunc.Gateway.Serve.{not_found, admitted, admit, admit_route, owner, limited}

-- The conditions on a request for a function, but for the quota.
pub record IsAllowed (g : Gateway) (id : Identity) (path name : Str) : Type 0 where
  pub project : Str
  pub routed : Route path project name
  pub valid : is_valid_function_name name ≡ true
  pub owned : (project ≡ []) ⊎ (project ≡ owner (get g.functions name))
  pub permitted :
      (id.key_id ≡ []) ⊎ (id.project ≡ lit "*") ⊎ (id.project ≡ owner (get g.functions name))

limited-name :
    (limiter : Option Limiter) (project name other : Str)
    → (limited limiter project name).0 ≡ admitted other
    → name ≡ other
limited-name none project name other h = ground arith
limited-name (some l) project name other h = ground arith

-- The tests of ServeHTTP on a path that is parsed.
passes :
    (g : Gateway) (limiter : Option Limiter) (id : Identity) (project name other : Str)
    → (admit_route g limiter id (some (project, name))).0 ≡ admitted other
    → (name ≡ other)
      × (is_valid_function_name name ≡ true)
      × ((project ≡ []) ⊎ (project ≡ owner (get g.functions name)))
      × ((id.key_id ≡ []) ⊎ (id.project ≡ lit "*") ⊎ (id.project ≡ owner (get g.functions name)))
      × ((limited limiter (owner (get g.functions name)) name).0 ≡ admitted other)
passes g limiter id project name other h =
    let mine = str_beq_iff project (owner (get g.functions name)) in
    let none_given = str_beq_iff project [] in
    let no_id = str_beq_iff id.key_id [] in
    let star = str_beq_iff id.project (lit "*") in
    let own = str_beq_iff id.project (owner (get g.functions name)) in
    ground (arith, limited-name limiter (owner (get g.functions name)) name other)

admits :
    (g : Gateway) (limiter : Option Limiter) (id : Identity) (project name : Str)
    → is_valid_function_name name ≡ true
    → (project ≡ []) ⊎ (project ≡ owner (get g.functions name))
    → (id.key_id ≡ []) ⊎ (id.project ≡ lit "*") ⊎ (id.project ≡ owner (get g.functions name))
    → admit_route g limiter id (some (project, name))
      ≡ limited limiter (owner (get g.functions name)) name
admits g limiter id project name valid owned permitted =
    let mine = str_beq_iff project (owner (get g.functions name)) in
    let none_given = str_beq_iff project [] in
    let no_id = str_beq_iff id.key_id [] in
    let star = str_beq_iff id.project (lit "*") in
    let own = str_beq_iff id.project (owner (get g.functions name)) in ground arith

uncounted :
    (g : Gateway) (limiter : Option Limiter) (id : Identity) (parsed : Option (Str × Str))
    → (admit_route g limiter id parsed).0 ≡ not_found
    → (admit_route g limiter id parsed).1 ≡ limiter
uncounted g limiter id none h = refl
uncounted g none id (some (project, name)) h = ground arith
uncounted g (some l) id (some (project, name)) h = ground arith

-- The tests, with the limiter's answer as it stands.
admit-limited :
    (g : Gateway) (limiter : Option Limiter) (id : Identity) (path name : Str)
    → ((admit g limiter id path).0 ≡ admitted name) ↔ (
        IsAllowed g id path name
        × ((limited limiter (owner (get g.functions name)) name).0 ≡ admitted name))
unfolding admit
admit-limited g limiter id path name = (sound, complete)
  where
    sound :
        (admit g limiter id path).0 ≡ admitted name
        → IsAllowed g id path name
          × ((limited limiter (owner (get g.functions name)) name).0 ≡ admitted name)
    sound h = elim (Option-cases (parse_function_path path)) [
      | inl e ↦ let bad : (not_found ≡ admitted name) = rw e at h in ground arith
      | inr ((project, other), e) ↦
          let (same, valid, owned, permitted, quota) =
            passes g limiter id project other name (rw e at h) in
          (
            record {
              project = project;
              routed =
                  (parse_function_path_iff path project name).0
                    (e ∙ ap (λ n. some (project, n)) same);
              valid = rw same at valid;
              owned = rw same at owned;
              permitted = rw same at permitted;
            },
            rw same at quota,
          )
    ]

    complete :
        IsAllowed g id path name
          × ((limited limiter (owner (get g.functions name)) name).0 ≡ admitted name)
        → (admit g limiter id path).0 ≡ admitted name
    complete (a, h) =
        rw
          (
            (parse_function_path_iff path a.project name).1 a.routed,
            admits g limiter id a.project name a.valid a.owned a.permitted,
          )
          h

-- The count of a project's requests: what was last synced and what came since, of which no sum
-- overflows. It is of no account where there is no limiter.
abbrev pub Counts : Option Limiter → Str → ℕ → Type 0
Counts none project used = Unit
Counts (some l) project used =
    (remote : ℕ) × (cur : ℕ) × (read l.remote project (lit "requests_per_min") ≡ pos remote)
    × (read l.local project (lit "requests_per_min") ≡ pos cur)
    × (used ≡ remote + cur)
    × (used < max_int64)

-- No limit, which is what one that is not positive means, or one that the count has not reached.
abbrev pub IsBelow : ℕ → ℤ → Type 0
IsBelow used (pos limit) = (limit ≡ 0) ⊎ (used < limit)
IsBelow used (negsuc n) = Unit

abbrev pub HasRoom : Option Limiter → Str → ℕ → Type 0
HasRoom none project used = Unit
HasRoom (some l) project used = IsBelow used (read l.limits project (lit "requests_per_min"))

allow-nonpos :
    (l : Limiter) (project : Str)
    → is_nonpos (read l.limits project (lit "requests_per_min")) ≡ true
    → (allow l project (lit "requests_per_min")).0 ≡ true
allow-nonpos l project h = (allow_unlimited l project (lit "requests_per_min") h).0

allow_iff :
    (l : Limiter) (project : Str) (used : ℕ) (limit : ℤ)
    → Counts (some l) project used
    → read l.limits project (lit "requests_per_min") ≡ limit
    → ((allow l project (lit "requests_per_min")).0 ≡ true) ↔ IsBelow used limit
allow_iff l project used (negsuc n) c e = ((λ h. tt), λ h. allow-nonpos l project (rw e refl))
allow_iff l project used (pos zero) c e = ((λ h. inl refl), λ h. allow-nonpos l project (rw e refl))
allow_iff l project used (pos (suc n)) (remote, cur, hr, hc, sum, fits) e =
    let decides =
      (allow_limited l project (lit "requests_per_min") (suc n) remote cur (omega arith) e hr hc
        (omega (arith, sum, fits))).0 in
    ((λ h. ground (arith, decides)), λ h. ground (arith, decides))

limited_iff :
    (limiter : Option Limiter) (project name : Str) (used : ℕ)
    → Counts limiter project used
    → ((limited limiter project name).0 ≡ admitted name) ↔ HasRoom limiter project used
limited_iff none project name used c = ((λ h. tt), λ h. refl)
limited_iff (some l) project name used c =
    let (sound, complete) = allow_iff l project used _ c refl in
    ((λ h. sound (ground arith)), λ h. rw (complete h) refl)

-- ServeHTTP goes on to acquire with a name exactly if the path names that function in one of the two
-- forms, the name is valid, the project of the path is empty or the function's own, the identity is
-- empty, an admin's or of that project, and that project's request limit, if there is a limiter and
-- the limit is positive, is greater than the requests counted so far; where these counts are not
-- negative and their sum is less than the largest int64.
pub admit_iff :
    (g : Gateway) (limiter : Option Limiter) (id : Identity) (path name : Str) (used : ℕ)
    → Counts limiter (owner (get g.functions name)) used
    → ((admit g limiter id path).0 ≡ admitted name)
      ↔ (IsAllowed g id path name × HasRoom limiter (owner (get g.functions name)) used)
admit_iff g limiter id path name used c =
    let (sound, complete) = admit-limited g limiter id path name in
    let (within, room) = limited_iff limiter (owner (get g.functions name)) name used c in
    ((λ h. ((sound h).0, within (sound h).1)), λ h. complete (h.0, room h.1))

-- A request that is answered with 404 is not counted.
pub admit-uncounted :
    (g : Gateway) (limiter : Option Limiter) (id : Identity) (path : Str)
    → (admit g limiter id path).0 ≡ not_found
    → (admit g limiter id path).1 ≡ limiter
unfolding admit
admit-uncounted g limiter id path h = uncounted g limiter id (parse_function_path path) h
