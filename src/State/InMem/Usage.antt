-- ===== src/State/InMem/Usage.antt =====
-- AddQuotaUsage and GetQuotaUsage of internal/state/inmem_tenancy.go: a counter for each minute.
use cfunc.Base.{
  ℕ, ◌+◌, ◌≤◌, ◌≡◌, inl, inr, ◌∙◌, Bool-cases, [], ◌∷◌, Str, Map, get, get_zero, put, ltb, str_eq,
  nat_eq, if◌then◌else◌, ℤ, pos, pos_part, add64, add64-pos, max_int64, arith, false, ok, ◌==◌, ltz,
  sym, ap, ◌&&◌, refl, str_beq_iff, get-put, str_beq_refl,
}
use cfunc.State.InMem.{InMemStore}
use cfunc.State.InMem.Tenancy.{
  sum_since, ensure_tenancy_maps, add_quota_usage, truncate, bump_usage, get_quota_usage,
}

-- The buckets of one project and kind.
abbrev pub buckets_of : InMemStore → Str → Str → Map ℕ ℤ
buckets_of s project kind = get_zero [] (get (get_zero [] (get s.usage project)) kind)

-- No count is negative.
abbrev pub IsCount : Map ℕ ℤ → Type 0
IsCount [] = Unit
IsCount ((ts, v) ∷ m) = (v ≡ pos (pos_part v)) × IsCount m

-- The true sum, with no bound.
abbrev pub total_since : ℕ → Map ℕ ℤ → ℕ
total_since since [] = 0
total_since since ((ts, v) ∷ m) = (if ltb ts since then 0 else pos_part v) + total_since since m

sum_since-eq-total :
    (since acc : ℕ) (m : Map ℕ ℤ)
    → IsCount m
    → acc + total_since since m ≤ max_int64
    → sum_since since m (pos acc) ≡ pos (acc + total_since since m)
unfolding sum_since
sum_since-eq-total since acc [] c h = ground arith
sum_since-eq-total since acc ((ts, v) ∷ m) c h = elim (Bool-cases (ltb ts since)) [
  | inl e ↦ rw e (sum_since-eq-total since acc m c.1 (ground arith) ∙ ground arith)
  | inr e ↦
      let grown : (add64 (pos acc) v ≡ pos (acc + pos_part v)) =
        rw c.0 (add64-pos acc (pos_part v) (ground arith)) in
      rw (e, grown)
        (sum_since-eq-total since (acc + pos_part v) m c.1 (ground arith) ∙ ground arith)
]

pub total_since-put :
    (since k : ℕ) (v : ℤ) (m : Map ℕ ℤ)
    → total_since since (put m k v)
        + (if ltb k since then 0 else pos_part (get_zero (pos 0) (get m k)))
      ≡ total_since since m + (if ltb k since then 0 else pos_part v)
unfolding get put
total_since-put since k v [] = ground arith
total_since-put since k v ((j, w) ∷ m) = ground (arith, total_since-put since k v m)

pub total_since-le : (since : ℕ) (m : Map ℕ ℤ) → total_since since m ≤ total_since 0 m
total_since-le since [] = omega arith
total_since-le since ((ts, v) ∷ m) = ground (arith, total_since-le since m)

pub used-IsCount :
    (m : Map ℕ ℤ) (k : ℕ)
    → IsCount m
    → (get_zero (pos 0) (get m k) ≡ pos (pos_part (get_zero (pos 0) (get m k))))
      × (pos_part (get_zero (pos 0) (get m k)) ≤ total_since 0 m)
unfolding get
used-IsCount [] k c = (refl, omega arith)
used-IsCount ((ts, v) ∷ m) k c = elim (Bool-cases (ts == k)) [
  | inl e ↦ rw e (c.0, ground arith)
  | inr e ↦ let (plain, bound) = used-IsCount m k c.1 in rw e (plain, ground arith)
]

pub put-IsCount : (m : Map ℕ ℤ) (k n : ℕ) → IsCount m → IsCount (put m k (pos n))
unfolding put
put-IsCount [] k n c = (refl, tt)
put-IsCount ((ts, v) ∷ m) k n c = elim (Bool-cases (ts == k)) [
  | inl e ↦ rw e (refl, c.1)
  | inr e ↦ rw e (c.0, put-IsCount m k n c.1)
]

-- A store whose maps are not made yet holds no usage.
abbrev pub IsMade : InMemStore → Type 0
IsMade s = s.tenancy ≡ false → s.usage ≡ []

pub ensure-usage : (s : InMemStore) → IsMade s → (ensure_tenancy_maps s).usage ≡ s.usage
unfolding ensure_tenancy_maps
ensure-usage s made = elim (Bool-cases s.tenancy) [ inl e ↦ rw e | inr e ↦ rw (e, made e) ]

pub usage-add :
    (s : InMemStore) (project kind : Str) (bucket : ℕ) (delta : ℤ) {t : InMemStore}
    → IsMade s
    → add_quota_usage s project kind bucket delta ≡ ok t
    → t.usage ≡ bump_usage s.usage project kind (truncate bucket) delta
unfolding add_quota_usage
usage-add s project kind bucket delta {t} made h = elim (Bool-cases (ltz delta (pos 0))) [
  | inl e ↦ ground arith
  | inr e ↦
      let written : (bump_usage (ensure_tenancy_maps s).usage project kind (truncate bucket) delta
          ≡ t.usage) =
        ground arith in
      sym written
      ∙ ap (λ u. bump_usage u project kind (truncate bucket) delta) (ensure-usage s made)
]

-- The bucket of one project and kind after a bump; the others are as they were.
pub buckets-bump :
    (usage : Map Str (Map Str (Map ℕ ℤ))) (project kind p k : Str) (bucket : ℕ) (delta : ℤ)
    → get_zero [] (get (get_zero [] (get (bump_usage usage project kind bucket delta) p)) k) ≡ (
        if project == p && kind == k
        then put (get_zero [] (get (get_zero [] (get usage p)) k)) bucket (
            add64
              (get_zero (pos 0) (get (get_zero [] (get (get_zero [] (get usage p)) k)) bucket))
              delta)
        else get_zero [] (get (get_zero [] (get usage p)) k))
unfolding bump_usage
buckets-bump usage project kind p k bucket delta = elim (Bool-cases (project == p)) [
  | inl e ↦ elim (Bool-cases (kind == k)) [
    | inl e' ↦
        rw (← (str_beq_iff project p).0 e, ← (str_beq_iff kind k).0 e')
          (simp (get-put, str_beq_refl))
    | inr e' ↦ rw (← (str_beq_iff project p).0 e) (simp (get-put, str_beq_refl, e'))
  ]
  | inr e ↦ simp (get-put, e)
]

pub sum_from_zero :
    (since : ℕ) (m : Map ℕ ℤ) (total : ℕ)
    → IsCount m
    → total_since since m ≡ total
    → total ≤ max_int64
    → sum_since since m (pos 0) ≡ pos total
sum_from_zero since m total c e h =
    sum_since-eq-total since 0 m c (omega arith) ∙ ap pos (omega arith)

-- Raising one bucket by `d` raises the sum by `d`, if the sum reads that bucket.
pub bump_total :
    (since k d : ℕ) (m : Map ℕ ℤ)
    → total_since since (put m k (pos (pos_part (get_zero (pos 0) (get m k)) + d)))
      ≡ total_since since m + (if ltb k since then 0 else d)
bump_total since k d m =
    ground (arith, total_since-put since k (pos (pos_part (get_zero (pos 0) (get m k)) + d)) m)

module _ (s : InMemStore) (project kind : Str) (bucket since d : ℕ) {t : InMemStore}
    (made : IsMade s) (counts : IsCount (buckets_of s project kind))
    (room : total_since 0 (buckets_of s project kind) + d ≤ max_int64)
    (added : add_quota_usage s project kind bucket (pos d) ≡ ok t) where
  buckets-add :
      buckets_of t project kind
      ≡ put (buckets_of s project kind) (truncate bucket) (
          pos (pos_part (get_zero (pos 0) (get (buckets_of s project kind) (truncate bucket))) + d))
  buckets-add =
      let (plain, bound) = used-IsCount (buckets_of s project kind) (truncate bucket) counts in
      let exact : (add64 (get_zero (pos 0) (get (buckets_of s project kind) (truncate bucket)))
            (pos d)
          ≡ pos (
              pos_part (get_zero (pos 0) (get (buckets_of s project kind) (truncate bucket)))
              + d)) =
        rw plain (add64-pos _ d (omega arith)) in
      rw (
        usage-add s project kind bucket (pos d) made added,
        buckets-bump s.usage project kind project kind (truncate bucket) (pos d),
        str_beq_refl project,
        str_beq_refl kind,
        exact,
      )

  -- While the counters of a project and kind stay within int64, adding `d` to a bucket adds `d` to
  -- what GetQuotaUsage sums since a time, exactly if the bucket's minute is not before that time's.
  pub get_quota_usage-add :
      (get_quota_usage s project kind since
        ≡ pos (total_since (truncate since) (buckets_of s project kind)))
      × (get_quota_usage t project kind since
          ≡ pos (
              total_since (truncate since) (buckets_of s project kind)
              + (if ltb (truncate bucket) (truncate since) then 0 else d)))
  unfolding get_quota_usage
  get_quota_usage-add =
      let below = total_since-le (truncate since) (buckets_of s project kind) in
      (
        sum_from_zero (truncate since) (buckets_of s project kind) _ counts refl (omega arith),
        rw buckets-add (
            sum_from_zero (truncate since) _ _
              (put-IsCount (buckets_of s project kind) (truncate bucket) _ counts)
              (bump_total (truncate since) (truncate bucket) d (buckets_of s project kind))
              (ground arith)),
      )
