-- ===== src/Quota/Pushed.antt =====
-- flush of internal/quota/quota.go into the in-memory store: what is drained is what is added.
use cfunc.Base.{
  ℕ, ◌+◌, ◌≤◌, ◌≡◌, refl, sym, ap, ◌∙◌, true, false, ◌&&◌, List, [], ◌∷◌, Str, Map, get, get_zero,
  put, str_eq, nat_eq, ◌==◌, ltb, if◌then◌else◌, ℤ, pos, negsuc, pos_part, ltz, add64, add64-pos,
  max_int64, arith, Bool-cases, inl, inr, All, All-append,
}
use cfunc.State.InMem.{InMemStore}
use cfunc.State.InMem.Tenancy.{
  add_quota_usage, truncate, get_quota_usage, bump_usage, ensure_tenancy_maps,
}
use cfunc.State.InMem.Usage.{
  buckets_of, IsCount, IsMade, total_since, buckets-bump, used-IsCount, put-IsCount, bump_total,
  total_since-le, ensure-usage, sum_from_zero,
}
use cfunc.State.Iface.{in_mem_quotas}
use cfunc.Quota.{Sample, Limiter, Table, attempt, push, read, drain, drain_kinds, flush}
use cfunc.Quota.Flush.{sampled, DistinctTable, drain_lem, finish_keeps}

-- The store after one write of flush.
abbrev after_add : InMemStore → Sample → ℕ → InMemStore
after_add s x bucket = attempt in_mem_quotas s (add_quota_usage s x.project x.kind bucket x.delta)

-- A sample counts something.
abbrev pub IsPositive : Sample → Type 0
IsPositive x = x.delta ≡ pos (pos_part x.delta)

ensure-made : (s : InMemStore) → (ensure_tenancy_maps s).tenancy ≡ true
unfolding ensure_tenancy_maps
ensure-made s = elim (Bool-cases s.tenancy) [ inl e ↦ rw e refl | inr e ↦ rw e refl ]

module _ (s : InMemStore) (x : Sample) (bucket : ℕ) (p k : Str) (made : IsMade s)
    (positive : IsPositive x) where
  after-shape : after_add s x bucket ≡ record (ensure_tenancy_maps s) {
    usage = bump_usage (ensure_tenancy_maps s).usage x.project x.kind (truncate bucket) x.delta;
  }
  unfolding add_quota_usage
  after-shape =
      let counted : (ltz x.delta (pos 0) ≡ false) = rw positive (ground arith) in rw counted refl

  usage-after :
      (after_add s x bucket).usage ≡ bump_usage s.usage x.project x.kind (truncate bucket) x.delta
  usage-after =
      ap (λ (t : InMemStore). t.usage) after-shape
      ∙ ap (λ u. bump_usage u x.project x.kind (truncate bucket) x.delta) (ensure-usage s made)

  after-IsMade : IsMade (after_add s x bucket)
  after-IsMade h =
      let bad = sym (ap (λ (t : InMemStore). t.tenancy) after-shape ∙ ensure-made s) ∙ h in
      absurd (ground arith)

  module _ (counts : IsCount (buckets_of s p k))
      (room : total_since 0 (buckets_of s p k) + sampled (x ∷ []) p k ≤ max_int64) where
    buckets-after : buckets_of (after_add s x bucket) p k ≡ (
        if x.project == p && x.kind == k
        then put (buckets_of s p k) (truncate bucket) (
            pos (
              pos_part (get_zero (pos 0) (get (buckets_of s p k) (truncate bucket)))
              + pos_part x.delta))
        else buckets_of s p k)
    buckets-after =
        let (plain, bound) = used-IsCount (buckets_of s p k) (truncate bucket) counts in
        elim (Bool-cases (x.project == p && x.kind == k)) [
          | inl e ↦
              let exact : (add64 (get_zero (pos 0) (get (buckets_of s p k) (truncate bucket)))
                    x.delta
                  ≡ pos (
                      pos_part (get_zero (pos 0) (get (buckets_of s p k) (truncate bucket)))
                      + pos_part x.delta)) =
                rw (plain, positive) (add64-pos _ (pos_part x.delta) (ground (arith, room))) in
              rw
                (
                  usage-after,
                  buckets-bump s.usage x.project x.kind p k (truncate bucket) x.delta,
                  e,
                  exact,
                )
                refl
          | inr e ↦
              rw
                (
                  usage-after,
                  buckets-bump s.usage x.project x.kind p k (truncate bucket) x.delta,
                  e,
                )
                refl
        ]

    after-IsCount : IsCount (buckets_of (after_add s x bucket) p k)
    after-IsCount = elim (Bool-cases (x.project == p && x.kind == k)) [
      | inl e ↦ rw (buckets-after, e) (put-IsCount (buckets_of s p k) (truncate bucket) _ counts)
      | inr e ↦ rw (buckets-after, e) counts
    ]

    total-after :
        (since : ℕ)
        → total_since since (buckets_of (after_add s x bucket) p k)
          ≡ total_since since (buckets_of s p k)
            + (if ltb (truncate bucket) since then 0 else sampled (x ∷ []) p k)
    total-after since = elim (Bool-cases (x.project == p && x.kind == k)) [
      | inl e ↦
          rw (buckets-after, e)
            (ground
              (arith, bump_total since (truncate bucket) (pos_part x.delta) (buckets_of s p k)))
      | inr e ↦ rw (buckets-after, e) (ground arith)
    ]

push-total :
    (s : InMemStore) (xs : List Sample) (bucket since : ℕ) (p k : Str)
    → IsMade s
    → IsCount (buckets_of s p k)
    → All IsPositive xs
    → total_since 0 (buckets_of s p k) + sampled xs p k ≤ max_int64
    → let t = push in_mem_quotas s bucket xs in
      IsCount (buckets_of t p k)
      × (total_since since (buckets_of t p k)
          ≡ total_since since (buckets_of s p k)
            + (if ltb (truncate bucket) since then 0 else sampled xs p k))
unfolding push
push-total s [] bucket since p k made counts positive room = (counts, ground arith)
push-total s (x ∷ xs) bucket since p k made counts positive room =
    let small : (total_since 0 (buckets_of s p k) + sampled (x ∷ []) p k ≤ max_int64) =
      omega (arith, room) in
    let grown = total-after s x bucket p k made positive.0 counts small in
    let all_of = grown 0 in
    let now = grown since in
    let left : (total_since 0 (buckets_of (after_add s x bucket) p k) + sampled xs p k
        ≤ max_int64) =
      ground arith in
    let (c, ih) =
      push-total (after_add s x bucket) xs bucket since p k
        (after-IsMade s x bucket p k made positive.0)
        (after-IsCount s x bucket p k made positive.0 counts small) positive.1 left in
    (c, ground arith)

pos_of_test : (d : ℤ) → ltz (pos 0) d ≡ true → d ≡ pos (pos_part d)
pos_of_test (pos n) h = refl
pos_of_test (negsuc n) h = ground arith

drain_kinds-IsPositive : (project : Str) (m : Map Str ℤ) → All IsPositive (drain_kinds project m).1
unfolding drain_kinds
drain_kinds-IsPositive project [] = tt
drain_kinds-IsPositive project ((kind, d) ∷ m) = elim (Bool-cases (ltz (pos 0) d)) [
  | inl e ↦ rw e (pos_of_test d e, drain_kinds-IsPositive project m)
  | inr e ↦ rw e (drain_kinds-IsPositive project m)
]

drain-IsPositive : (t : Table) → All IsPositive (drain t).1
unfolding drain
drain-IsPositive [] = tt
drain-IsPositive ((project, by_kind) ∷ t) =
    All-append IsPositive (drain_kinds project by_kind).1 (drain t).1
      (drain_kinds-IsPositive project by_kind) (drain-IsPositive t)

truncate_idem : (t : ℕ) → truncate (truncate t) ≡ truncate t
unfolding truncate
truncate_idem t = omega arith

-- Over maps whose keys stand once and counts that are not negative, while the sums fit int64, a flush
-- moves the counts: what the counter of a project and kind held,
-- nothing where that was negative, is added to what the store sums for the current minute, and the
-- counter is zero.
pub flush-conserves :
    (l : Limiter) (s : InMemStore) (now later : ℕ) (p k : Str)
    → DistinctTable l.local
    → IsMade s
    → IsCount (buckets_of s p k)
    → total_since 0 (buckets_of s p k) + pos_part (read l.local p k) ≤ max_int64
    → let r = flush in_mem_quotas l s now later in
      (get_quota_usage r.2 p k now
        ≡ pos (total_since (truncate now) (buckets_of s p k) + pos_part (read l.local p k)))
      × (read r.1.local p k ≡ pos 0)
unfolding flush get_quota_usage
flush-conserves l s now later p k d made counts room =
    let bucket = truncate now in
    let samples = (drain l.local).1 in
    let t = push in_mem_quotas s bucket samples in
    let (zero_now, drained) = drain_lem l.local d p k in
    let (c, total) =
      push-total s samples bucket (truncate now) p k made counts (drain-IsPositive l.local)
        (omega (arith, drained, room)) in
    let below = total_since-le (truncate now) (buckets_of s p k) in
    let in_window : (ltb (truncate (truncate now)) (truncate now) ≡ false) =
      ground (arith, truncate_idem now) in
    let zeros : Limiter = record l { local = (drain l.local).0 } in
    (
      sum_from_zero (truncate now) (buckets_of t p k) _ c
          (rw in_window at total
            ∙ ap (λ n. total_since (truncate now) (buckets_of s p k) + n) drained)
          (omega (arith, below, room)),
      ap (λ (u : Table). read u p k)
            (finish_keeps in_mem_quotas t bucket later zeros (in_mem_quotas.list_projects t)).1
          ∙ zero_now,
    )
