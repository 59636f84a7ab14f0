-- ===== src/Quota/Flush.antt =====
-- flush of internal/quota/quota.go: what becomes of the counters.
use cfunc.State.InMem.Tenancy.{truncate}
use cfunc.Base.{
  ℕ, ◌+◌, ◌≡◌, refl, ap, true, false, ◌&&◌, List, [], ◌∷◌, ◌++◌, none, Str, Map, get, get_zero,
  Distinct, str_eq, ℤ, pos, pos_part, if◌then◌else◌, ◌==◌, arith, inl, inr, Bool-cases, str_beq_iff,
  Result, ok, err, ◌∙◌,
}
use cfunc.State.Data.{Project, StoreError, Quota}
use cfunc.State.Iface.{QuotaStore}
use cfunc.Quota.{
  Table, Limiter, Sample, read, drain_kinds, drain, push, flush, finish, refresh, refresh_one,
}

-- What the samples say of one project and kind, in all.
abbrev pub sampled : List Sample → Str → Str → ℕ
sampled [] p k = 0
sampled (x ∷ xs) p k =
    (if x.project == p && x.kind == k then pos_part x.delta else 0) + sampled xs p k

abbrev pub DistinctTable : Table → Type 0
DistinctTable [] = Unit
DistinctTable ((p, m) ∷ t) = (get t p ≡ none) × Distinct m × DistinctTable t

sampled-append :
    (xs ys : List Sample) (p k : Str) → sampled (xs ++ ys) p k ≡ sampled xs p k + sampled ys p k
sampled-append [] ys p k = omega arith
sampled-append (x ∷ xs) ys p k = omega (arith, sampled-append xs ys p k)

drain_kinds-zero :
    (project : Str) (m : Map Str ℤ) (k : Str)
    → get_zero (pos 0) (get (drain_kinds project m).0 k) ≡ pos 0
unfolding drain_kinds get
drain_kinds-zero project [] k = refl
drain_kinds-zero project ((j, d) ∷ m) k = ground (arith, drain_kinds-zero project m k)

drain_kinds-other :
    (project : Str) (m : Map Str ℤ) (p k : Str)
    → (project == p) ≡ false
    → sampled (drain_kinds project m).1 p k ≡ 0
unfolding drain_kinds
drain_kinds-other project [] p k h = refl
drain_kinds-other project ((j, d) ∷ m) p k h = ground (arith, drain_kinds-other project m p k h)

drain_kinds-missing :
    (project : Str) (m : Map Str ℤ) (p k : Str)
    → get m k ≡ none
    → sampled (drain_kinds project m).1 p k ≡ 0
unfolding drain_kinds get
drain_kinds-missing project [] p k h = refl
drain_kinds-missing project ((j, d) ∷ m) p k h = ground (arith, drain_kinds-missing project m p k)

drain_kinds-sampled :
    (project : Str) (m : Map Str ℤ) (p k : Str)
    → Distinct m
    → (project == p) ≡ true
    → sampled (drain_kinds project m).1 p k ≡ pos_part (get_zero (pos 0) (get m k))
unfolding drain_kinds get
drain_kinds-sampled project [] p k d h = refl
drain_kinds-sampled project ((j, v) ∷ m) p k d h = ground (
  arith,
  str_beq_iff j k,
  drain_kinds-missing project m p k,
  drain_kinds-sampled project m p k d.1 h,
)

drain-zero : (m : Table) (p k : Str) → read (drain m).0 p k ≡ pos 0
unfolding read drain get
drain-zero [] p k = refl
drain-zero ((project, by_kind) ∷ m) p k = elim (Bool-cases (project == p)) [
  | inl e ↦ rw e (drain_kinds-zero project by_kind k)
  | inr e ↦ rw e (drain-zero m p k)
]

drain-missing : (m : Table) (p k : Str) → get m p ≡ none → sampled (drain m).1 p k ≡ 0
unfolding drain get
drain-missing [] p k h = refl
drain-missing ((project, by_kind) ∷ m) p k h = elim (Bool-cases (project == p)) [
  | inl e ↦ ground arith
  | inr e ↦ omega (
    arith,
    sampled-append (drain_kinds project by_kind).1 (drain m).1 p k,
    drain_kinds-other project by_kind p k e,
    drain-missing m p k (ground arith),
  )
]

drain-sampled :
    (m : Table) (p k : Str) → DistinctTable m → sampled (drain m).1 p k ≡ pos_part (read m p k)
unfolding drain read get
drain-sampled [] p k d = refl
drain-sampled ((project, by_kind) ∷ m) p k d = elim (Bool-cases (project == p)) [
  | inl e ↦ rw e (
      omega (
        arith,
        sampled-append (drain_kinds project by_kind).1 (drain m).1 p k,
        drain_kinds-sampled project by_kind p k d.1 e,
        drain-missing m p k (ground (arith, (str_beq_iff project p).0 e, d.0)),
      ))
  | inr e ↦ rw e (
      omega (
        arith,
        sampled-append (drain_kinds project by_kind).1 (drain m).1 p k,
        drain_kinds-other project by_kind p k e,
        drain-sampled m p k d.2,
      ))
]

-- Over maps whose keys stand once, the swaps of flush zero every counter, and what they sample of a
-- project and kind is in all what their counter held, nothing where that was negative.
pub drain_lem :
    (local : Table)
    → DistinctTable local
    → (p k : Str)
    → (read (drain local).0 p k ≡ pos 0) × (sampled (drain local).1 p k ≡ pos_part (read local p k))
drain_lem local d p k = (drain-zero local p k, drain-sampled local p k d)

module _ {S : Type 0} (store : QuotaStore S) where
  refresh_one-local :
      (s : S) (bucket : ℕ) (l : Limiter) (p : Str) (r : Result StoreError (List Quota))
      → (refresh_one store s bucket l p r).local ≡ l.local
  refresh_one-local s bucket l p (ok quotas) = refl
  refresh_one-local s bucket l p (err e) = refl

  refresh-local :
      (s : S) (bucket : ℕ) (l : Limiter) (ps : List Project)
      → (refresh store s bucket l ps).local ≡ l.local
  unfolding refresh
  refresh-local s bucket l [] = refl
  refresh-local s bucket l (p ∷ ps) =
      refresh-local s bucket (refresh_one store s bucket l p.name (store.list_quotas s p.name)) ps
      ∙ refresh_one-local s bucket l p.name (store.list_quotas s p.name)

  -- Reading the limits back touches neither the store nor the counters.
  pub finish_keeps :
      (s : S) (bucket later : ℕ) (l : Limiter) (r : Result StoreError (List Project))
      → ((finish store s bucket later l r).2 ≡ s)
        × ((finish store s bucket later l r).1.local ≡ l.local)
  finish_keeps s bucket later l (ok projects) = (refl, refresh-local s bucket l projects)
  finish_keeps s bucket later l (err e) = (refl, refl)

  abbrev pub AddFails : Type 0
  AddFails =
      (s : S) (project kind : Str) (bucket : ℕ) (delta : ℤ)
      → (e : StoreError) × (store.add_quota_usage s project kind bucket delta ≡ err e)

  push_fails : AddFails → (s : S) (bucket : ℕ) (xs : List Sample) → push store s bucket xs ≡ s
  unfolding push
  push_fails fails s bucket [] = refl
  push_fails fails s bucket (x ∷ xs) =
      let (e, failed) = fails s x.project x.kind bucket x.delta in
      rw failed (push_fails fails s bucket xs)

  -- Where the store refuses the writes, flush loses the counts: the store is as it was, and the
  -- counters are zero all the same.
  pub flush_loses :
      (l : Limiter) (s : S) (now later : ℕ)
      → AddFails
      → ((flush store l s now later).2 ≡ s)
        × ((p k : Str) → read (flush store l s now later).1.local p k ≡ pos 0)
  unfolding flush
  flush_loses l s now later fails =
      let bucket = truncate now in
      let zeros : Limiter = record l { local = (drain l.local).0 } in
      let (same, kept) =
        finish_keeps (push store s bucket (drain l.local).1) bucket later zeros _ in
      (
        same ∙ push_fails fails s bucket (drain l.local).1,
        λ p k. ap (λ t. read t p k) kept ∙ drain-zero l.local p k,
      )
