-- ===== src/Quota/Allow.antt =====
-- Allow and Observe of internal/quota/quota.go, one call at a time.
use Prim.Native.Nat.{min}
use cfunc.Base.{
  ℕ, zero, suc, ◌+◌, ◌-◌, ◌≤◌, ◌<◌, ◌≡◌, refl, true, false, ◌&&◌, Str, str_eq, if◌then◌else◌, pos,
  is_nonpos, leb, add64, add64-pos, max_int64, ◌==◌, arith, inl, inr, Bool-cases, str_beq_refl,
}
use cfunc.Quota.{Table, Limiter, read, write, get_or_create_counter, allow}
use cfunc.Quota.Tables.{read-write, read-get_or_create}

-- The counters after one event of a project and kind is counted.
abbrev pub CountsOne : Table → Table → Str → Str → Type 0
CountsOne before after project kind =
    (p k : Str)
    → read after p k ≡ (
        if project == p && kind == k
        then add64 (read before project kind) (pos 1)
        else read before p k)

count-CountsOne :
    (local : Table) (project kind : Str)
    → CountsOne local
        (write
          (get_or_create_counter local project kind)
          project
          kind
          (add64 (read (get_or_create_counter local project kind) project kind) (pos 1)))
        project
        kind
count-CountsOne local project kind p k = rw (
  read-write (get_or_create_counter local project kind) project kind p k _,
  read-get_or_create local project kind project kind,
  read-get_or_create local project kind p k,
)

module _ (l : Limiter) (project kind : Str) where
  -- A limit that is not positive admits every event, and counts it.
  pub allow_unlimited :
      is_nonpos (read l.limits project kind) ≡ true
      → ((allow l project kind).0 ≡ true)
        × CountsOne l.local (allow l project kind).1.local project kind
  unfolding allow
  allow_unlimited h = rw h (refl, count-CountsOne l.local project kind)

  module _ (limit remote cur : ℕ) (h : 0 < limit) (hl : read l.limits project kind ≡ pos limit)
      (hr : read l.remote project kind ≡ pos remote) (hc : read l.local project kind ≡ pos cur)
      (room : remote + cur + 1 ≤ max_int64) where
    allow_shape : allow l project kind ≡ (
        if leb (remote + cur + 1) limit
        then (
          true,
          record l {
            local = write (get_or_create_counter l.local project kind) project kind (pos (cur + 1));
          },
        )
        else (false, record l { local = get_or_create_counter l.local project kind }))
    unfolding allow
    allow_shape =
        rw
          (
            hl,
            hr,
            read-get_or_create l.local project kind project kind,
            hc,
            add64-pos remote cur (omega arith),
            add64-pos (remote + cur) 1 room,
            add64-pos cur 1 (omega arith),
          )
          (ground arith)

    -- Under a positive limit, while the total with it fits int64, an event is admitted exactly if the last synced total, what was
    -- counted here since, and the event itself are within the limit. An admitted event is counted,
    -- a refused one changes no counter, and the limits and the synced totals stay.
    pub allow_limited :
        ((allow l project kind).0 ≡ leb (remote + cur + 1) limit)
        × ((p k : Str)
            → read (allow l project kind).1.local p k ≡ (
                if leb (remote + cur + 1) limit && (project == p && kind == k)
                then pos (cur + 1)
                else read l.local p k))
        × ((allow l project kind).1.limits ≡ l.limits)
        × ((allow l project kind).1.remote ≡ l.remote)
    allow_limited = elim (Bool-cases (leb (remote + cur + 1) limit)) [
      | inl e ↦ rw (allow_shape, e) (refl, λ p k. simp (read-write, read-get_or_create), refl, refl)
      | inr e ↦
          rw (allow_shape, e) (refl, λ p k. read-get_or_create l.local project kind p k, refl, refl)
    ]

-- `n` calls of Allow in a row: how many are admitted, and the limiter after them.
pub allow_many : ℕ → Limiter → Str → Str → ℕ × Limiter
allow_many zero l project kind = (0, l)
allow_many (suc n) l project kind =
    let (admitted, l') = allow l project kind in
    let (more, l'') = allow_many n l' project kind in ((if admitted then 1 else 0) + more, l'')

-- Under a positive limit, with the limit and the total below the largest int64, `n` calls in a row
-- admit as many events as are left of the limit, and no more than `n`.
pub allow_many_lem :
    (n : ℕ) (l : Limiter) (project kind : Str) (limit remote cur : ℕ)
    → 0 < limit
    → limit < max_int64
    → remote + cur < max_int64
    → read l.limits project kind ≡ pos limit
    → read l.remote project kind ≡ pos remote
    → read l.local project kind ≡ pos cur
    → (allow_many n l project kind).0 ≡ min n (limit - (remote + cur))
unfolding allow_many
allow_many_lem zero l project kind limit remote cur h small room hl hr hc = omega arith
allow_many_lem (suc n) l project kind limit remote cur h small room hl hr hc =
    elim (Bool-cases (leb (remote + cur + 1) limit)) [
      | inl e ↦
          let (admits, counts, limits, remotes) =
            allow_limited l project kind limit remote cur h hl hr hc (omega arith) in
          let rest =
            allow_many_lem n (allow l project kind).1 project kind limit remote (cur + 1) h small
              (ground arith) (rw limits hl) (rw remotes hr)
              (rw (counts project kind, e, str_beq_refl project, str_beq_refl kind) refl) in
          ground (arith, admits, rest)
      | inr e ↦
          let (admits, counts, limits, remotes) =
            allow_limited l project kind limit remote cur h hl hr hc (omega arith) in
          let rest =
            allow_many_lem n (allow l project kind).1 project kind limit remote cur h small room
              (rw limits hl) (rw remotes hr) (rw (counts project kind, e) hc) in
          ground (arith, admits, rest)
    ]
