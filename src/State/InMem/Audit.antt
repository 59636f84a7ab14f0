-- ===== src/State/InMem/Audit.antt =====
-- The audit log of internal/state/inmem_tenancy.go: ids, and what ListAudit returns.
use Prim.Native.Nat.{min}
use mathlib.Core.List.{Perm}
use cfunc.Base.{
  drop, take-drop, ◌∙◌, ap, refl, ◌++◌, ◌==◌, nat_beq, leb, ◌<◌, ◌||◌, subst, ltb, ◌⊎◌, length-take,
  pos, ℕ, ◌≡◌, Bool, true, false, [], ◌∷◌, List, All, keep, str_eq, arith, Bool-cases, inl, inr,
  IsSorted, Str, ℤ, ltz, length, sort_by, sort_by-IsSorted, pos_part, ◌&&◌, ltb, length-sort_by,
  sort_by-perm,
}
use cfunc.State.InMem.{InMemStore}
use cfunc.State.InMem.Tenancy.{list_audit, cap_at, newer, audit_matches}
use cfunc.State.Data.{AuditEntry}

newer_asym : (a b : AuditEntry) → newer a b ≡ true → newer b a ≡ false
newer_asym a b h = ground arith

newer_trans : (a b c : AuditEntry) → newer b a ≡ false → newer c b ≡ false → newer c a ≡ false
newer_trans a b c h k = ground arith

-- The project's entries since a time, the zero time meaning all of them.
abbrev pub asked_for : Str → ℕ → AuditEntry → Bool
asked_for project since e = e.project == project && (nat_beq since 0 || leb since e.ts)

-- `b` is older than `a`, or of the same instant with an id that is not larger.
abbrev pub IsOlder : AuditEntry → AuditEntry → Type 0
IsOlder a b = (b.ts < a.ts) ⊎ ((b.ts ≡ a.ts) × (ltz a.id b.id ≡ false))

abbrev pub IsNewestFirst : List AuditEntry → Type 0
IsNewestFirst [] = Unit
IsNewestFirst (x ∷ xs) = All (IsOlder x) xs × IsNewestFirst xs

-- What is asked of a report on one project since a time. `dropped` is what the cap has cut off.
pub record IsReport (project : Str) (since : ℕ) (limit : ℤ) (log out : List AuditEntry)
    : Type 0 where
  pub dropped : List AuditEntry
  pub entries : Perm (out ++ dropped) (keep (asked_for project since) log)
  -- What is cut off is older than all that is reported.
  pub newest_first : IsNewestFirst (out ++ dropped)
  pub cut :
      ((ltz (pos 0) limit ≡ false) × (dropped ≡ []))
      ⊎ ((ltz (pos 0) limit ≡ true)
          × (length out ≡ min (pos_part limit) (length (keep (asked_for project since) log))))

asked_for-matches :
    (project : Str) (since : ℕ) (log : List AuditEntry)
    → keep (audit_matches project since) log ≡ keep (asked_for project since) log
asked_for-matches project since [] = refl
asked_for-matches project since (e ∷ log) = ground (arith, asked_for-matches project since log)

newer-IsOlder : (a b : AuditEntry) → newer b a ≡ false → IsOlder a b
newer-IsOlder a b h = ground arith

newer-All :
    (a : AuditEntry) (xs : List AuditEntry) → All (λ b. newer b a ≡ false) xs → All (IsOlder a) xs
newer-All a [] h = tt
newer-All a (b ∷ xs) h = (newer-IsOlder a b h.0, newer-All a xs h.1)

sorted-IsNewestFirst : (xs : List AuditEntry) → IsSorted newer xs → IsNewestFirst xs
sorted-IsNewestFirst [] s = tt
sorted-IsNewestFirst (x ∷ xs) s = (newer-All x xs s.0, sorted-IsNewestFirst xs s.1)

append-nil : (xs : List AuditEntry) → xs ++ [] ≡ xs
append-nil [] = refl
append-nil (x ∷ xs) = ap (◌∷◌ x) (append-nil xs)

-- ListAudit returns the project's entries since the time, by falling time and of one instant by
-- falling id: all of them where the limit is not positive, and otherwise as many of the newest as the
-- limit allows.
pub list_audit-IsReport :
    (s : InMemStore) (project : Str) (since : ℕ) (limit : ℤ)
    → IsReport project since limit s.audit (list_audit s project since limit)
unfolding list_audit
list_audit-IsReport s project since limit = cases
  where
    matching : List AuditEntry
    matching = keep (audit_matches project since) s.audit

    out : List AuditEntry
    out = sort_by newer matching

    ordered : IsNewestFirst out
    ordered = sorted-IsNewestFirst out (sort_by-IsSorted newer newer_asym newer_trans matching)

    entries : Perm out (keep (asked_for project since) s.audit)
    entries =
        subst (Perm out) (asked_for-matches project since s.audit) (sort_by-perm newer matching)

    size : length out ≡ length (keep (asked_for project since) s.audit)
    size = length-sort_by newer matching ∙ ap length (asked_for-matches project since s.audit)

    whole :
        (ltz (pos 0) limit ≡ false)
          ⊎ ((ltz (pos 0) limit ≡ true)
              × (length out
                  ≡ min (pos_part limit) (length (keep (asked_for project since) s.audit))))
        → IsReport project since limit s.audit out
    whole c = record {
      dropped = [];
      entries = rw (append-nil out) entries;
      newest_first = rw (append-nil out) ordered;
      cut = elim c [ inl e ↦ inl (e, refl) | inr e ↦ inr e ];
    }

    cases : IsReport project since limit s.audit (cap_at limit out)
    cases = elim (Bool-cases (ltz (pos 0) limit)) [
      | inr e ↦ rw e (whole (inl e))
      | inl e ↦ elim (Bool-cases (ltb (pos_part limit) (length out))) [
        | inl f ↦
            rw (e, f)
              (record {
                dropped = drop (pos_part limit) out;
                entries = rw (take-drop (pos_part limit) out) entries;
                newest_first = rw (take-drop (pos_part limit) out) ordered;
                cut = inr (e, length-take (pos_part limit) out ∙ ap (min (pos_part limit)) size);
              })
        | inr f ↦ rw (e, f) (whole (inr (e, ground (arith, size))))
      ]
    ]
