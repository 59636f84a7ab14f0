-- ===== src/Quota/Tables.antt =====
-- The two-level maps of the limiter, read and written by project and kind.
use cfunc.Base.{
  ◌≡◌, ◌&&◌, [], none, Str, get, get_zero, str_eq, if◌then◌else◌, ℤ, pos, ◌==◌, arith, inl, inr,
  Bool-cases, Option-cases, str_beq_iff, str_beq_refl, get-put,
}
use cfunc.Quota.{Table, read, write, get_or_create_counter}

-- A write is read back at its project and kind, and nowhere else.
pub read-write :
    (m : Table) (project kind p k : Str) (v : ℤ)
    → read (write m project kind v) p k ≡ (if project == p && kind == k then v else read m p k)
unfolding read write
read-write m project kind p k v = elim (Bool-cases (project == p)) [
  | inl e ↦ elim (Bool-cases (kind == k)) [
    | inl e' ↦ simp (get-put, e, e')
    | inr e' ↦ rw (← (str_beq_iff project p).0 e) (simp (get-put, str_beq_refl, e'))
  ]
  | inr e ↦ simp (get-put, e)
]

pub read-write_self :
    (m : Table) (project kind : Str) (v : ℤ) → read (write m project kind v) project kind ≡ v
read-write_self m project kind v = simp (read-write, str_beq_refl)

read_missing :
    (m : Table) (project kind : Str)
    → get (get_zero [] (get m project)) kind ≡ none
    → read m project kind ≡ pos 0
unfolding read
read_missing m project kind e = rw e

-- Making a counter changes no reading: a missing one reads as zero.
pub read-get_or_create :
    (local : Table) (project kind p k : Str)
    → read (get_or_create_counter local project kind) p k ≡ read local p k
unfolding get_or_create_counter
read-get_or_create local project kind p k =
    elim (Option-cases (get (get_zero [] (get local project)) kind)) [
      | inl e ↦
          rw (e, get_or_create_counter)
            (rw (read-write local project kind p k (pos 0)) (
              ground (
                arith,
                str_beq_iff project p,
                str_beq_iff kind k,
                read_missing local project kind e,
              )))
      | inr (v, e) ↦ rw (e, get_or_create_counter)
    ]
