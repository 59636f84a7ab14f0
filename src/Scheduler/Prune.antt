-- ===== src/Scheduler/Prune.antt =====
-- The loop of reconcile that removes entries.
use cfunc.Base.{
  ◌≡◌, ◌≢◌, refl, sym, ap, ◌∙◌, ℕ, true, false, [], ◌∷◌, none, some, Str, Map, get, remove,
  Distinct, str_eq, str_beq_iff, nat_beq, nat_beq_iff, ◌==◌, if◌then◌else◌, arith, Bool-cases, inl,
  inr, subst,
}
use cfunc.State.Data.{CronJob}
use cfunc.Scheduler.{Cron, changed, prune}
use cfunc.Scheduler.Wired.{
  armed, IsWired, get-tail, tail-apart, armed-remove, tail-IsWired, remove-IsWired, head-get,
  if_same, changed-remove,
}

module _ {C : Type 0} (engine : Cron C) where
  -- An entry that is not in the list runs on.
  prune-runs :
      (desired : Map Str CronJob) (c : C) (specs : Map Str Str) (entries : Map Str ℕ) (x : ℕ)
      → Distinct entries
      → ((k : Str) → get entries k ≢ some x)
      → engine.runs (prune engine desired c specs entries).0 x ≡ engine.runs c x
  unfolding prune
  prune-runs desired c specs [] x d ne = refl
  prune-runs desired c specs ((i, eid) ∷ entries) x d ne =
      let rest : ((k : Str) → get entries k ≢ some x) =
        λ k h. ne k (get-tail engine i eid entries k x d h).0 in
      let other : (nat_beq eid x ≡ false) = elim (Bool-cases (nat_beq eid x)) [
        | inl e ↦ absurd (ne i (head-get engine i eid entries ∙ ap some ((nat_beq_iff eid x).0 e)))
        | inr e ↦ e
      ] in
      elim (Bool-cases (changed specs i (get desired i))) [
        | inl g ↦ rw g (
            prune-runs desired (engine.remove_entry c eid) (remove specs i) entries x d.1 rest
            ∙ (rw (engine.remove_runs c eid x, other) refl))
        | inr g ↦ rw g (prune-runs desired c specs entries x d.1 rest)
      ]

  -- The loop disarms the ids that changed and leaves the others armed engine as they were.
  pub prune-armed :
      (desired : Map Str CronJob) (c : C) (specs : Map Str Str) (entries : Map Str ℕ) (id : Str)
      → IsWired engine c entries
      → let r = prune engine desired c specs entries in
        (armed engine r.0 r.2 id
          ≡ (if changed specs id (get desired id) then none else armed engine c entries id))
        × (get r.2 id ≡ (if changed specs id (get desired id) then none else get entries id))
  unfolding prune get
  prune-armed desired c specs [] id w = (ground arith, ground arith)
  prune-armed desired c specs ((i, eid) ∷ entries) id w =
      elim (Bool-cases (changed specs i (get desired i))) [
        | inl g ↦
            let (a, b) =
              prune-armed desired (engine.remove_entry c eid) (remove specs i) entries id
                (remove-IsWired engine c i eid entries w) in
            rw g (elim (Bool-cases (i == id)) [
              | inl e ↦
                  let same = (str_beq_iff i id).0 e in
                  let now_changed : (changed specs id (get desired id) ≡ true) =
                    subst (λ z. changed specs z (get desired z) ≡ true) same g in
                  let missing : (get entries id ≡ none) =
                    subst (λ z. get entries z ≡ none) same w.distinct.0 in
                  rw now_changed (
                    a ∙ (rw missing (if_same engine _ none)),
                    b ∙ (rw missing (if_same engine _ none)),
                  )
              | inr e ↦ rw e (
                a
                    ∙ (rw
                        (
                          changed-remove engine specs i id (get desired id) e,
                          armed-remove engine c eid entries id
                              (tail-apart engine c i eid entries id w),
                        )
                        refl),
                b ∙ (rw (changed-remove engine specs i id (get desired id) e) refl),
              )
            ])
        | inr g ↦
            let (a, b) =
              prune-armed desired c specs entries id (tail-IsWired engine c i eid entries w) in
            rw g (elim (Bool-cases (i == id)) [
              | inl e ↦
                  let unchanged : (changed specs id (get desired id) ≡ false) =
                    subst (λ z. changed specs z (get desired z) ≡ false) ((str_beq_iff i id).0 e)
                      g in
                  rw (e, unchanged)
                    (
                      prune-runs desired c specs entries eid w.distinct.1
                          (λ k. tail-apart engine c i eid entries k w),
                      refl,
                    )
              | inr e ↦ rw e (a, b)
            ])
      ]

  prune-Distinct :
      (desired : Map Str CronJob) (c : C) (specs : Map Str Str) (entries : Map Str ℕ)
      → IsWired engine c entries
      → Distinct (prune engine desired c specs entries).2
  unfolding prune
  prune-Distinct desired c specs [] w = tt
  prune-Distinct desired c specs ((i, eid) ∷ entries) w =
      elim (Bool-cases (changed specs i (get desired i))) [
        | inl g ↦ rw g (
            prune-Distinct desired (engine.remove_entry c eid) (remove specs i) entries
              (remove-IsWired engine c i eid entries w))
        | inr g ↦
            let t = tail-IsWired engine c i eid entries w in
            rw g (
              (prune-armed desired c specs entries i t).1
                  ∙ (rw w.distinct.0 (if_same engine (changed specs i (get desired i)) none)),
              prune-Distinct desired c specs entries t,
            )
      ]

  kept-entry :
      (desired : Map Str CronJob) (c : C) (specs : Map Str Str) (entries : Map Str ℕ) (id : Str)
      (eid : ℕ)
      → IsWired engine c entries
      → get (prune engine desired c specs entries).2 id ≡ some eid
      → (get entries id ≡ some eid)
        × (engine.runs (prune engine desired c specs entries).0 eid ≡ engine.runs c eid)
  kept-entry desired c specs entries id eid w h =
      let (a, b) = prune-armed desired c specs entries id w in
      elim (Bool-cases (changed specs id (get desired id))) [
        | inl g ↦ let gone = sym h ∙ (rw g at b) in ground arith
        | inr g ↦
            let same : (get entries id ≡ some eid) = sym (rw g at b) ∙ h in
            (same, (rw (h, g, same) at a))
      ]

  pub prune-IsWired :
      (desired : Map Str CronJob) (c : C) (specs : Map Str Str) (entries : Map Str ℕ)
      → IsWired engine c entries
      → IsWired engine
          (prune engine desired c specs entries).0
          (prune engine desired c specs entries).2
  prune-IsWired desired c specs entries w = record {
    distinct = prune-Distinct desired c specs entries w;
    live = λ id eid h.
        let (found, same) = kept-entry desired c specs entries id eid w h in
        rw same (w.live id eid found);
    apart = λ i k eid h l.
        w.apart i k eid (kept-entry desired c specs entries i eid w h).0
          (kept-entry desired c specs entries k eid w l).0;
  }
