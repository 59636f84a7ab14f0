-- ===== src/Scheduler/Wired.antt =====
-- The entries of the scheduler in the cron engine.
use cfunc.Base.{
  ◌≡◌, ◌≢◌, refl, sym, ap, ◌∙◌, ℕ, Bool, false, ◌∷◌, Option, none, some, Str, Map, get, put, remove,
  Distinct, put-Distinct, get-put, get-remove, str_eq, str_beq_iff, nat_beq, nat_beq_iff, ◌==◌,
  if◌then◌else◌, ok, arith, Bool-cases, Option-cases, inl, inr, subst, str_beq_refl, ◌⊎◌,
}
use cfunc.State.Data.{CronJob}
use cfunc.Scheduler.{Cron, changed}

module _ {C : Type 0} (engine : Cron C) where
  -- The job that the engine runs for an id.
  abbrev pub behind : C → Option ℕ → Option CronJob
  behind c none = none
  behind c (some eid) = engine.runs c eid

  abbrev pub armed : C → Map Str ℕ → Str → Option CronJob
  armed c entries id = behind c (get entries id)

  -- The entries are known to the engine, and no two ids share one.
  pub record IsWired (c : C) (entries : Map Str ℕ) : Type 0 where
    pub distinct : Distinct entries
    pub live : (id : Str) (eid : ℕ) → get entries id ≡ some eid → engine.runs c eid ≢ none
    pub apart : (i k : Str) (eid : ℕ) → get entries i ≡ some eid → get entries k ≡ some eid → i ≡ k

  -- What follows the first entry of a wired list.
  pub get-tail :
      (i : Str) (eid : ℕ) (entries : Map Str ℕ) (k : Str) (x : ℕ)
      → Distinct ((i, eid) ∷ entries)
      → get entries k ≡ some x
      → (get ((i, eid) ∷ entries) k ≡ some x) × (i ≢ k)
  unfolding get
  get-tail i eid entries k x d h =
      let ne : (i ≢ k) = λ same.
        let gone : (get entries k ≡ none) = subst (λ z. get entries z ≡ none) same d.0 in
        ground arith in
      let test = str_beq_iff i k in (ground arith, ne)

  -- An entry of the list is another than the one in front.
  pub tail-apart :
      (c : C) (i : Str) (eid : ℕ) (entries : Map Str ℕ) (k : Str)
      → IsWired c ((i, eid) ∷ entries)
      → get entries k ≢ some eid
  unfolding get
  tail-apart c i eid entries k w h =
      let (found, ne) = get-tail i eid entries k eid w.distinct h in
      ne (w.apart i k eid (rw str_beq_refl refl) found)

  pub other-entry :
      (entries : Map Str ℕ) (k : Str) (eid x : ℕ)
      → get entries k ≢ some eid
      → get entries k ≡ some x
      → nat_beq eid x ≡ false
  other-entry entries k eid x ne h = elim (Bool-cases (nat_beq eid x)) [
    | inl e ↦ absurd (ne (h ∙ ap some (sym ((nat_beq_iff eid x).0 e))))
    | inr e ↦ e
  ]

  -- Removing an entry leaves every other one armed as it was.
  pub armed-remove :
      (c : C) (eid : ℕ) (entries : Map Str ℕ) (k : Str)
      → get entries k ≢ some eid
      → armed (engine.remove_entry c eid) entries k ≡ armed c entries k
  armed-remove c eid entries k ne = elim (Option-cases (get entries k)) [
    | inl e ↦ rw e refl
    | inr (x, e) ↦ rw (e, engine.remove_runs c eid x, other-entry entries k eid x ne e) refl
  ]

  pub tail-IsWired :
      (c : C) (i : Str) (eid : ℕ) (entries : Map Str ℕ)
      → IsWired c ((i, eid) ∷ entries)
      → IsWired c entries
  tail-IsWired c i eid entries w = record {
    distinct = w.distinct.1;
    live = λ k x h. w.live k x (get-tail i eid entries k x w.distinct h).0;
    apart = λ j k x h l.
        w.apart j k x (get-tail i eid entries j x w.distinct h).0
          (get-tail i eid entries k x w.distinct l).0;
  }

  pub remove-IsWired :
      (c : C) (i : Str) (eid : ℕ) (entries : Map Str ℕ)
      → IsWired c ((i, eid) ∷ entries)
      → IsWired (engine.remove_entry c eid) entries
  remove-IsWired c i eid entries w =
      let t = tail-IsWired c i eid entries w in
      record {
        distinct = t.distinct;
        live = λ k x h.
            rw
              (
                engine.remove_runs c eid x,
                other-entry entries k eid x (tail-apart c i eid entries k w) h,
              )
              (t.live k x h);
        apart = t.apart;
      }

  pub head-get : (i : Str) (eid : ℕ) (entries : Map Str ℕ) → get ((i, eid) ∷ entries) i ≡ some eid
  unfolding get
  head-get i eid entries = rw str_beq_refl refl

  pub if_same : {A : Type 0} (b : Bool) (x : A) → (if b then x else x) ≡ x
  if_same b x = ground arith

  pub changed-remove :
      (specs : Map Str Str) (i id : Str) (want : Option CronJob)
      → (i == id) ≡ false
      → changed (remove specs i) id want ≡ changed specs id want
  changed-remove specs i id none e = refl
  changed-remove specs i id (some j) e = rw (get-remove specs i id, e) refl

  put-entry :
      (entries : Map Str ℕ) (id k : Str) (eid x : ℕ)
      → get (put entries id eid) k ≡ some x
      → ((id ≡ k) × (eid ≡ x)) ⊎ (get entries k ≡ some x)
  put-entry entries id k eid x h = elim (Bool-cases (id == k)) [
    | inl e ↦
        let now : (some eid ≡ some x) = (rw e at (sym (get-put entries id k eid))) ∙ h in
        inl ((str_beq_iff id k).0 e, ground arith)
    | inr e ↦ inr ((rw e at (sym (get-put entries id k eid))) ∙ h)
  ]

  module _ (c c' : C) (entries : Map Str ℕ) (schedule : Str) (j : CronJob) (id : Str) (eid : ℕ)
      (w : IsWired c entries) (added : engine.add_func c schedule j ≡ ok (eid, c')) where
    pub not_fresh : (k : Str) → get entries k ≢ some eid
    not_fresh k h = w.live k eid h (engine.add_fresh c c' schedule j eid added)

    register-live : (x : ℕ) → engine.runs c x ≢ none → engine.runs c' x ≢ none
    register-live x ne =
        let law = engine.add_runs c c' schedule j eid x added in
        elim (Bool-cases (nat_beq eid x)) [
          | inl e ↦ λ h. let bad = sym (rw e at law) ∙ h in ground arith
          | inr e ↦ λ h. ne (sym (rw e at law) ∙ h)
        ]

    pub runs-new : engine.runs c' eid ≡ some j
    runs-new =
        engine.add_runs c c' schedule j eid eid added ∙ (rw ((nat_beq_iff eid eid).1 refl) refl)

    pub register-IsWired : IsWired c' (put entries id eid)
    register-IsWired = record {
      distinct = put-Distinct entries id eid w.distinct;
      live = λ k x h. elim (put-entry entries id k eid x h) [
        | inl (same, is_new) ↦
            λ gone. let bad = sym (runs-new) ∙ ap (engine.runs c') is_new ∙ gone in ground arith
        | inr found ↦ register-live x (w.live k x found)
      ];
      apart = λ i k x h l. elim (put-entry entries id i eid x h) [
        | inl (same, is_new) ↦ elim (put-entry entries id k eid x l) [
          | inl (same', is_new') ↦ sym same ∙ same'
          | inr found ↦ absurd (not_fresh k (found ∙ ap some (sym is_new)))
        ]
        | inr found ↦ elim (put-entry entries id k eid x l) [
          | inl (same, is_new) ↦ absurd (not_fresh i (found ∙ ap some (sym is_new)))
          | inr found' ↦ w.apart i k x found found'
        ]
      ];
    }
