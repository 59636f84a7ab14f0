-- ===== src/Gateway/Stats/Counts.antt =====
-- The dashboard's count of calls, against the reaper.
use cfunc.Base.{
  ℕ, ◌+◌, ◌%◌, ◌^◌, ◌<◌, ◌≡◌, refl, sym, ◌∙◌, List, [], ◌∷◌, some, Str, tally, arith, Bool-cases,
  inl, inr, ltb,
}
use cfunc.Gateway.Pool.{roll_up, roll_one, reap_scan, Pool, ManagedInstance, reap}
use cfunc.Gateway.Pool.Reaping.{counted_by, reap_conserves}
use cfunc.Gateway.Registry.{FunctionDef}
use cfunc.Gateway.Stats.{
  FunctionStats, Totals, totals, with_instance, first_totals, pool_stats, function_stats,
  cold_stats,
}

totals-invokes :
    (t : Totals) (is : List ManagedInstance) (rest : ℕ)
    → ((totals t is).invokes + rest) % 2 ^ 64
      ≡ (t.invokes + (tally (λ mi. mi.invokes) is + rest)) % 2 ^ 64
unfolding totals
totals-invokes t [] rest = omega arith
totals-invokes t (mi ∷ is) rest = omega (arith, totals-invokes (with_instance t mi) is rest)

pool_stats-invokes :
    (fs : FunctionStats) (now : ℕ) (p : Pool) (is : List ManagedInstance)
    → fs.invokes ≡ 0
    → p.lifetime_invokes < 2 ^ 64
    → (pool_stats fs now p is).invokes ≡ counted_by (λ mi. mi.invokes) p.lifetime_invokes is
pool_stats-invokes fs now p [] zero_before small = elim (Bool-cases (ltb 0 p.lifetime_invokes)) [
  | inl e ↦ rw e (omega (arith, small))
  | inr e ↦
      let none_left : (p.lifetime_invokes ≡ 0) = ground arith in
      rw e (omega (arith, none_left, zero_before))
]
pool_stats-invokes fs now p (mi ∷ is) zero_before small =
    omega (arith, totals-invokes (first_totals mi) (mi ∷ is) p.lifetime_invokes)

roll_up-small :
    (p : Pool) (is : List ManagedInstance)
    → p.lifetime_invokes < 2 ^ 64
    → (roll_up p is).lifetime_invokes < 2 ^ 64
unfolding roll_up
roll_up-small p [] h = h
roll_up-small p (mi ∷ is) h = roll_up-small (roll_one p mi) is (omega arith)

-- The dashboard's count of a function's calls is the sum over its instances and its lifetime total, as
-- a uint64, whether or not an instance is warm, and a reaper pass in between leaves it as it was.
pub function_stats-reap :
    (now later at ttl : ℕ) (name : Str) (def : FunctionDef) (p : Pool)
    → p.lifetime_invokes < 2 ^ 64
    → ((function_stats now name def (some p)).invokes
        ≡ counted_by (λ mi. mi.invokes) p.lifetime_invokes p.instances)
      × ((function_stats later name def (some (reap p at ttl).2)).invokes
          ≡ (function_stats now name def (some p)).invokes)
unfolding function_stats reap
function_stats-reap now later at ttl name def p small =
    let before = pool_stats-invokes (cold_stats name def) now p p.instances refl small in
    let q = (reap p at ttl).2 in
    let after =
      pool_stats-invokes (cold_stats name def) later q q.instances refl
        (roll_up-small p (reap_scan at ttl p.instances).1 small) in
    (before, after ∙ (reap_conserves p at ttl).0 ∙ sym before)
