-- ===== src/Gateway/Stats.antt =====
-- internal/gateway/stats.go and sort.go: the snapshot for the dashboard. An average is kept as its
-- two parts, the milliseconds and the number of calls.
pub mod Counts
use cfunc.Base.{
  ℕ, ◌+◌, ◌/◌, suc, Bool, true, false, not, ◌&&◌, List, [], ◌∷◌, ◌++◌, Option, none, some, map, Str,
  lit, length, ltb, nat_beq, if◌then◌else◌, ◌==◌, Eq, ℤ, pos, negsuc, sub_ℕ, add64, Map, get, put,
  sort_by, str_less, ◌↔◌, ◌≡◌, refl, arith, str_beq_iff, str_eq,
}
use cfunc.Gateway.Pool.{Pool, ManagedInstance, last_used, add_u64}
use cfunc.Gateway.Registry.{Gateway, FunctionDef, LayerMount}

pub record FunctionStats : Type 0 where
  pub name : Str
  pub endpoint : Str
  pub binary : Str
  pub layers : List (Str × Str × Str)
  pub running : Bool
  pub pool_size : ℕ
  pub max_concurrency : ℤ
  pub mode : Str
  pub cold_ms : ℕ
  pub started_at : Option ℕ
  pub last_used_at : Option ℕ
  pub idle_ms : ℤ
  pub invokes : ℕ
  pub errors : ℕ
  pub avg : Option (ℤ × ℕ)

pub record LayerSummary : Type 0 where
  pub name : Str
  pub host_path : Str
  pub mount_path : Str
  pub ref_count : ℕ
  pub warm_refs : ℕ
  pub references : List Str

pub record Stats : Type 0 where
  pub started_at : ℕ
  pub now_at : ℕ
  pub idle_ttl_ms : ℕ
  pub functions : List FunctionStats
  pub layers : List LayerSummary

-- Duration.Milliseconds, which rounds towards zero.
abbrev pub milliseconds : ℤ → ℤ
milliseconds (pos n) = pos (n / 1000000)
milliseconds (negsuc n) = sub_ℕ 0 (suc n / 1000000)

-- What the loop over a pool's instances adds up.
pub record Totals : Type 0 where
  pub invokes : ℕ
  pub errors : ℕ
  pub dur : ℤ
  pub earliest : ℕ
  pub latest : ℕ
  pub min_cold : ℕ

abbrev pub first_totals : ManagedInstance → Totals
first_totals mi = record {
  invokes = 0;
  errors = 0;
  dur = pos 0;
  earliest = mi.created;
  latest = last_used mi;
  min_cold = mi.inst.cold_start;
}

abbrev pub with_instance : Totals → ManagedInstance → Totals
with_instance t mi = record {
  invokes = add_u64 t.invokes mi.invokes;
  errors = add_u64 t.errors mi.errors;
  dur = add64 t.dur mi.total_ns;
  earliest = if ltb mi.created t.earliest then mi.created else t.earliest;
  latest = if ltb t.latest (last_used mi) then last_used mi else t.latest;
  min_cold = if ltb mi.inst.cold_start t.min_cold then mi.inst.cold_start else t.min_cold;
}

unfoldable pub totals : Totals → List ManagedInstance → Totals
totals t [] = t
totals t (mi ∷ is) = totals (with_instance t mi) is

abbrev pub cold_stats : Str → FunctionDef → FunctionStats
cold_stats name def = record {
  name = name;
  endpoint = lit "/fn/" ++ name;
  binary = def.binary;
  layers = map (λ l. (l.name, l.host_path, l.mount_path)) def.layers;
  running = false;
  pool_size = 0;
  max_concurrency = def.max_concurrency;
  mode = [];
  cold_ms = 0;
  started_at = none;
  last_used_at = none;
  idle_ms = pos 0;
  invokes = 0;
  errors = 0;
  avg = none;
}

abbrev pub average : ℤ → ℕ → Option (ℤ × ℕ)
average dur n = if ltb 0 n then some (milliseconds dur, n) else none

abbrev pub warm_stats : FunctionStats → ℕ → Pool → ManagedInstance → ℕ → Totals → FunctionStats
warm_stats fs now p mi size t = record fs {
  running = true;
  pool_size = size;
  mode = mi.inst.mode;
  cold_ms = t.min_cold / 1000000;
  started_at = some t.earliest;
  last_used_at = some t.latest;
  idle_ms = milliseconds (sub_ℕ now t.latest);
  invokes = add_u64 t.invokes p.lifetime_invokes;
  errors = add_u64 t.errors p.lifetime_errors;
  avg = average (add64 t.dur p.lifetime_total_dur) (add_u64 t.invokes p.lifetime_invokes);
}

-- The part of a function whose pool has these instances.
abbrev pub pool_stats : FunctionStats → ℕ → Pool → List ManagedInstance → FunctionStats
pool_stats fs now p [] =
    if ltb 0 p.lifetime_invokes
    then record fs {
      invokes = p.lifetime_invokes;
      errors = p.lifetime_errors;
      avg = some (milliseconds p.lifetime_total_dur, p.lifetime_invokes);
    }
    else fs
pool_stats fs now p (mi ∷ is) =
    warm_stats fs now p mi (length (mi ∷ is)) (totals (first_totals mi) (mi ∷ is))

unfoldable pub function_stats : ℕ → Str → FunctionDef → Option Pool → FunctionStats
unfolding totals
function_stats now name def none = cold_stats name def
function_stats now name def (some p) = pool_stats (cold_stats name def) now p p.instances

-- Layers by host path and mount path.
pub record LayerAgg : Type 0 where
  pub name : Str
  pub refs : List Str
  pub warm_refs : ℕ

abbrev pub key_beq : Str × Str → Str × Str → Bool
key_beq (a, b) (c, d) = a == c && b == d

pub key_beq_iff : (k l : Str × Str) → (key_beq k l ≡ true) ↔ (k ≡ l)
key_beq_iff (a, b) (c, d) = ground (arith, str_beq_iff a c, str_beq_iff b d)

instance abbrev pub key_eq : Eq (Str × Str)
key_eq = record { equal = key_beq; equal_iff = key_beq_iff }

abbrev pub referred : Str → Bool → LayerMount → Option LayerAgg → LayerAgg
referred name warm l none = record {
  name = l.name;
  refs = name ∷ [];
  warm_refs = if warm then 1 else 0;
}
referred name warm l (some a) = record a {
  refs = a.refs ++ name ∷ [];
  warm_refs = if warm then a.warm_refs + 1 else a.warm_refs;
}

unfoldable pub add_layers :
    Str → Bool → Map (Str × Str) LayerAgg → List LayerMount → Map (Str × Str) LayerAgg
add_layers name warm m [] = m
add_layers name warm m (l ∷ ls) =
    let key : Str × Str = (l.host_path, l.mount_path) in
    add_layers name warm (put m key (referred name warm l (get m key))) ls

abbrev pub is_warm : Option Pool → Bool
is_warm none = false
is_warm (some p) = ltb 0 (length p.instances)

-- The loop over the functions.
unfoldable pub scan :
    ℕ
    → Map Str Pool
    → Map Str FunctionDef
    → Map (Str × Str) LayerAgg
    → List FunctionStats × Map (Str × Str) LayerAgg
unfolding function_stats add_layers
scan now pools [] m = ([], m)
scan now pools ((name, def) ∷ functions) m =
    let p = get pools name in
    let (rest, m') = scan now pools functions (add_layers name (is_warm p) m def.layers) in
    (function_stats now name def p ∷ rest, m')

abbrev pub summary_of : (Str × Str) × LayerAgg → LayerSummary
summary_of (key, a) = record {
  name = a.name;
  host_path = key.0;
  mount_path = key.1;
  ref_count = length a.refs;
  warm_refs = a.warm_refs;
  references = sort_by str_less a.refs;
}

-- More references first, then by name.
abbrev pub more_shared : LayerSummary → LayerSummary → Bool
more_shared a b =
    if not (nat_beq a.ref_count b.ref_count)
    then ltb b.ref_count a.ref_count
    else str_less a.name b.name

unfoldable pub stats : ℕ → ℕ → ℕ → Gateway → Stats
unfolding scan
stats started now idle_ttl g =
    let (functions, layers) = scan now g.pools g.functions [] in
    record {
      started_at = started;
      now_at = now;
      idle_ttl_ms = idle_ttl / 1000000;
      functions = sort_by (λ a b. str_less a.name b.name) functions;
      layers = sort_by more_shared (map summary_of layers);
    }
