-- ===== src/Gateway/Lifecycle/Watched.antt =====
-- The cache behind the watcher's loop, against a store that others write to between the events.
use cfunc.Base.{
  ◌≡◌, refl, sym, ap, ◌∙◌, inl, inr, List, [], ◌∷◌, Option, Str, get, str_eq, str_beq_iff, ◌==◌,
  Result, ok, err, Bool-cases, arith, str_beq_refl,
}
use cfunc.State.Data
use cfunc.State.Data.{
  StoreError, Event, EventKind, function_put, function_delete, cron_put, cron_delete, not_found,
}
use cfunc.State.InMem
use cfunc.State.InMem.{InMemStore}
use cfunc.State.Iface.{in_mem_functions}
use cfunc.Gateway.Registry.{Gateway, from_state_def, apply_event, event_of, put_event}
use cfunc.Gateway.Registry.Synced.{IsKeyed, cached, functions-apply_put, functions-apply_delete}
use cfunc.Gateway.Lifecycle.{Arrival, arrived, stopped, closed, watch_loop}

-- The event tells nothing of the name that has since become untrue: where it is a put, the store
-- that is read has of the name what it has in the end, and where it is a delete, the name is gone
-- in the end.
abbrev pub IsTrue : InMemStore → Str → InMemStore → EventKind → Type 0
IsTrue last name s function_put = InMem.get_function s name ≡ InMem.get_function last name
IsTrue last name s function_delete = InMem.get_function last name ≡ err not_found
IsTrue last name s _ = Unit

-- It also brings the name up to date.
abbrev pub IsNews : InMemStore → Str → InMemStore → EventKind → Type 0
IsNews last name s function_put =
    (d : Data.FunctionDef) × (InMem.get_function s name ≡ ok d)
    × (InMem.get_function last name ≡ ok d)
IsNews last name s function_delete = InMem.get_function last name ≡ err not_found
IsNews last name s _ = ⊥

-- Every event up to the loop's end is true of the name.
abbrev pub AllTrue : InMemStore → Str → List (Arrival InMemStore) → Type 0
AllTrue last name [] = Unit
AllTrue last name (stopped ∷ rest) = Unit
AllTrue last name (closed ∷ rest) = Unit
AllTrue last name (arrived s ev ∷ rest) =
    IsKeyed s × (ev.name ≡ name → IsTrue last name s ev.kind) × AllTrue last name rest

put_event-keeps :
    (g : Gateway) (r : Result StoreError Data.FunctionDef) (name : Str) (want : Option _)
    → get g.functions name ≡ want
    → ((d : Data.FunctionDef) → r ≡ ok d → d.name ≡ name → cached (ok d) ≡ want)
    → get (put_event in_mem_functions g r).functions name ≡ want
put_event-keeps g (err e) name want has new = has
put_event-keeps g (ok d) name want has new = elim (Bool-cases (d.name == name)) [
  | inl e ↦
      rw (functions-apply_put g (from_state_def d) name, e)
        (new d refl (ground (arith, str_beq_iff d.name name)))
  | inr e ↦ rw (functions-apply_put g (from_state_def d) name, e) has
]

event_of-keeps :
    (g : Gateway) (last s : InMemStore) (of name : Str) (kind : EventKind)
    → IsKeyed s
    → (of ≡ name → IsTrue last name s kind)
    → get g.functions name ≡ cached (InMem.get_function last name)
    → get (event_of in_mem_functions g s of kind).functions name
      ≡ cached (InMem.get_function last name)
event_of-keeps g last s of name function_put keyed true_of has =
    put_event-keeps g (InMem.get_function s of) name (cached (InMem.get_function last name)) has
      (λ d found same.
        let here : (of ≡ name) = sym (keyed of d found) ∙ same in
        ap cached (sym found ∙ ap (InMem.get_function s) here ∙ true_of here))
event_of-keeps g last s of name function_delete keyed true_of has = elim (Bool-cases (of == name)) [
  | inl e ↦
      rw (functions-apply_delete g of name, e)
        (ap cached (sym (true_of (ground (arith, str_beq_iff of name)))))
  | inr e ↦ rw (functions-apply_delete g of name, e) has
]
event_of-keeps g last s of name cron_put keyed true_of has = has
event_of-keeps g last s of name cron_delete keyed true_of has = has

watch_loop-keeps :
    (g : Gateway) (last : InMemStore) (name : Str) (arrivals : List (Arrival InMemStore))
    → AllTrue last name arrivals
    → get g.functions name ≡ cached (InMem.get_function last name)
    → get (watch_loop in_mem_functions g arrivals).functions name
      ≡ cached (InMem.get_function last name)
unfolding watch_loop apply_event
watch_loop-keeps g last name [] all_true has = has
watch_loop-keeps g last name (stopped ∷ rest) all_true has = has
watch_loop-keeps g last name (closed ∷ rest) all_true has = has
watch_loop-keeps g last name (arrived s ev ∷ rest) (keyed, true_of, all_true) has =
    watch_loop-keeps (apply_event in_mem_functions g s ev) last name rest all_true
      (event_of-keeps g last s ev.name name ev.kind keyed true_of has)

event_of-news :
    (g : Gateway) (last s : InMemStore) (name : Str) (kind : EventKind)
    → IsKeyed s
    → IsNews last name s kind
    → get (event_of in_mem_functions g s name kind).functions name
      ≡ cached (InMem.get_function last name)
event_of-news g last s name function_put keyed (d, found, in_the_end) =
    rw (found, in_the_end)
      (rw (functions-apply_put g (from_state_def d) name, keyed name d found, str_beq_refl name)
        refl)
event_of-news g last s name function_delete keyed gone =
    rw (functions-apply_delete g name name, gone, str_beq_refl name) refl
event_of-news g last s name cron_put keyed none_such = elim none_such [ ]
event_of-news g last s name cron_delete keyed none_such = elim none_such [ ]

-- Events with the stores they are read from, then what else arrives.
abbrev pub followed_by :
    List (InMemStore × Event) → List (Arrival InMemStore) → List (Arrival InMemStore)
followed_by [] rest = rest
followed_by ((s, ev) ∷ first) rest = arrived s ev ∷ followed_by first rest

-- The watcher catches up with a name: whatever the cache held and whatever events came first, once
-- an event brought the name up to date with what the store has in the end, and no later event says
-- otherwise, the cache has of the name what the store has. The stores that these events are read
-- from keep definitions under their own names.
pub watch_loop-CatchesUp :
    (g : Gateway) (last : InMemStore) (name : Str) (first : List (InMemStore × Event))
    (s : InMemStore) (kind : EventKind) (rest : List (Arrival InMemStore))
    → IsKeyed s
    → IsNews last name s kind
    → AllTrue last name rest
    → get
        (watch_loop in_mem_functions g
          (followed_by first (arrived s (record { kind = kind; name = name }) ∷ rest))).functions
        name
      ≡ cached (InMem.get_function last name)
unfolding watch_loop apply_event
watch_loop-CatchesUp g last name [] s kind rest keyed news all_true =
    watch_loop-keeps (event_of in_mem_functions g s name kind) last name rest all_true
      (event_of-news g last s name kind keyed news)
watch_loop-CatchesUp g last name ((t, ev) ∷ first) s kind rest keyed news all_true =
    watch_loop-CatchesUp (apply_event in_mem_functions g t ev) last name first s kind rest keyed
      news all_true
