-- ===== src/State/InMem/Events.antt =====
-- The event channels of internal/state/inmem.go: what a subscriber that is not reading receives.
use cfunc.Base.{
  ℕ, ◌≤◌, ◌≡◌, refl, ap, ◌∙◌, [], ◌∷◌, ◌++◌, List, map, some, Map, get, nat_eq, length, take, ltb,
  ◌==◌, arith, zero, suc, length-append, Bool-cases, inl, inr, sym,
}
use mathlib.Core.List.{append_assoc, append-nil}
use cfunc.State.Data.{Event}
use cfunc.State.InMem.{InMemStore, channel_capacity, offer, offer_to, broadcast}

-- One event after another, with no receive in between.
pub broadcast_all : InMemStore → List Event → InMemStore
broadcast_all s [] = s
broadcast_all s (ev ∷ evs) = broadcast_all (broadcast s ev) evs

get-offers :
    (ev : Event) (subs : Map ℕ (List Event)) (ch : ℕ) (queue : List Event)
    → get subs ch ≡ some queue
    → get (map (offer_to ev) subs) ch ≡ some (offer ev queue)
unfolding get
get-offers ev [] ch queue h = cc
get-offers ev ((i, q) ∷ subs) ch queue h = elim (Bool-cases (i == ch)) [
  | inl e ↦ rw e (ap some (ap (offer ev) (ground arith)))
  | inr e ↦ rw e (get-offers ev subs ch queue (ground arith))
]

take_all {ℓ} : {A : Type ℓ} (n : ℕ) (xs : List A) → length xs ≤ n → take n xs ≡ xs
take_all zero [] h = refl
take_all zero (x ∷ xs) h = absurd (omega arith)
take_all (suc n) [] h = refl
take_all (suc n) (x ∷ xs) h = ap (◌∷◌ x) (take_all n xs (omega arith))

take-full {ℓ} :
    {A : Type ℓ} (n : ℕ) (xs ys : List A) → n ≤ length xs → take n (xs ++ ys) ≡ take n xs
take-full zero xs ys h = refl
take-full (suc n) [] ys h = absurd (omega arith)
take-full (suc n) (x ∷ xs) ys h = ap (◌∷◌ x) (take-full n xs ys (omega arith))

length-offer :
    (ev : Event) (queue : List Event)
    → length queue ≤ channel_capacity
    → length (offer ev queue) ≤ channel_capacity
unfolding offer
length-offer ev queue h = ground (arith, length-append queue (ev ∷ []))

offer-take :
    (ev : Event) (queue evs : List Event)
    → length queue ≤ channel_capacity
    → take channel_capacity (offer ev queue ++ evs) ≡ take channel_capacity (queue ++ ev ∷ evs)
unfolding offer
offer-take ev queue evs h = elim (Bool-cases (ltb (length queue) channel_capacity)) [
  | inl e ↦ rw e (ap (take channel_capacity) (append_assoc queue (ev ∷ []) evs))
  | inr e ↦ rw e (
      take-full channel_capacity queue evs (ground arith)
      ∙ sym (take-full channel_capacity queue (ev ∷ evs) (ground arith)))
]

-- A channel that nobody reads, with at most 16 events in it, holds the first 16 of what waited in it
-- and was sent since, in order; the rest is lost.
pub broadcast_all-queue :
    (s : InMemStore) (evs : List Event) (ch : ℕ) (queue : List Event)
    → get s.subs ch ≡ some queue
    → length queue ≤ channel_capacity
    → get (broadcast_all s evs).subs ch ≡ some (take channel_capacity (queue ++ evs))
unfolding broadcast_all
broadcast_all-queue s [] ch queue h fits =
    h
    ∙ ap some
        (sym (take_all channel_capacity (queue ++ []) (rw append-nil fits) ∙ append-nil queue))
broadcast_all-queue s (ev ∷ evs) ch queue h fits =
    broadcast_all-queue (broadcast s ev) evs ch (offer ev queue)
      (unfold broadcast in get-offers ev s.subs ch queue h) (length-offer ev queue fits)
    ∙ ap some (offer-take ev queue evs fits)
