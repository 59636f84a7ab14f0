-- ===== src/Gateway/Serve/Replies.antt =====
-- What ServeHTTP writes, and what it leaves of the pool, on every path after acquire.
use cfunc.Base.{
  ◌≡◌, refl, ap, ℕ, Bool, true, false, not, ◌&&◌, List, [], ◌∷◌, length, ltb, if◌then◌else◌, ◌==◌,
  nat_eq, int_eq, int_beq_iff, Bool-cases, Result-cases, ◌⊎◌, inl, inr, ◌↔◌, Result, ok, err, Str,
  ℤ, pos, add64, ◌≤◌, arith, Option, int_beq_iff, ◌∙◌, subst, sym,
}
use cfunc.Gateway.Pool.{
  Pool, ManagedInstance, update_at, unlock, count_invoke, count_error, add_u64,
}
use cfunc.Gateway.Serve.{
  Reply, error_reply, result_reply, Response, answer, serve_leased, max_request_body,
}

update-update :
    (id : ℕ) (f h : ManagedInstance → ManagedInstance) (is : List ManagedInstance)
    → ((mi : ManagedInstance) → (f mi).id ≡ mi.id)
    → update_at id h (update_at id f is) ≡ update_at id (λ mi. h (f mi)) is
unfolding update_at
update-update id f h [] keeps = refl
update-update id f h (mi ∷ is) keeps =
    let same = keeps mi in
    let ih = update-update id f h is keeps in
    elim (Bool-cases (mi.id == id)) [ inl e ↦ ground arith | inr e ↦ ground arith ]

-- The codes that net/http's WriteHeader takes; it panics on any other.
abbrev pub InRange : ℤ → Type 0
InRange s = (n : ℕ) × (s ≡ pos n) × (100 ≤ n) × (n ≤ 999)

abbrev pub is_ok : {E A : Type 0} → Result E A → Bool
is_ok (ok a) = true
is_ok (err e) = false

-- The instance after a request, by whether the body was too large and whether the call was answered.
abbrev pub served : Bool → Bool → ℕ → ℤ → ManagedInstance → ManagedInstance
served too_large answered now dur mi = record mi {
  busy = false;
  errors = if not too_large && not answered then add_u64 mi.errors 1 else mi.errors;
  invokes = if not too_large && answered then add_u64 mi.invokes 1 else mi.invokes;
  total_ns = if not too_large && answered then add64 mi.total_ns dur else mi.total_ns;
  last_used_ns = if not too_large && answered then now else mi.last_used_ns;
}

module _ (unmarshal_response : Str → Result Str Response)
    (unmarshal_string : Str → Option Str) where
  -- On every path the instance that was held is freed and the others are left alone. An error is
  -- counted exactly if the call failed, and an invocation, its time and its end exactly if it was
  -- answered, be it with an error reply or a response that cannot be read.
  pub serve_leased-update :
      (p : Pool) (id : ℕ) (body : Str) (invoke : Str → Result Str Reply) (now : ℕ) (dur : ℤ)
      → (serve_leased unmarshal_response unmarshal_string p id body invoke now dur).1 ≡ record p {
        instances =
            update_at id
              (served (ltb max_request_body (length body)) (is_ok (invoke body)) now dur)
              p.instances;
      }
  unfolding serve_leased unlock count_error count_invoke
  serve_leased-update p id body invoke now dur =
      elim (Bool-cases (ltb max_request_body (length body))) [
        | inl e ↦ rw e refl
        | inr e ↦ elim (Result-cases (invoke body)) [
          | inl (reply, h) ↦
              rw (e, h)
                (ap (λ is. record p { instances = is })
                  (update-update id _ _ p.instances (λ mi. refl)))
          | inr (er, h) ↦
              rw (e, h)
                (ap (λ is. record p { instances = is })
                  (update-update id _ _ p.instances (λ mi. refl)))
        ]
      ]

  abbrev pub Asks : Reply → Response → Type 0
  Asks reply r = (result : Str) × (reply ≡ result_reply result) × (unmarshal_response result ≡ ok r)

  read_once :
      (result : Str) (r s : Response)
      → unmarshal_response result ≡ ok r
      → Asks (result_reply result) s
      → s ≡ r
  read_once result r s h (other, same, k) = ground arith

  -- The status that is written is one that WriteHeader takes exactly if the function's own response,
  -- where it gives one, leaves the status out or asks for one that WriteHeader takes.
  pub answer-InRange :
      (reply : Reply)
      → InRange (answer unmarshal_response unmarshal_string reply).status
        ↔ ((r : Response) → Asks reply r → (r.status ≡ pos 0) ⊎ InRange r.status)
  unfolding answer
  answer-InRange (error_reply type message) =
      ((λ _ r asks. ground arith), λ _. (500, refl, ground arith, ground arith))
  answer-InRange (result_reply result) = elim (Result-cases (unmarshal_response result)) [
    | inl (r, h) ↦
        let zero = int_beq_iff r.status (pos 0) in
        elim (Bool-cases (r.status == pos 0)) [
          | inl e ↦
              rw (h, e)
                (
                  λ _ s asks. inl (ap (λ x. x.status) (read_once result r s h asks) ∙ zero.0 e),
                  λ _. (200, refl, ground arith, ground arith),
                )
          | inr e ↦
              rw (h, e)
                (
                  λ range s asks.
                      inr (subst (λ x. InRange x.status) (sym (read_once result r s h asks)) range),
                  λ f. elim (f r (result, refl, h)) [
                    | inl z ↦ ground arith
                    | inr ok_range ↦ ok_range
                  ],
                )
        ]
    | inr (e, h) ↦ rw h ((λ _ r asks. ground arith), λ _. (502, refl, ground arith, ground arith))
  ]
