-- ===== src/Scheduler/Trigger.antt =====
-- The HTTP trigger of internal/scheduler/scheduler.go. Building a request and sending it are
-- parameters; a response is its status.
use cfunc.Base.{
  length-take, leb→le, sym, ℕ, suc, zero, ◌+◌, ◌≤◌, ◌<◌, ◌≡◌, refl, ap, ◌∙◌, true, false, [], ◌∷◌,
  ◌++◌, Option, none, some, Str, lit, Map, ◌==◌, if◌then◌else◌, Result, ok, err, ℤ, pos, ltz,
  length, take, drop, leb, arith, Bool-cases, inl, inr, str_eq, length-drop,
}
use cfunc.Scheduler.{Job}

pub record Request : Type 0 where
  pub method : Str
  pub url : Str
  pub headers : Map Str Str
  pub body : Str

pub data FireError : Type 0 where
  bad_request send_failed : Str → FireError
  returned_status : Str → ℤ → FireError

-- The method defaults to POST.
abbrev pub request_of : Str → Job → Request
request_of base_url j = record {
  method = if j.method == [] then lit "POST" else j.method;
  url = base_url ++ (lit "/fn/" ++ j.function);
  headers = j.headers;
  body = j.body;
}

module _ (new_request : Request → Result Str Request) (send : Request → Result Str ℤ) where
  abbrev pub replied : Job → Result Str ℤ → Option FireError
  replied j (err e) = some (send_failed e)
  replied j (ok status) =
      if ltz status (pos 400) then none else some (returned_status j.function status)

  abbrev pub requested : Job → Result Str Request → Option FireError
  requested j (err e) = some (bad_request e)
  requested j (ok req) = replied j (send req)

  -- HTTPTrigger.Fire; none is nil.
  unfoldable pub http_fire : Str → Job → Option FireError
  http_fire base_url j = requested j (new_request (request_of base_url j))

-- A request's body: what it is, and how much of it is read.
pub record StringReader : Type 0 where
  pub s : Str
  pub i : ℕ

unfoldable pub string_reader : Str → StringReader
string_reader s = record { s = s; i = 0 }

-- Read into a buffer of a length: the bytes and the reader after it; none is io.EOF.
unfoldable pub read_chunk : StringReader → ℕ → Option (Str × StringReader)
read_chunk r size =
    let chunk = take size (drop r.i r.s) in
    if leb (length r.s) r.i then none else some (chunk, record r { i = r.i + length chunk })

-- Reads with one buffer until the end, at most as many as the first argument says.
abbrev pub and_then : Option Str → Str → Option Str
and_then none chunk = none
and_then (some rest) chunk = some (chunk ++ rest)

abbrev pub on_chunk : (StringReader → Option Str) → Option (Str × StringReader) → Option Str
on_chunk next none = some []
on_chunk next (some (chunk, r)) = and_then (next r) chunk

unfoldable pub read_out : ℕ → ℕ → StringReader → Option Str
unfolding read_chunk
read_out zero size r = none
read_out (suc n) size r = on_chunk (read_out n size) (read_chunk r size)

drop-take : (n : ℕ) (s : Str) → take n s ++ drop (length (take n s)) s ≡ s
drop-take zero s = refl
drop-take (suc n) [] = refl
drop-take (suc n) (c ∷ s) = ap (◌∷◌ c) (drop-take n s)

plus_zero : (n : ℕ) → 0 + n ≡ n
plus_zero n = omega arith

suc_plus : (m n : ℕ) → suc m + n ≡ suc (m + n)
suc_plus m n = omega arith

drop-drop : (m n : ℕ) (s : Str) → drop (m + n) s ≡ drop n (drop m s)
drop-drop zero n s = ap (λ k. drop k s) (plus_zero n)
drop-drop (suc m) zero [] = ap (λ k. drop k []) (suc_plus m 0)
drop-drop (suc m) (suc n) [] = ap (λ k. drop k []) (suc_plus m (suc n))
drop-drop (suc m) n (c ∷ s) = ap (λ k. drop k (c ∷ s)) (suc_plus m n) ∙ drop-drop m n s

drop-all : (n : ℕ) (s : Str) → length s ≤ n → drop n s ≡ []
drop-all zero [] h = refl
drop-all zero (c ∷ s) h = absurd (omega arith)
drop-all (suc n) [] h = refl
drop-all (suc n) (c ∷ s) h = drop-all n s (omega (arith, h))

take-pos : (n : ℕ) (s : Str) → 0 < n → 0 < length s → 0 < length (take n s)
take-pos zero s h k = absurd (omega arith)
take-pos (suc n) [] h k = absurd (omega arith)
take-pos (suc n) (c ∷ s) h k = omega arith

shrinks :
    (size : ℕ) (s : Str) (n : ℕ)
    → 0 < size
    → 0 < length s
    → length s < suc n
    → length (drop (length (take size s)) s) < n
shrinks size s n h k l =
    let cut = take-pos size s h k in
    let within : (length (take size s) ≤ length s) = omega (arith, length-take size s) in
    omega (arith, length-drop (length (take size s)) s within, cut, l)

at_end : (r : StringReader) (size : ℕ) → leb (length r.s) r.i ≡ true → read_chunk r size ≡ none
unfolding read_chunk
at_end r size e = rw e refl

in_midst :
    (r : StringReader) (size : ℕ)
    → leb (length r.s) r.i ≡ false
    → read_chunk r size
      ≡ some (take size (drop r.i r.s), record r { i = r.i + length (take size (drop r.i r.s)) })
unfolding read_chunk
in_midst r size e = rw e refl

-- With a buffer that is not empty, reading ends, and gives what is left.
read_out-rest :
    (n size : ℕ) (r : StringReader)
    → 0 < size
    → length (drop r.i r.s) < n
    → read_out n size r ≡ some (drop r.i r.s)
unfolding read_out
read_out-rest zero size r h k = absurd (omega arith)
read_out-rest (suc n) size r h k = elim (Bool-cases (leb (length r.s) r.i)) [
  | inl e ↦
      ap (on_chunk (read_out n size)) (at_end r size e)
      ∙ ap some (sym (drop-all r.i r.s (leb→le (length r.s) r.i e)))
  | inr e ↦
      let left = drop r.i r.s in
      let chunk = take size left in
      let some_left : (0 < length left) = ground (arith, length-drop r.i r.s) in
      let rest : (drop (r.i + length chunk) r.s ≡ drop (length chunk) left) =
        drop-drop r.i (length chunk) r.s in
      let shorter : (length (drop (r.i + length chunk) r.s) < n) =
        rw rest (shrinks size left n h some_left k) in
      ap (on_chunk (read_out n size)) (in_midst r size e)
      ∙ ap (λ o. and_then o chunk)
          (read_out-rest n size (record r { i = r.i + length chunk }) h shorter)
      ∙ ap (λ t. some (chunk ++ t)) rest
      ∙ ap some (drop-take size left)
]

-- With a buffer that is not empty, as many reads as the body has bytes and one more give the body.
read_out-string :
    (s : Str) (size : ℕ) → 0 < size → read_out (suc (length s)) size (string_reader s) ≡ some s
unfolding string_reader
read_out-string s size h =
    read_out-rest (suc (length s)) size (record { s = s; i = 0 }) h (omega arith)
