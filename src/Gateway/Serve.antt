-- ===== src/Gateway/Serve.antt =====
-- ServeHTTP of internal/gateway/gateway.go: who may invoke which function, and what is answered and
-- counted once an instance is held. The JSON codec is a parameter.
pub mod Guards
pub mod Replies
use cfunc.Base.{
  ℕ, ◌+◌, ◌*◌, Bool, not, ◌&&◌, List, [], ◌∷◌, ◌++◌, Option, none, some, Str, lit, Map, get, str_eq,
  int_eq, ◌==◌, if◌then◌else◌, ℤ, Result, ok, err, length, ltb, nat_beq, pos,
}
use cfunc.Quota.{Limiter, allow, kind_requests_per_min}
use cfunc.Auth.{Identity}
use cfunc.Names.{is_valid_function_name}
use cfunc.Gateway.Path.{parse_function_path}
use cfunc.Gateway.Pool.{Pool, ManagedInstance, unlock, count_invoke, count_error}
use cfunc.Gateway.Registry.{Gateway, FunctionDef, project_or_default}

-- The project that owns the function registered under a name; "default" also where there is none.
abbrev pub owner : Option FunctionDef → Str
owner none = lit "default"
owner (some def) = project_or_default def.project

-- `admitted` goes on to acquire; the others are answered with 404 and 429.
pub data Admission : Type 0 where
  not_found too_many_requests : Admission
  admitted : Str → Admission

-- The limiter is none where it is nil.
abbrev pub limited : Option Limiter → Str → Str → Admission × Option Limiter
limited none project name = (admitted name, none)
limited (some l) project name =
    let (allowed, l') = allow l project kind_requests_per_min in
    (if allowed then admitted name else too_many_requests, some l')

abbrev pub admit_route :
    Gateway → Option Limiter → Identity → Option (Str × Str) → Admission × Option Limiter
admit_route g limiter id none = (not_found, limiter)
admit_route g limiter id (some (project, name)) =
    let registered = owner (get g.functions name) in
    if not (is_valid_function_name name)
    then (not_found, limiter)
    else if not (project == []) && not (project == registered)
    then (not_found, limiter)
    else if not (id.key_id == []) && not (id.project == lit "*") && not (id.project == registered)
    then (not_found, limiter)
    else limited limiter registered name

-- ServeHTTP up to its call of acquire.
unfoldable pub admit : Gateway → Option Limiter → Identity → Str → Admission × Option Limiter
admit g limiter id path = admit_route g limiter id (parse_function_path path)

-- What an instance answers to an invoke frame.
pub data Reply : Type 0 where
  error_reply : Str → Str → Reply
  result_reply : Str → Reply

-- The response of a handler, as the gateway reads it from a result.
pub record Response : Type 0 where
  pub status : ℤ
  pub headers : Map Str Str
  pub body : Str

-- What the client gets.
pub record Written : Type 0 where
  pub status : ℤ
  pub headers : Map Str Str
  pub body : Str

-- http.Error
abbrev pub http_error : ℤ → Str → Written
http_error status message = record { status = status; headers = []; body = message ++ 10 ∷ [] }

abbrev pub max_request_body : ℕ
max_request_body = 8 * 1024 * 1024

-- `unmarshal_response` and `unmarshal_string` are json.Unmarshal into the response and a string; an
-- error of the former is its message.
module _ (unmarshal_response : Str → Result Str Response)
    (unmarshal_string : Str → Option Str) where
  -- A body that is a JSON string is written unquoted.
  abbrev pub unquoted : Str → Option Str → Str
  unquoted body (some s) = s
  unquoted body none = body

  abbrev pub written_body : Str → Str
  written_body body = if body == [] then [] else unquoted body (unmarshal_string body)

  abbrev pub written : Result Str Response → Written
  written (err e) = http_error (pos 502) (lit "bad response: " ++ e)
  written (ok r) = record {
    status = if r.status == pos 0 then pos 200 else r.status;
    headers = r.headers;
    body = written_body r.body;
  }

  unfoldable pub answer : Reply → Written
  answer (error_reply type message) = http_error (pos 500) (type ++ (lit ": " ++ message))
  answer (result_reply result) = written (unmarshal_response result)

  abbrev pub invoked : Pool → ℕ → ℕ → ℤ → Result Str Reply → Written × Pool
  invoked p id now dur (err e) =
      (http_error (pos 502) (lit "function invoke failed: " ++ e), unlock (count_error p id) id)
  invoked p id now dur (ok reply) = (answer reply, unlock (count_invoke p id now dur) id)

  -- ServeHTTP after acquire, with the instance at `id` held: the request's body, the call of Invoke
  -- on it, and the deferred release. `now` and `dur` are the clock after the call and its time.
  unfoldable pub serve_leased : Pool → ℕ → Str → (Str → Result Str Reply) → ℕ → ℤ → Written × Pool
  serve_leased p id body invoke now dur =
      if ltb max_request_body (length body)
      then (http_error (pos 413) (lit "request body too large"), unlock p id)
      else invoked p id now dur (invoke body)
