-- ===== src/Gateway/Handlers/Forwarded.antt =====
-- What reaches the backend by the routes of crates/lmml-gateway/src/lib.rs, and what the client gets.
use lmml.Base.{
  ok_inj, ℕ, String, ◌≡◌, refl, ap, sym, ◌∙◌, inl, inr, Bool, true, false, not, ◌||◌, if◌then◌else◌,
  Option, none, some, List, [], ◌∷◌, ◌==◌, eq_iff, arith, Bool-cases, Result, ok, err, In, here,
  there, reject_if, >>-ok, >>=-ok, guard-ok,
}
use lmml.Substrate.Errors.{SubstrateError}
use lmml.Substrate.Disk.{Bytes}
use lmml.Substrate.Json.{Value}
use lmml.Substrate.Approval.Types.{RequestPromptSchema, AdmissionState, AdmissionStatus}
use lmml.Substrate.Approval.Policy.{validate_prompt_request}
use lmml.Substrate.Approval.Policy.Limits.{RequestPasses, validate_prompt_request-RequestPasses}
use lmml.Gateway.Admission.{is_approved}
use lmml.Gateway.Handlers.{
  GatewayConfig, Response, BackendRequest, is_text, bearer, error_response, backend_headers,
  backend_path, authorize, admission_response,
}
use lmml.Gateway.Handlers.Routes.{
  not_too_large, parsed, bad_request, chat_request, Turn, Chunk, bytes, end_of_body, waiting,
  broken, turn_chunks, stream_chunks,
}

is_text-some :
    (o : Option String) (expected : String) (response : Response)
    → reject_if (not (is_text o expected)) response ≡ ok tt
    → o ≡ some expected
is_text-some none expected response h = cc
is_text-some (some text) expected response h = elim (Bool-cases (text == expected)) [
  | inl e ↦ ap some ((eq_iff text expected).0 e)
  | inr e ↦ ground (arith, e, h)
]

authorize-ok :
    (config : GatewayConfig) (authorization : Option String)
    → authorize config authorization ≡ ok tt
    → (key : String) → config.api_key ≡ some key
    → bearer authorization ≡ some key
unfolding authorize
authorize-ok config authorization h key e =
    is_text-some (bearer authorization) key (error_response 401 "missing or invalid bearer token")
      (ground (arith, e, h))

not_too_large-ok :
    (r : Result String Bytes) (body : Bytes) → not_too_large r ≡ ok body → r ≡ ok body
not_too_large-ok (ok b) body h = cc
not_too_large-ok (err e) body h = cc

parsed-ok : (r : Result String Value) (value : Value) → parsed r ≡ ok value → r ≡ ok value
parsed-ok (ok v) value h = cc
parsed-ok (err e) value h = cc

bad_request-ok :
    (to_string : SubstrateError → String) (r : Result SubstrateError (Unit {0}))
    → bad_request to_string r ≡ ok tt
    → r ≡ ok tt
bad_request-ok to_string (ok u) h = refl
bad_request-ok to_string (err e) h = cc

not-false : (b : Bool) → not b ≡ false → b ≡ true
not-false true h = refl
not-false false h = cc

module _ (name : AdmissionState → String) (header_text : String → Bool)
    (from_slice : Bytes → Result String Value) (to_vec : Value → Option Bytes)
    (to_string : SubstrateError → String) where
  -- What was checked of a request to chat before the backend is asked.
  pub record Forwarded (config : GatewayConfig) (schema : RequestPromptSchema)
      (authorization : Option String) (status : AdmissionStatus)
      (to_bytes : ℕ → Result String Bytes) (asked : BackendRequest) : Type 0 where
    pub authorized : (key : String) → config.api_key ≡ some key → bearer authorization ≡ some key
    pub approved : is_approved status.state ≡ true
    pub body : Bytes
    pub value : Value
    pub read : to_bytes config.max_body_bytes ≡ ok body
    pub parsed : from_slice body ≡ ok value
    pub permitted : RequestPasses schema to_vec value
    pub same_body : asked.body ≡ some body
    pub same_url : asked.url ≡ backend_path config "/v1/chat/completions"
    pub backend_key : asked.authorization ≡ backend_headers config header_text

  module _ (config : GatewayConfig) (schema : RequestPromptSchema) (authorization : Option String)
      (status : AdmissionStatus) (to_bytes : ℕ → Result String Bytes) where
    -- The backend is asked only where the client sent the key of the gateway, if there is one, the
    -- status approves, and the body is JSON that `validate_prompt_request` accepts; the backend gets
    -- that body, with the headers that the gateway has for it.
    pub chat_request-Forwarded :
        (asked : BackendRequest)
        → chat_request name header_text from_slice to_vec to_string config schema authorization
            status to_bytes
          ≡ ok asked
        → Forwarded config schema authorization status to_bytes asked
    unfolding chat_request
    chat_request-Forwarded asked h =
        let (allowed, h1) = >>-ok (authorize config authorization) _ h in
        let (approved, h2) =
          guard-ok (not (is_approved status.state)) (admission_response name status) _ h1 in
        let (body, read, h3) = >>=-ok (not_too_large (to_bytes config.max_body_bytes)) _ h2 in
        let (value, parsed, h4) = >>=-ok (parsed (from_slice body)) _ h3 in
        let (permitted, h5) =
          >>-ok (bad_request to_string (validate_prompt_request schema to_vec value)) _ h4 in
        record {
          authorized = authorize-ok config authorization allowed;
          approved = not-false (is_approved status.state) approved;
          body = body;
          value = value;
          read = not_too_large-ok _ body read;
          parsed = parsed-ok _ value parsed;
          permitted =
              validate_prompt_request-RequestPasses schema to_vec value
                (bad_request-ok to_string _ permitted);
          same_body = ground (arith, h5);
          same_url = ground (arith, h5);
          backend_key = ground (arith, h5);
        }

not_err : {a : Bytes} {text : String} → ◌≡◌ {A = Result String Bytes} (ok a) (err text) → ⊥
not_err h = cc

-- The turn lets its chunk through. It was not late when it began; the wait for the chunk, of up to
-- 250 ms, comes after that.
abbrev pub Passes : Bytes → Turn → Type 0
Passes chunk turn =
    (turn.chunk ≡ bytes chunk)
    × (turn.is_late ≡ false)
    × (is_approved turn.before.state ≡ true)
    × (is_approved turn.after.state ≡ true)

-- A chunk of the backend reaches the client only in a turn of the loop that began before the
-- deadline, with an approving status both before the wait for the chunk and after it. The chunk
-- itself may come after the deadline, since the turn looks at it only before the wait.
pub stream_chunks-approved :
    (turns : List Turn) (chunk : Bytes)
    → In (ok chunk) (stream_chunks turns)
    → (turn : Turn) × In turn turns × Passes chunk turn
unfolding stream_chunks
stream_chunks-approved [] chunk i = elim i [ ]
stream_chunks-approved (turn ∷ turns) chunk i =
    gate turn.is_late (is_approved turn.before.state) refl refl i
      (stream_chunks-approved turns chunk)
  where
    passed :
        (c : Chunk) (still : Bool)
        → turn.chunk ≡ c
        → is_approved turn.after.state ≡ still
        → turn.is_late ≡ false
        → is_approved turn.before.state ≡ true
        → In (ok chunk) (turn_chunks c still (stream_chunks turns))
        → (In (ok chunk) (stream_chunks turns) → (t : Turn) × In t turns × Passes chunk t)
        → (t : Turn) × In t (turn ∷ turns) × Passes chunk t
    passed (bytes b) true e f late before (here same) rest =
        (turn, here refl, (e ∙ ap bytes (sym (ok_inj _ _ same)), late, before, f))
    passed (bytes b) true e f late before (there i) rest = let (t, j, k) = rest i in (t, there j, k)
    passed (bytes b) false e f late before i rest = elim i [ ]
    passed end_of_body still e f late before i rest = elim i [ ]
    passed waiting still e f late before i rest = let (t, j, k) = rest i in (t, there j, k)
    passed (broken text) still e f late before (here same) rest = absurd (not_err same)
    passed (broken text) still e f late before (there i) rest =
        let (t, j, k) = rest i in (t, there j, k)

    gate :
        (late approved : Bool)
        → turn.is_late ≡ late
        → is_approved turn.before.state ≡ approved
        → In (ok chunk) (
            if late || not approved
            then []
            else turn_chunks turn.chunk (is_approved turn.after.state) (stream_chunks turns))
        → (In (ok chunk) (stream_chunks turns) → (t : Turn) × In t turns × Passes chunk t)
        → (t : Turn) × In t (turn ∷ turns) × Passes chunk t
    gate true approved e f i rest = elim i [ ]
    gate false false e f i rest = elim i [ ]
    gate false true e f i rest =
        passed turn.chunk (is_approved turn.after.state) refl refl e f i rest
