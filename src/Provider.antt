-- ===== src/Provider.antt =====
-- One request to the provider: `RetryPolicy`, `_message_content` and `structured` of
-- src/gossipmemo/transport.py, and `complete` of src/gossipmemo/llm.py. What is seen from outside
-- is the list of events, in order. Times are natural numbers of one fixed, small unit.
mod Delay
mod Attempts
mod Output
mod Tests
use gossip_memo.Base.{
  ℕ, zero, suc, ◌+◌, ◌*◌, ◌^◌, min, max, Bool, true, false, Option, none, some, List, [], ◌∷◌, ◌++◌,
  leb, ◌==◌, all, ◌&&◌, ◌||◌, if◌then◌else◌,
}
use gossip_memo.Base.Results.{Result, ok, err, ◌>>=◌}

abbrev pub Text : Type 0
Text = List ℕ

-- The subclasses of LLMError, and the ValueError of the budget check.
pub data LlmError : Type 0 where
  over_budget transport_failed invalid_completion empty_message no_text : LlmError
  http_failed : ℕ → LlmError
  invalid_output : LlmError

pub record RetryPolicy : Type 0 where
  pub attempts : ℕ
  pub base_seconds : ℕ
  pub max_seconds : ℕ

-- `random.uniform(exponential / 2, exponential)` is the number that `jitter` gives, below a jitter for
-- each attempt, so that each retry has a draw of its own.
unfoldable pub delay : (ℕ → ℕ) → RetryPolicy → ℕ → Option ℕ → ℕ
delay jitter policy attempt retry_after =
    let exponential = min policy.max_seconds (policy.base_seconds * 2 ^ attempt) in
    elim retry_after [
      | none ↦ jitter exponential
      | some r ↦ max (jitter exponential) (min r policy.max_seconds)
    ]

-- `_retryable_status`
unfoldable pub retryable_status : ℕ → Bool
retryable_status status = (status == 408 || status == 429) || (leb 500 status && leb status 599)

-- One `client.post`: a transport error, or a response with its status, its Retry-After header as
-- `_retry_after_seconds` reads it, and its body.
pub data Response {ℓ} (Body : Type ℓ) : Type ℓ where
  transport_error : Response Body
  response : ℕ → Option ℕ → Body → Response Body

pub data Event : Type 0 where
  acquire release post : Event
  publish sleep : ℕ → Event

-- The message content of a completion, and its parts: a text, a mapping with its "text" if that is
-- a text, or anything else.
pub data Part : Type 0 where
  plain : Text → Part
  mapping : Option Text → Part
  other : Part

pub data Content : Type 0 where
  text : Text → Content
  parts : List Part → Content
  missing : Content

abbrev pub part_text : Part → Text
part_text (plain t) = t
part_text (mapping (some t)) = t
part_text (mapping none) = []
part_text other = []

pub parts_text : List Part → Text
parts_text [] = []
parts_text (p ∷ ps) = part_text p ++ parts_text ps

module _ (is_space : ℕ → Bool) where
  -- `not text.strip()`
  abbrev pub is_blank : Text → Bool
  is_blank t = all is_space t

  -- `_message_content`
  unfoldable pub message_content : Content → Result LlmError Text
  unfolding parts_text
  message_content (text t) = if is_blank t then err empty_message else ok t
  message_content (parts ps) = if is_blank (parts_text ps) then err no_text else ok (parts_text ps)
  message_content missing = err no_text

-- `response.is_error` of httpx: a 4xx or 5xx status
abbrev pub is_error : ℕ → Bool
is_error status = leb 400 status && leb status 599

-- The outcome of a response that is not retried.
abbrev pub conclude {ℓ} : {Body : Type ℓ} → Response Body → Result LlmError Body
conclude transport_error = err transport_failed
conclude (response status _ body) = if is_error status then err (http_failed status) else ok body

-- Is a response retried while there are attempts left?
abbrev pub retries {ℓ} : {Body : Type ℓ} → Response Body → Bool
retries transport_error = true
retries (response status _ _) = is_error status && retryable_status status

abbrev pub retry_after_of {ℓ} : {Body : Type ℓ} → Response Body → Option ℕ
retry_after_of transport_error = none
retry_after_of (response _ r _) = r

module _ {ℓ} {Body : Type ℓ} (jitter : ℕ → ℕ → ℕ) (policy : RetryPolicy)
    (posted : ℕ → Response Body) where
  -- The `while True` of `complete`. `left` is `max_retries - attempt`, so that it is 0 just if
  -- `attempt >= max_retries`, and each round takes one off it.
  pub attempts_from : ℕ → ℕ → Result LlmError Body × List Event
  attempts_from zero attempt = (conclude (posted attempt), post ∷ [])
  attempts_from (suc left) attempt =
      let d = delay (jitter attempt) policy attempt (retry_after_of (posted attempt)) in
      let rest = attempts_from left (attempt + 1) in
      if retries (posted attempt)
      then (rest.0, post ∷ publish d ∷ sleep d ∷ rest.1)
      else (conclude (posted attempt), post ∷ [])

  -- An error of the client that is not a TransportError is not caught by the source, and left out.
  -- `complete`: the budget check, the gate around the attempts, and then the reading of the body,
  -- which `read` does (the JSON, its validation, and `message_content`).
  unfoldable pub complete :
      (fits : Bool) (read : Body → Result LlmError Text) → Result LlmError Text × List Event
  unfolding attempts_from
  complete fits read =
      if fits
      then (let (r, events) = attempts_from policy.attempts 0 in
          ((r >>= read), acquire ∷ events ++ release ∷ []))
      else (err over_budget, [])

-- `return content, _parse_model_output(content, result_type)`
abbrev pub parse_output {ℓ} : {A : Type ℓ} → Text → Option A → Result LlmError (Text × A)
parse_output content none = err invalid_output
parse_output content (some a) = ok (content, a)

-- `structured`: a completion for each attempt, of which `parse` makes a result or raises an
-- LLMOutputError; no other error is retried. `left` is `policy.attempts - attempt`.
module _ {ℓ} {A : Type ℓ} (jitter : ℕ → ℕ → ℕ) (policy : RetryPolicy)
    (completed : ℕ → Result LlmError Text × List Event) (parse : Text → Option A) where
  pub structured_from : ℕ → ℕ → Result LlmError (Text × A) × List Event
  structured_from zero attempt = elim ((completed attempt).0) [
    | err e ↦ (err e, (completed attempt).1)
    | ok content ↦ (parse_output content (parse content), (completed attempt).1)
  ]
  structured_from (suc left) attempt =
      let d = delay (jitter attempt) policy attempt none in
      let rest = structured_from left (attempt + 1) in
      elim ((completed attempt).0) [
        | err e ↦ (err e, (completed attempt).1)
        | ok content ↦ elim (parse content) [
          | some a ↦ (ok (content, a), (completed attempt).1)
          | none ↦ (rest.0, (completed attempt).1 ++ sleep d ∷ rest.1)
        ]
      ]

  unfoldable pub structured : Result LlmError (Text × A) × List Event
  unfolding structured_from
  structured = structured_from policy.attempts 0
