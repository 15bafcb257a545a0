-- ===== src/Provider/Tests.antt =====
-- The theorems on the provider requests at concrete responses.
use gossip_memo.Base.{
  ℕ, zero, suc, ◌*◌, ◌^◌, ◌≤◌, ◌≡◌, ◌⊎◌, ◌↔◌, min, refl, Bool, true, false, Option, none, some,
  List, [], ◌∷◌, ◌++◌, arith, ◌==◌,
}
use gossip_memo.Base.Results.{Result, ok, err, ◌>>=◌}
use gossip_memo.Provider.{
  Text, LlmError, over_budget, RetryPolicy, delay, Response, transport_error, response, Event,
  acquire, release, post, publish, sleep, conclude, retries, complete, structured, Content, parts,
  plain, mapping, other, message_content, is_blank, retryable_status,
}
use gossip_memo.Provider.Delay.{asked_for, delay_bounds}
use gossip_memo.Provider.Attempts.{
  AllRetried, retry_events, complete_attempts, is_malformed, AllMalformed, malformed_events,
  output_of, structured_attempts,
}
use gossip_memo.Provider.Output.{HasText, message_content_exact}

abbrev policy : RetryPolicy
policy = record { attempts = 2; base_seconds = 1000; max_seconds = 30000 }

abbrev full_jitter : ℕ → ℕ
full_jitter x = x

abbrev jitters : ℕ → ℕ → ℕ
jitters attempt = full_jitter

delay_bounds_example :
    let d = delay full_jitter policy 1 (some 4500) in
    (d ≤ 30000) × (min 30000 (1000 * 2 ^ 1) ≤ 2 * d) × (asked_for policy (some 4500) ≤ d)
delay_bounds_example =
    delay_bounds full_jitter policy 1 (some 4500) (λ x. omega arith) (λ x. omega arith)

-- A transport error, then a 503, then an answer.
abbrev flaky : ℕ → Response Text
flaky zero = transport_error
flaky (suc zero) = response 503 (some 4500) []
flaky _ = response 200 none (104 ∷ 105 ∷ [])

abbrev read_body : Text → Result LlmError Text
read_body t = ok t

flaky_completes : complete jitters policy flaky true read_body ≡ (
  ok (104 ∷ 105 ∷ []),
  acquire
      ∷ post
      ∷ publish 1000
      ∷ sleep 1000
      ∷ post
      ∷ publish 4500
      ∷ sleep 4500
      ∷ post
      ∷ release
      ∷ [],
)
unfolding complete delay retryable_status
flaky_completes = refl

complete_attempts_example :
    (complete jitters policy flaky false read_body ≡ (err over_budget, []))
    × ((k : ℕ) × (k ≤ 2)
        × AllRetried jitters policy flaky 0 k
        × ((k ≡ 2) ⊎ (retries (flaky k) ≡ false))
        × (complete jitters policy flaky true read_body ≡ (
          (conclude (flaky k) >>= read_body),
          acquire ∷ (retry_events jitters policy flaky 0 k ++ post ∷ []) ++ release ∷ [],
        )))
complete_attempts_example = complete_attempts jitters policy flaky read_body

abbrev answers : ℕ → Result LlmError Text × List Event
answers a = (ok (a ∷ []), acquire ∷ post ∷ release ∷ [])

-- Only the answer of attempt 1 parses.
abbrev parse_one : Text → Option ℕ
parse_one (suc zero ∷ []) = some 1
parse_one _ = none

structured_attempts_example :
    (k : ℕ) × (k ≤ 2)
    × AllMalformed jitters policy answers parse_one 0 k
    × ((k ≡ 2) ⊎ (is_malformed jitters policy answers parse_one k ≡ false))
    × (structured jitters policy answers parse_one ≡ (
      output_of jitters policy answers parse_one (answers k).0,
      malformed_events jitters policy answers parse_one 0 k ++ (answers k).1,
    ))
structured_attempts_example = structured_attempts jitters policy answers parse_one

abbrev is_space : ℕ → Bool
is_space c = c == 32

abbrev two_parts : Content
two_parts = parts (plain (104 ∷ []) ∷ other ∷ mapping (some (105 ∷ [])) ∷ mapping none ∷ [])

message_content_exact_example :
    (message_content is_space two_parts ≡ ok (104 ∷ 105 ∷ []))
    ↔ (HasText two_parts (104 ∷ 105 ∷ []) × (is_blank is_space (104 ∷ 105 ∷ []) ≡ false))
message_content_exact_example = message_content_exact is_space two_parts (104 ∷ 105 ∷ [])
