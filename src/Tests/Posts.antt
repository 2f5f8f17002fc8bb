-- ===== src/Tests/Posts.antt =====
-- Three ticks of the stress tool, against a server that refuses the second request.
use otel_cardinality_process.Base.{
  ℕ, ◌+◌, ◌≡◌, true, false, List, [], ◌∷◌, ◌⊎◌, inl, inr, length, ◌==◌, if◌then◌else◌,
}
use otel_cardinality_process.Stress.{Draw, Event, Http, Tool, firehose}
use otel_cardinality_process.Stress.Accounts.{requests, closes, unanswered, firehose_settles}
use otel_cardinality_process.Tests.World.{containers}

abbrev answer_but_one : List (Event ℕ ℕ) → ℕ → ℕ ⊎ ℕ
answer_but_one es req = if length es == 2 then inl 503 else inr req

abbrev flaky : Http containers ℕ
flaky = record {
  Bytes = ℕ;
  Request = ℕ;
  Response = ℕ;
  Err = ℕ;
  marshal_metrics = λ m. inr (length m);
  new_request = λ method url b. inr b;
  set_header = λ k v r. r;
  answer = answer_but_one;
}

abbrev three_draws : List Draw
three_draws =
    record { exceeds = true; uuid = "a" }
    ∷ record { exceeds = false; uuid = "b" }
    ∷ record { exceeds = true; uuid = "c" }
    ∷ []

abbrev idle_tool : Tool containers ℕ flaky
idle_tool = record { events = []; problems = [] }

abbrev ran : Tool containers ℕ flaky
ran = firehose containers ℕ flaky three_draws idle_tool

firehose_settles_example :
    (closes ran.events + length ran.problems ≡ 3)
    × (requests ran.events + 0 ≡ closes ran.events + unanswered ran.problems)
unfolding firehose
firehose_settles_example = firehose_settles containers ℕ flaky three_draws idle_tool
