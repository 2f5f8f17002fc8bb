-- ===== src/Stress/Accounts.antt =====
-- What the stress tool of internal/cmd/stress/main.go leaves behind, and what its payloads make of the
-- processor.
use otel_cardinality_process.Base.{
  ℕ, suc, ◌+◌, ◌≡◌, refl, List, [], ◌∷◌, ◌⊎◌, inl, inr, arith, length,
}
use otel_cardinality_process.External.{Pdata}
use otel_cardinality_process.Stress.{
  Draw, Event, sent, closed, Problem, export_error, Http, Tool, received, export, post, firehose,
  generate_mock_metrics,
}

abbrev pub requests : {R S : Type 0} → List (Event R S) → ℕ
requests [] = 0
requests (sent r ∷ es) = suc (requests es)
requests (closed s ∷ es) = requests es

abbrev pub closes : {R S : Type 0} → List (Event R S) → ℕ
closes [] = 0
closes (sent r ∷ es) = closes es
closes (closed s ∷ es) = suc (closes es)

-- The requests without a response.
abbrev pub unanswered : {E : Type 0} → List (Problem E) → ℕ
unanswered [] = 0
unanswered (export_error e ∷ ps) = suc (unanswered ps)
unanswered (p ∷ ps) = unanswered ps

module _ (pdata : Pdata) (Body : Type 0) (http : Http pdata Body) where
  -- Each tick ends in a response that is closed or in one entry of the log, and each request in a
  -- response that is closed or in an export error.
  record Settles (n : ℕ) (t u : Tool pdata Body http) : Type 0 where
    ticks : closes u.events + length u.problems ≡ closes t.events + length t.problems + n
    answers :
        requests u.events + (closes t.events + unanswered t.problems)
        ≡ requests t.events + (closes u.events + unanswered u.problems)

  received-Settles :
      (o : http.Err ⊎ http.Response) (req : http.Request) (t : Tool pdata Body http)
      → Settles 1 t (received pdata Body http o (record t { events = sent req ∷ t.events }))
  received-Settles (inl e) req t = record { ticks = omega arith; answers = omega arith }
  received-Settles (inr resp) req t = record { ticks = omega arith; answers = omega arith }

  export-Settles :
      (o : http.Err ⊎ http.Request) (t : Tool pdata Body http)
      → Settles 1 t (export pdata Body http o t)
  export-Settles (inl e) t = record { ticks = omega arith; answers = omega arith }
  export-Settles (inr req) t = received-Settles _ _ t

  post-Settles :
      (o : http.Err ⊎ http.Bytes) (t : Tool pdata Body http)
      → Settles 1 t (post pdata Body http o t)
  post-Settles (inl e) t = record { ticks = omega arith; answers = omega arith }
  post-Settles (inr buf) t = export-Settles _ t

  -- Whatever the marshaler, the client and the server answer: each tick of the stress tool ends in one
  -- response that is closed or in one entry of the log, so that no error ends the loop, and each request
  -- in a response that is closed or in an export error.
  pub firehose_settles :
      (ds : List Draw) (t : Tool pdata Body http)
      → (closes (firehose pdata Body http ds t).events
            + length (firehose pdata Body http ds t).problems
          ≡ closes t.events + length t.problems + length ds)
        × (requests (firehose pdata Body http ds t).events
              + (closes t.events + unanswered t.problems)
            ≡ requests t.events
              + (closes (firehose pdata Body http ds t).events
                  + unanswered (firehose pdata Body http ds t).problems))
  unfolding firehose
  firehose_settles [] t = (omega arith, refl)
  firehose_settles (d ∷ ds) t =
      let body = http.marshal_metrics (generate_mock_metrics pdata Body d) in
      let one = post-Settles body t in
      let (ticks, answers) = firehose_settles ds (post pdata Body http body t) in
      (omega (arith, one.ticks, ticks), omega (arith, one.answers, answers))
