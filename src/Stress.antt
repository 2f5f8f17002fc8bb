-- ===== src/Stress.antt =====
-- The stress tool of internal/cmd/stress/main.go: its payload, and the loop over the ticks that posts
-- it. The marshaler and the HTTP client are parameters; a server answers by what it has seen.
pub mod Accounts
use otel_cardinality_process.Base.{ℕ, String, Bool, List, [], ◌∷◌, ◌⊎◌, inl, inr, if◌then◌else◌}
use otel_cardinality_process.External.{Pdata, Attrs}
use otel_cardinality_process.Metrics.{ResourceMetrics, gauge, empty}

-- What a payload is drawn from: whether `rand.Float32()` exceeds 0.2, and the new UUID.
pub record Draw : Type 0 where
  pub exceeds : Bool
  pub uuid : String

-- What happens on the network.
pub data Event (Request Response : Type 0) : Type 0 where
  sent : Request → Event Request Response
  closed : Response → Event Request Response

pub data Problem (Err : Type 0) : Type 0 where
  marshal_error new_request_error export_error : Err → Problem Err

pub record Http (pdata : Pdata) (Body : Type 0) : Type 1 where
  pub Bytes : Type 0
  pub Request : Type 0
  pub Response : Type 0
  pub Err : Type 0
  pub marshal_metrics : List (ResourceMetrics pdata.Value pdata.Exemplar Body) → Err ⊎ Bytes
  -- `http.NewRequest` with a method and a URL.
  pub new_request : String → String → Bytes → Err ⊎ Request
  pub set_header : String → String → Request → Request
  -- What `client.Do` returns, by the events so far, the last one first.
  pub answer : List (Event Request Response) → Request → Err ⊎ Response

module _ (pdata : Pdata) (Body : Type 0) where
  open pdata use {Value, str_value, put, Exemplar}

  abbrev pub Payload : Type 0
  Payload = List (ResourceMetrics Value Exemplar Body)

  abbrev pub labels : Draw → Attrs Value
  labels d =
      let safe : Attrs Value =
        put "status_code" (str_value "200") (put "region" (str_value "us-east") []) in
      if d.exceeds then put "session_id" (str_value d.uuid) safe else safe

  unfoldable pub generate_mock_metrics : Draw → Payload
  generate_mock_metrics d =
      record {
        scope_metrics =
            record {
              metrics =
                  record {
                    name = "api.request.duration";
                    points = gauge (
                        record {
                          attributes = labels d;
                          start_timestamp = 0;
                          timestamp = 0;
                          value = empty;
                          exemplars = [];
                        }
                        ∷ []);
                  }
                  ∷ [];
            }
            ∷ [];
      }
      ∷ []

  module _ (http : Http pdata Body) where
    open http use {Bytes, Request, Response, Err, marshal_metrics, new_request, set_header, answer}

    -- The network and the log of the tool, the last entry first.
    pub record Tool : Type 0 where
      pub events : List (Event Request Response)
      pub problems : List (Problem Err)

    -- Behind `client.Do`.
    abbrev pub received : Err ⊎ Response → Tool → Tool
    received (inl e) t = record t { problems = export_error e ∷ t.problems }
    received (inr resp) t = record t { events = closed resp ∷ t.events }

    -- Behind `http.NewRequest`.
    abbrev pub export : Err ⊎ Request → Tool → Tool
    export (inl e) t = record t { problems = new_request_error e ∷ t.problems }
    export (inr req) t =
        let ready : Request = set_header "Content-Type" "application/x-protobuf" req in
        received (answer t.events ready) (record t { events = sent ready ∷ t.events })

    -- Behind `marshaler.MarshalMetrics`.
    abbrev pub post : Err ⊎ Bytes → Tool → Tool
    post (inl e) t = record t { problems = marshal_error e ∷ t.problems }
    post (inr buf) t = export (new_request "POST" "http://localhost:4318/v1/metrics" buf) t

    -- The loop over the ticks, with the draws of each.
    unfoldable pub firehose : List Draw → Tool → Tool
    unfolding generate_mock_metrics
    firehose [] t = t
    firehose (d ∷ ds) t = firehose ds (post (marshal_metrics (generate_mock_metrics d)) t)
