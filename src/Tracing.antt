-- ===== src/Tracing.antt =====
-- pkg/tracing/tracer.go: InitTracer, up to the exporter and the resource of OpenTelemetry, whose errors
-- are arguments, and the attributes of spans.
use Prim.Native.String.{slice}
use text.Mathlib.Text.{starts_with}
use event_driven_ns.Prelude.{ℕ, List, [], ◌∷◌, Option, none, some, String, len, if◌then◌else◌}
use event_driven_ns.Prelude.Decimal.{itoa}
use event_driven_ns.Domain.Error.{foreign, Result, ok, err}

-- `strings.TrimPrefix`.
unfoldable pub trim_prefix : String → String → String
trim_prefix s prefix = if starts_with s prefix then slice s (len prefix) (len s) else s

unfoldable pub clean_endpoint : String → String
unfolding trim_prefix
clean_endpoint endpoint = trim_prefix (trim_prefix endpoint "http://") "https://"

-- A provider of tracers, by what it is configured with.
pub record TracerProvider : Type 0 where
  pub endpoint : String
  pub service_name : String
  pub service_version : String

-- `exporter_error` is the answer of `otlptracehttp.New` at an endpoint.
unfoldable pub init_tracer :
    (String → Option String) → Option String → String → String → Result TracerProvider
unfolding clean_endpoint
init_tracer exporter_error resource_error service_name endpoint =
    elim (exporter_error (clean_endpoint endpoint)) [
      | some reason ↦ err (foreign reason)
      | none ↦ elim resource_error [
        | some reason ↦ err (foreign reason)
        | none ↦ ok (record {
          endpoint = clean_endpoint endpoint;
          service_name = service_name;
          service_version = "1.0.0";
        })
      ]
    ]

-- An attribute of a span, with the text of its value.
abbrev pub Attribute : Type 0
Attribute = String × String

unfoldable pub notification_attrs : String → String → String → List Attribute
notification_attrs id channel priority =
    ("notification.id", id)
    ∷ ("notification.channel", channel)
    ∷ ("notification.priority", priority)
    ∷ []

unfoldable pub batch_attrs : String → ℕ → List Attribute
unfolding itoa
batch_attrs batch_id count = ("batch.id", batch_id) ∷ ("batch.count", itoa count) ∷ []

-- `TraceIDFromContext` and `SpanIDFromContext`: an identifier that is not valid is the empty text.
unfoldable pub id_or_empty : Option String → String
id_or_empty none = ""
id_or_empty (some id) = id
