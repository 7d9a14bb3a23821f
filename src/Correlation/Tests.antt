-- ===== src/Correlation/Tests.antt =====
-- Runs of Correlation at concrete inputs.
use student_success_intellig.Prelude.{◌≡◌, refl, ◌⊎◌, Bool, true, false, none, some, map}
use student_success_intellig.Correlation.Types.{
  Mode, AttributionContext, Request, content, Response,
}
use student_success_intellig.Correlation.Middleware.{Ids, dispatch}
use student_success_intellig.Correlation.Lineage.{IsAnswered, dispatch_exact, correlation_kept}
use student_success_intellig.Governance.{ExecutionType}

abbrev sample : Request
sample = record {
  correlation_id = some "corr-1";
  causation_id = some "cause-1";
  config_version_id = some "cfg-9";
  execution_mode = some Mode.live;
  execution_type = some ExecutionType.replay;
  orchestration_cycle_id = none;
  origin_source = some "scheduler";
  origin_authority = some "system";
  historical_config_version_id = some "cfg-3";
  attribution_timestamp = none;
  path = "/api/v1/students";
  method = "GET";
}

-- a replay without the version that it replays
abbrev incomplete : Request
incomplete = record sample { historical_config_version_id = none }

abbrev ids : Ids
ids = record { correlation = "uuid-1"; first = "uuid-2"; second = "uuid-3" }

abbrev handler : AttributionContext → Response
handler ctx = record {
  status = 200;
  body = content "students";
  correlation_id = none;
  execution_mode = none;
  governance_scope = none;
  causation_id = none;
}

abbrev silent : AttributionContext → Response
silent ctx = record (handler ctx) { status = 204 }

dispatch_exact_example :
    let (response, ctx, _) = dispatch handler Mode.shadow ids sample in
    ((◌≡◌ {A = Bool} true true) × IsAnswered handler response ctx)
    ⊎ ((◌≡◌ {A = Bool} true false)
        × (response.status ≡ 400)
        × (ctx ≡ none)
        × (dispatch silent Mode.shadow ids sample ≡ dispatch handler Mode.shadow ids sample))
dispatch_exact_example = dispatch_exact handler Mode.shadow silent ids sample

correlation_kept_example :
    let (response, _, records) = dispatch handler Mode.shadow ids incomplete in
    (response.correlation_id ≡ some "corr-1")
    × (map (λ r. r.correlation_id) records ≡ map (λ _. "corr-1") records)
correlation_kept_example = correlation_kept handler Mode.shadow ids incomplete "corr-1" refl refl
