-- ===== src/Witnesses/Router.antt =====
-- The route table at concrete requests.
use lambda_ciactions.Common.{◌≡◌, refl, true, Option, none, some, List, [], ◌∷◌}
use lambda_ciactions.Common.Tests.{if◌then◌else◌}
use lambda_ciactions.Common.Text.{Text, codes, text_eq, text_ops}
use lambda_ciactions.Mgmt.Router.{
  Method, RouteId, RouteDef, route_def, routes, Param, matched, method_not_allowed, not_found,
  split_path, param_name, match_segments, match_template, match_from, match_route,
}
use lambda_ciactions.Mgmt.Router.Guarded.{match_route-guarded}

abbrev list_runs : RouteDef
list_runs = route_def RouteId.list_runs Method.get (codes "/api/runs") true

-- Every segment is its own decoding but a lone percent sign.
abbrev plain : Text → Option Text
plain s = if text_eq s (codes "%") then none else some s

abbrev logs_params : List Param
logs_params =
    record { name = codes "repoId"; value = codes "7" }
    ∷ record { name = codes "runId"; value = codes "%" }
    ∷ record { name = codes "jobId"; value = codes "3" }
    ∷ []

route_tests :
    (match_route plain (codes "get") (codes "/api/runs/7/%/3/logs/")
      ≡ matched
          (route_def RouteId.get_run_logs Method.get
            (codes "/api/runs/{repoId}/{runId}/{jobId}/logs")
            true)
          logs_params)
    × (match_route plain (codes "DELETE") (codes "/api/flavors/preview")
        ≡ matched
            (route_def RouteId.delete_flavor Method.delete (codes "/api/flavors/{name}") true)
            (record { name = codes "name"; value = codes "preview" } ∷ []))
    × (match_route plain (codes "GET") (codes "/api/flavors/preview")
        ≡ method_not_allowed (Method.delete ∷ Method.post ∷ []))
    × (match_route plain (codes "GET") (codes "/api") ≡ not_found)
unfolding text_ops routes split_path param_name match_segments match_template match_from match_route
route_tests = (refl, refl, refl, refl)

runs-path : split_path (codes "/api/runs") ≡ codes "api" ∷ codes "runs" ∷ []
unfolding split_path
runs-path = refl

runs-matched : match_route plain (codes "GET") (codes "/api/runs") ≡ matched list_runs []
unfolding text_ops routes split_path param_name match_segments match_template match_from match_route
runs-matched = refl

match_route-guarded_example : list_runs.auth_required ≡ true
match_route-guarded_example =
    match_route-guarded plain (codes "GET") (codes "/api/runs") (codes "runs" ∷ []) list_runs []
      runs-path runs-matched
