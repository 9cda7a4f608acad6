-- ===== src/Mgmt/Router.antt =====
-- src/mgmt/router.ts. Decoding of a percent-escaped segment is a parameter: `none` where it throws.
pub mod Guarded
use lambda_ciactions.Common.{
  ℕ, ◌-◌, Bool, true, false, ◌&&◌, Option, none, some, List, [], ◌∷◌, ◌++◌, map,
}
use lambda_ciactions.Common.Tests.{if◌then◌else◌, ◌==◌, leb}
use lambda_ciactions.Common.Lists.{filter, is_empty}
use lambda_ciactions.Common.Text.{Text, codes, text_eq}

pub data Method : Type 0 where
  get post patch put delete : Method

pub data RouteId : Type 0 where
  me auth_login auth_callback auth_logout list_installations list_repos patch_repo list_workflows
        rescan_repo get_flavor_map put_flavor_map rewrite_preview rewrite_pr list_runs list_refusals
        get_run get_run_logs list_flavors register_flavor preview_flavor delete_flavor
        revalidate_flavor health settings put_runner_labels relink_github_app rollback_github_app
        test_webhook report_catalog run_report export_report ask_report :
      RouteId

pub record RouteDef : Type 0 where
  pub id : RouteId
  pub method : Method
  pub template : Text
  pub auth_required : Bool

abbrev pub route_def : RouteId → Method → Text → Bool → RouteDef
route_def id method template auth_required = record {
  id = id;
  method = method;
  template = template;
  auth_required = auth_required;
}

unfoldable pub routes : List RouteDef
routes =
    route_def RouteId.auth_login Method.get (codes "/auth/login") false
    ∷ route_def RouteId.auth_callback Method.get (codes "/auth/callback") false
    ∷ route_def RouteId.auth_logout Method.post (codes "/auth/logout") false
    ∷ route_def RouteId.me Method.get (codes "/api/me") true
    ∷ route_def RouteId.list_installations Method.get (codes "/api/installations") true
    ∷ route_def RouteId.list_repos Method.get (codes "/api/repos") true
    ∷ route_def RouteId.patch_repo Method.patch (codes "/api/repos/{repoId}") true
    ∷ route_def RouteId.list_workflows Method.get (codes "/api/repos/{repoId}/workflows") true
    ∷ route_def RouteId.rescan_repo Method.post (codes "/api/repos/{repoId}/rescan") true
    ∷ route_def RouteId.get_flavor_map Method.get (codes "/api/repos/{repoId}/flavor-map") true
    ∷ route_def RouteId.put_flavor_map Method.put (codes "/api/repos/{repoId}/flavor-map") true
    ∷ route_def RouteId.rewrite_preview Method.get (codes "/api/repos/{repoId}/rewrite-pr") true
    ∷ route_def RouteId.rewrite_pr Method.post (codes "/api/repos/{repoId}/rewrite-pr") true
    ∷ route_def RouteId.list_runs Method.get (codes "/api/runs") true
    ∷ route_def RouteId.list_refusals Method.get (codes "/api/unclaimed") true
    ∷ route_def RouteId.get_run Method.get (codes "/api/runs/{repoId}/{runId}/{jobId}") true
    ∷ route_def RouteId.get_run_logs Method.get (codes "/api/runs/{repoId}/{runId}/{jobId}/logs")
        true
    ∷ route_def RouteId.list_flavors Method.get (codes "/api/flavors") true
    ∷ route_def RouteId.register_flavor Method.post (codes "/api/flavors") true
    ∷ route_def RouteId.delete_flavor Method.delete (codes "/api/flavors/{name}") true
    ∷ route_def RouteId.revalidate_flavor Method.post (codes "/api/flavors/{name}/revalidate") true
    ∷ route_def RouteId.preview_flavor Method.post (codes "/api/flavors/preview") true
    ∷ route_def RouteId.health Method.get (codes "/api/health") true
    ∷ route_def RouteId.settings Method.get (codes "/api/settings") true
    ∷ route_def RouteId.put_runner_labels Method.put (codes "/api/settings/runner-labels") true
    ∷ route_def RouteId.relink_github_app Method.post (codes "/api/settings/github-app/relink") true
    ∷ route_def RouteId.rollback_github_app Method.post (codes "/api/settings/github-app/rollback")
        true
    ∷ route_def RouteId.test_webhook Method.post (codes "/api/settings/webhook/test") true
    ∷ route_def RouteId.report_catalog Method.get (codes "/api/reports/catalog") true
    ∷ route_def RouteId.run_report Method.get (codes "/api/reports/run") true
    ∷ route_def RouteId.export_report Method.get (codes "/api/reports/export") true
    ∷ route_def RouteId.ask_report Method.post (codes "/api/reports/ask") true
    ∷ []

-- The text up to the next slash, with the parts behind it.
abbrev pub push_unit : ℕ → List Text → List Text
push_unit c [] = (c ∷ []) ∷ []
push_unit c (part ∷ parts) = (c ∷ part) ∷ parts

abbrev pub parts_of : Text → List Text
parts_of [] = [] ∷ []
parts_of (c ∷ s) = let rest = parts_of s in if c == b'/' then [] ∷ rest else push_unit c rest

-- The parts that are not empty; slashes at the end add none.
unfoldable pub split_path : Text → List Text
split_path p = filter (λ s. if is_empty s then false else true) (parts_of p)

-- What stands in front of a closing brace at the end.
abbrev pub before_brace : Text → Option Text
before_brace [] = none
before_brace (c ∷ s) =
    let rest = before_brace s in
    if is_empty s && c == b'}'
    then some []
    else elim rest [ none ↦ none | some name ↦ some (c ∷ name) ]

unfoldable pub param_name : Text → Option Text
param_name [] = none
param_name (c ∷ s) = if c == b'{' then before_brace s else none

pub record Param : Type 0 where
  pub name : Text
  pub value : Text

abbrev pub upper_unit : ℕ → ℕ
upper_unit c = if leb b'a' c && leb c b'z' then c - 32 else c

abbrev pub method_text : Method → Text
method_text get = codes "GET"
method_text post = codes "POST"
method_text patch = codes "PATCH"
method_text put = codes "PUT"
method_text delete = codes "DELETE"

pub data MatchResult : Type 0 where
  matched : RouteDef → List Param → MatchResult
  method_not_allowed : List Method → MatchResult
  not_found : MatchResult

module _ (decode : Text → Option Text) where
  -- A malformed escape keeps the segment.
  abbrev pub decoded : Text → Text
  decoded s = elim (decode s) [ none ↦ s | some value ↦ value ]

  -- The parameter that a segment gives, none for a literal one that agrees.
  abbrev pub match_segment : Text → Text → Option (List Param)
  match_segment t s = elim (param_name t) [
    | some name ↦
        if is_empty (decoded s) then none else some (record { name = name; value = decoded s } ∷ [])
    | none ↦ if text_eq t s then some [] else none
  ]

  abbrev pub join_params : Option (List Param) → Option (List Param) → Option (List Param)
  join_params (some (p ∷ ps)) (some rest) = some (p ∷ rest)
  join_params (some []) (some rest) = some rest
  join_params _ _ = none

  unfoldable pub match_segments : List Text → List Text → Option (List Param)
  unfolding param_name text_eq
  match_segments [] [] = some []
  match_segments (t ∷ ts) (s ∷ ss) = join_params (match_segment t s) (match_segments ts ss)
  match_segments _ _ = none

  unfoldable pub match_template : Text → List Text → Option (List Param)
  unfolding split_path match_segments
  match_template template segments = match_segments (split_path template) segments

  abbrev pub answer : List RouteDef → MatchResult
  answer [] = not_found
  answer (r ∷ rs) = method_not_allowed (map (λ x. x.method) (r ∷ rs))

  abbrev pub seen_with : RouteDef → Option (List Param) → List RouteDef → List RouteDef
  seen_with r none seen = seen
  seen_with r (some params) seen = seen ++ (r ∷ [])

  -- The answer at a route: the match, or that of the rest of the table.
  abbrev pub here : Text → RouteDef → MatchResult → Option (List Param) → MatchResult
  here method r rest none = rest
  here method r rest (some params) =
      if text_eq (method_text r.method) (map upper_unit method) then matched r params else rest

  -- The loop over the table; `seen` are the routes whose path matched.
  unfoldable pub match_from : Text → List Text → List RouteDef → List RouteDef → MatchResult
  unfolding match_template
  match_from method segments [] seen = answer seen
  match_from method segments (r ∷ rs) seen =
      let params = match_template r.template segments in
      let rest = match_from method segments rs (seen_with r params seen) in
      here method r rest params

  unfoldable pub match_route : Text → Text → MatchResult
  unfolding match_from routes
  match_route method path = match_from method (split_path path) routes []
