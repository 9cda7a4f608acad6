-- ===== src/Ingest/JobMatch.antt =====
-- src/ingest/job-match.ts: the stored analysis of a job, by the names that a webhook carries.
pub mod Unique
use lambda_ciactions.Common.{
  Bool, true, false, ◌&&◌, ◌||◌, Option, none, some, List, [], ◌∷◌, ◌++◌, map,
}
use lambda_ciactions.Common.Tests.{if◌then◌else◌, ◌==◌}
use lambda_ciactions.Common.Lists.{any, filter}
use lambda_ciactions.Common.Text.{Text, codes, text_eq, starts_with, is_nonempty}

-- The fields of a parsed job that are read; of `step_signals`, `needs_docker`.
pub record ParsedJob : Type 0 where
  pub id : Text
  pub name : Option Text
  pub needs_docker : Bool
  pub runner_group : Option Text

-- An analysis with the verdict of each job; what a verdict is plays no part.
pub record WorkflowAnalysisRecord (Compat : Type 0) : Type 0 where
  pub path : Text
  pub name : Text
  pub parsed : Option (List ParsedJob)
  pub compat : Text → Option Compat

pub record JobMatch (Compat : Type 0) : Type 0 where
  pub workflow : WorkflowAnalysisRecord Compat
  pub job : ParsedJob
  pub compat : Option Compat

-- `path.split('/').pop()`
unfoldable pub basename : Text → Text
basename [] = []
basename (c ∷ s) =
    let base = basename s in if any (λ d. d == b'/') s then base else if c == b'/' then s else c ∷ s

-- `job.name ?? job.id`
abbrev pub rendered_base : ParsedJob → Text
rendered_base job = elim job.name [ none ↦ job.id | some name ↦ name ]

unfoldable pub job_name_matches : ParsedJob → Text → Bool
unfolding text_eq starts_with
job_name_matches job rendered =
    text_eq rendered (rendered_base job) || starts_with rendered (rendered_base job ++ codes " (")

module _ {Compat : Type 0} where
  unfoldable pub workflow_name_matches : WorkflowAnalysisRecord Compat → Text → Bool
  unfolding text_eq basename
  workflow_name_matches a rendered =
      text_eq a.name rendered || text_eq a.path rendered || text_eq (basename a.path) rendered

  abbrev pub is_parsed : WorkflowAnalysisRecord Compat → Bool
  is_parsed a = elim a.parsed [ none ↦ false | some jobs ↦ true ]

  -- `params.workflowName ? … : true`
  unfoldable pub is_named : Option Text → WorkflowAnalysisRecord Compat → Bool
  unfolding workflow_name_matches
  is_named none a = true
  is_named (some name) a = if is_nonempty name then workflow_name_matches a name else true

  abbrev pub match_of : WorkflowAnalysisRecord Compat → ParsedJob → JobMatch Compat
  match_of a job = record { workflow = a; job = job; compat = a.compat job.id }

  -- The jobs of an analysis, none where it has no parse.
  abbrev pub jobs_of : WorkflowAnalysisRecord Compat → List ParsedJob
  jobs_of a = elim a.parsed [ none ↦ [] | some jobs ↦ jobs ]

  -- The two loops over the candidates.
  unfoldable pub matches_in : List (WorkflowAnalysisRecord Compat) → Text → List (JobMatch Compat)
  unfolding job_name_matches
  matches_in [] job_name = []
  matches_in (a ∷ rest) job_name =
      map (match_of a) (filter (λ job. job_name_matches job job_name) (jobs_of a))
      ++ matches_in rest job_name

  abbrev pub only : List (JobMatch Compat) → Option (JobMatch Compat)
  only [] = none
  only (m ∷ []) = some m
  only (m ∷ n ∷ rest) = none

  unfoldable pub match_job_analysis :
      List (WorkflowAnalysisRecord Compat) → Option Text → Text → Option (JobMatch Compat)
  unfolding matches_in is_named
  match_job_analysis analyses workflow_name job_name =
      only (matches_in (filter (λ a. is_parsed a && is_named workflow_name a) analyses) job_name)
