-- ===== src/Ingest/JobMatch/Unique.antt =====
-- A match is never a guess.
use lambda_ciactions.Common.{
  ◌≡◌, refl, true, ◌&&◌, arith, sym, ◌∙◌, inl, inr, Option, some, List, [], ◌∷◌, map,
}
use lambda_ciactions.Common.Tests.{and_intro, and_parts}
use lambda_ciactions.Common.Lists.{
  In, filter, In-append, In-append_left, In-append_right, In-map, In-of_map, In-filter, filter-In,
}
use lambda_ciactions.Common.Text.{Text}
use lambda_ciactions.Ingest.JobMatch.{
  ParsedJob, WorkflowAnalysisRecord, JobMatch, job_name_matches, is_parsed, is_named, match_of,
  jobs_of, matches_in, only, match_job_analysis,
}

module _ {Compat : Type 0} where
  -- A job of a parsed analysis that goes by the names of the webhook.
  abbrev pub IsCandidate :
      List (WorkflowAnalysisRecord Compat)
      → Option Text
      → Text
      → WorkflowAnalysisRecord Compat
      → ParsedJob
      → Type 0
  IsCandidate analyses workflow_name job_name a job =
      In a analyses
      × (is_parsed a ≡ true)
      × (is_named workflow_name a ≡ true)
      × In job (jobs_of a)
      × (job_name_matches job job_name ≡ true)

  matches_in-In :
      (ws : List (WorkflowAnalysisRecord Compat)) (job_name : Text) (m : JobMatch Compat)
      → In m (matches_in ws job_name)
      → (a : WorkflowAnalysisRecord Compat) × (job : ParsedJob) × In a ws
        × In job (jobs_of a)
        × (job_name_matches job job_name ≡ true)
        × (m ≡ match_of a job)
  unfolding matches_in
  matches_in-In [] job_name m i = absurd i
  matches_in-In (a ∷ ws) job_name m i =
      elim (In-append m
        (map (match_of a) (filter (λ job. job_name_matches job job_name) (jobs_of a))) _ i) [
          | inl here ↦
              let (job, j, e) = In-of_map (match_of a) m _ here in
              let (k, hit) = In-filter (λ job. job_name_matches job job_name) job (jobs_of a) j in
              (a, job, inl refl, k, hit, e)
          | inr later ↦
              let (b, job, j, k, hit, e) = matches_in-In ws job_name m later in
              (b, job, inr j, k, hit, e)
        ]

  In-matches_in :
      (ws : List (WorkflowAnalysisRecord Compat)) (job_name : Text)
      (a : WorkflowAnalysisRecord Compat) (job : ParsedJob)
      → In a ws
      → In job (jobs_of a)
      → job_name_matches job job_name ≡ true
      → In (match_of a job) (matches_in ws job_name)
  unfolding matches_in
  In-matches_in [] job_name a job i j hit = absurd i
  In-matches_in (b ∷ ws) job_name a job (inl e) j hit =
      In-append_left (match_of a job)
        (map (match_of b) (filter (λ job. job_name_matches job job_name) (jobs_of b)))
        (matches_in ws job_name)
        (rw e (
          In-map (match_of b) job _
            (filter-In (λ job. job_name_matches job job_name) job (jobs_of b) (rw e at j) hit)))
  In-matches_in (b ∷ ws) job_name a job (inr i) j hit =
      In-append_right (match_of a job)
        (map (match_of b) (filter (λ job. job_name_matches job job_name) (jobs_of b)))
        (matches_in ws job_name) (In-matches_in ws job_name a job i j hit)

  only_lem :
      (ms : List (JobMatch Compat)) (m : JobMatch Compat)
      → only ms ≡ some m
      → In m ms × ((n : JobMatch Compat) → In n ms → n ≡ m)
  only_lem [] m h = ground arith
  only_lem (x ∷ []) m h =
      let e : x ≡ m = ground arith in
      (inl (sym e), λ n i. elim i [ inl same ↦ same ∙ e | inr nothing ↦ absurd nothing ])
  only_lem (x ∷ y ∷ rest) m h = ground arith

  -- A match is a candidate among the stored analyses, and every candidate is this match.
  pub match_job_analysis_lem :
      (analyses : List (WorkflowAnalysisRecord Compat)) (workflow_name : Option Text)
      (job_name : Text) (m : JobMatch Compat)
      → match_job_analysis analyses workflow_name job_name ≡ some m
      → IsCandidate analyses workflow_name job_name m.workflow m.job
        × ((a : WorkflowAnalysisRecord Compat) (job : ParsedJob)
            → IsCandidate analyses workflow_name job_name a job
            → match_of a job ≡ m)
  unfolding match_job_analysis
  match_job_analysis_lem analyses workflow_name job_name m h =
      let test = λ (a : WorkflowAnalysisRecord Compat). is_parsed a && is_named workflow_name a in
      let (inside, alone) = only_lem (matches_in (filter test analyses) job_name) m h in
      let (a, job, i, j, hit, e) = matches_in-In (filter test analyses) job_name m inside in
      let (k, ok) = In-filter test a analyses i in
      let (p, q) = and_parts (is_parsed a) (is_named workflow_name a) ok in
      let found : IsCandidate analyses workflow_name job_name a job = (k, p, q, j, hit) in
      (
        rw e found,
        λ b other (k', p', q', j', hit'). alone (match_of b other) (
            In-matches_in (filter test analyses) job_name b other
              (filter-In test b analyses k' (and_intro p' q')) j' hit'),
      )
