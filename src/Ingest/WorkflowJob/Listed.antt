-- ===== src/Ingest/WorkflowJob/Listed.antt =====
-- What the gates of `handleWorkflowJob` ask of the labels and of the analyses, without their code.
use lambda_ciactions.Common.{
  ◌≡◌, refl, sym, ap, subst, ◌∙◌, ◌↔◌, ◌⊎◌, inl, inr, true, false, not, Option, none, some, List,
  map, arith,
}
use lambda_ciactions.Common.Tests.{if◌then◌else◌, Bool-cases, Option-cases}
use lambda_ciactions.Common.Lists.{
  In, any, filter, any-In, In-any, In-append, In-append_left, In-append_right, In-map, In-of_map,
  In-filter, filter-In,
}
use lambda_ciactions.Common.Text.{Text, normalize, normalize_all, is_nonempty}
use lambda_ciactions.Shared.FlavorCatalog.{is_custom_flavor_label}
use lambda_ciactions.Shared.FlavorStore.{
  CustomFlavorRecord, valid, is_routable_state, to_catalog_flavor, routable_custom_flavors,
}
use lambda_ciactions.Ingest.Adopt.{is_adopt, is_adopt_label, unreachable_runner_group}
use lambda_ciactions.Ingest.Adopt.Normal
use lambda_ciactions.Ingest.Adopt.Claim.{IsAllowlisted, IsClaimable}
use lambda_ciactions.Ingest.Filter.{WorkflowJobEvent}
use lambda_ciactions.Ingest.JobMatch.{WorkflowAnalysisRecord, JobMatch, match_job_analysis}
use lambda_ciactions.Ingest.WorkflowJob.{
  Compat, Deps, claim_labels_with_custom, loaded_labels, skipped, passes, match_verdict, is_blocked,
  post_claim, mode_of,
}

-- The label of a validated flavor of the installation, where the job asks for a custom label and the
-- flavors could be read.
abbrev pub IsCustomLabel : Deps → WorkflowJobEvent → Text → Type 0
IsCustomLabel deps wf a =
    ((j : Text) × In j wf.labels × (is_custom_flavor_label (some j) ≡ true))
    × ((records : List CustomFlavorRecord) × (deps.list_custom_flavors ≡ some records)
        × ((r : CustomFlavorRecord) × In r records × (r.state ≡ some valid) × (a ≡ r.label)))

-- A label of the job that is, up to normal form, in the parameter or such a label.
abbrev pub IsListed : Deps → WorkflowJobEvent → List Text → Text → Type 0
IsListed deps wf listed l =
    (is_nonempty (normalize l) ≡ true)
    × ((a : Text) × (In a listed ⊎ IsCustomLabel deps wf a) × (normalize a ≡ normalize l))

-- Every label can be served, and one is listed or, in adopt mode, a standard hosted label.
abbrev pub IsTaken : Deps → WorkflowJobEvent → List Text → Type 0
IsTaken deps wf listed =
    ((l : Text) → In l wf.labels → Normal.IsServable l)
    × (((l : Text) × In l wf.labels × IsListed deps wf listed l)
        ⊎ ((is_adopt (mode_of deps.get_repo) ≡ true)
            × ((l : Text) × In l wf.labels × (is_adopt_label l ≡ true))))

-- The stored analysis that the job matches, if it does, names no other runner group and blocks it not.
abbrev pub IsUnblocked : Deps → WorkflowJobEvent → Type 0
IsUnblocked deps wf =
    (analyses : List (WorkflowAnalysisRecord Compat)) (m : JobMatch Compat)
    → deps.list_workflow_analyses ≡ some analyses
    → match_job_analysis analyses wf.workflow_name wf.job_name ≡ some m
    → (unreachable_runner_group m.job.runner_group ≡ false)
      × ((c : Compat) → m.compat ≡ some c → c.eligible ≡ true)

some-injective : {A : Type 0} {a b : A} → some a ≡ some b → a ≡ b
some-injective e = cc

module _ (deps : Deps) (wf : WorkflowJobEvent) (listed : List Text) where
  abbrev all_labels : List Text
  all_labels = (claim_labels_with_custom wf.labels listed deps.list_custom_flavors).labels

  loaded-In :
      (o : Option (List CustomFlavorRecord)) (a : Text)
      → In a (loaded_labels listed o).labels ↔ (
          In a listed
          ⊎ ((records : List CustomFlavorRecord) × (o ≡ some records)
              × ((r : CustomFlavorRecord) × In r records × (r.state ≡ some valid) × (a ≡ r.label))))
  unfolding routable_custom_flavors is_routable_state
  loaded-In none a = (λ m. inl m, λ h. elim h [ inl m ↦ m | inr (records, e, x) ↦ ground arith ])
  loaded-In (some rs) a =
      let routable = filter (λ r. is_routable_state r.state) rs in
      let flavors = map to_catalog_flavor routable in
      (
        λ m. elim (In-append a listed (map (λ f. f.label) flavors) m) [
          | inl old ↦ inl old
          | inr new ↦
              let (f, k, e) = In-of_map (λ x. x.label) a flavors new in
              let (r, i, g) = In-of_map to_catalog_flavor f routable k in
              let (n, v) = In-filter (λ x. is_routable_state x.state) r rs i in
              inr (rs, refl, (r, n, ground arith, e ∙ ap (λ x. x.label) g))
        ],
        λ h. elim h [
          | inl m ↦ In-append_left a listed _ m
          | inr (records, e, (r, n, v, same)) ↦
              let here : In r rs = subst (λ x. In r x) (sym (some-injective e)) n in
              let keep : is_routable_state r.state ≡ true = ap is_routable_state v in
              let k = In-map to_catalog_flavor r routable (filter-In _ r rs here keep) in
              In-append_right a listed _
                (rw same (In-map (λ x. x.label) (to_catalog_flavor r) flavors k))
        ],
      )

  asked_labels :
      any (λ l. is_custom_flavor_label (some l)) wf.labels ≡ true
      → claim_labels_with_custom wf.labels listed deps.list_custom_flavors
        ≡ loaded_labels listed deps.list_custom_flavors
  unfolding claim_labels_with_custom
  asked_labels e =
      ap
        (λ b.
          if b
          then loaded_labels listed deps.list_custom_flavors
          else record { labels = listed; read = skipped })
        e

  unasked_labels :
      any (λ l. is_custom_flavor_label (some l)) wf.labels ≡ false
      → claim_labels_with_custom wf.labels listed deps.list_custom_flavors
        ≡ record { labels = listed; read = skipped }
  unfolding claim_labels_with_custom
  unasked_labels e =
      ap
        (λ b.
          if b
          then loaded_labels listed deps.list_custom_flavors
          else record { labels = listed; read = skipped })
        e

  -- The list that the gate is given holds the listed labels and those of the custom flavors.
  all_labels-In : (a : Text) → In a all_labels ↔ (In a listed ⊎ IsCustomLabel deps wf a)
  unfolding claim_labels_with_custom
  all_labels-In a =
      let loaded = loaded-In deps.list_custom_flavors a in
      elim (Bool-cases (any (λ l. is_custom_flavor_label (some l)) wf.labels)) [
        | inl yes_asks ↦
            let job = In-any (λ l. is_custom_flavor_label (some l)) wf.labels yes_asks in
            let e : all_labels ≡ (loaded_labels listed deps.list_custom_flavors).labels =
              ap (λ c. c.labels) (asked_labels yes_asks) in
            (
              λ m. elim (loaded.0 (subst (λ x. In a x) e m)) [
                | inl old ↦ inl old
                | inr new ↦ inr (job, new)
              ],
              λ h.
                  subst (λ x. In a x) (sym e)
                    (loaded.1 (elim h [ inl old ↦ inl old | inr (j, new) ↦ inr new ])),
            )
        | inr not_asked ↦
            let e : all_labels ≡ listed = ap (λ c. c.labels) (unasked_labels not_asked) in
            (
              λ m. inl (subst (λ x. In a x) e m),
              λ h. elim h [
                | inl old ↦ subst (λ x. In a x) (sym e) old
                | inr ((j, i, c), new) ↦
                    let k = any-In (λ l. is_custom_flavor_label (some l)) j wf.labels i c in
                    ground arith
              ],
            )
      ]

  IsAllowlisted-iff : (l : Text) → IsAllowlisted all_labels l ↔ IsListed deps wf listed l
  IsAllowlisted-iff l = (
    λ (full, m).
        let (a, i, e, _) = Normal.In-normalize_all (normalize l) all_labels m in
        (full, (a, (all_labels-In a).0 i, e)),
    λ (full, (a, i, e)).
        let k : is_nonempty (normalize a) ≡ true = ap is_nonempty e ∙ full in
        (
          full,
          subst (λ x. In x (normalize_all all_labels)) e
              (Normal.normalize_all-In a all_labels ((all_labels-In a).1 i) k),
        ),
  )

  pub IsClaimable-IsTaken :
      IsClaimable wf.labels all_labels (mode_of deps.get_repo) ↔ IsTaken deps wf listed
  IsClaimable-IsTaken = (
    λ (servable, h). (
      servable,
      elim h [ inl (l, m, a) ↦ inl (l, m, (IsAllowlisted-iff l).0 a) | inr adopts ↦ inr adopts ],
    ),
    λ (servable, h). (
      servable,
      elim h [ inl (l, m, a) ↦ inl (l, m, (IsAllowlisted-iff l).1 a) | inr adopts ↦ inr adopts ],
    ),
  )

is_blocked-false :
    (o : Option Compat) → (is_blocked o ≡ false) ↔ ((c : Compat) → o ≡ some c → c.eligible ≡ true)
is_blocked-false none = (λ h c e. ground arith, λ h. refl)
is_blocked-false (some compat) = (λ h c e. ground arith, λ h. ap not (h compat refl))

match_verdict-passes :
    (m : JobMatch Compat)
    → (match_verdict (some m) ≡ passes) ↔ (
        (unreachable_runner_group m.job.runner_group ≡ false)
        × ((c : Compat) → m.compat ≡ some c → c.eligible ≡ true))
match_verdict-passes m =
    let blocked = is_blocked-false m.compat in
    (
      λ h.
          let (x, y) : (unreachable_runner_group m.job.runner_group ≡ false)
              × (is_blocked m.compat ≡ false) =
            ground arith in
          (x, blocked.0 y),
      λ (x, y). let z = blocked.1 y in ground arith,
    )

none-some : {A : Type 0} {a : A} → none ≡ some a → ⊥
none-some e = cc

at_analyses :
    (wf : WorkflowJobEvent) {xs ys : List (WorkflowAnalysisRecord Compat)}
    → xs ≡ ys
    → match_job_analysis xs wf.workflow_name wf.job_name
      ≡ match_job_analysis ys wf.workflow_name wf.job_name
at_analyses wf e = ap (λ x. match_job_analysis x wf.workflow_name wf.job_name) e

post_claim-analyses :
    (o : Option (List (WorkflowAnalysisRecord Compat))) (wf : WorkflowJobEvent)
    → (post_claim o wf ≡ passes) ↔ (
        (analyses : List (WorkflowAnalysisRecord Compat)) (m : JobMatch Compat)
        → o ≡ some analyses
        → match_job_analysis analyses wf.workflow_name wf.job_name ≡ some m
        → (unreachable_runner_group m.job.runner_group ≡ false)
          × ((c : Compat) → m.compat ≡ some c → c.eligible ≡ true))
unfolding post_claim
post_claim-analyses none wf = (λ h analyses m e. absurd (none-some e), λ h. refl)
post_claim-analyses (some stored) wf =
    elim (Option-cases (match_job_analysis stored wf.workflow_name wf.job_name)) [
      | inl e ↦ (
        λ h analyses m same found.
            absurd (none-some (sym e ∙ (at_analyses wf (some-injective same) ∙ found))),
        λ h. rw e refl,
      )
      | inr (n, e) ↦ (
        λ h analyses m same found.
            let k : n ≡ m =
              some-injective (sym e ∙ (at_analyses wf (some-injective same) ∙ found)) in
            (match_verdict-passes m).0 (rw (← k) (rw e at h)),
        λ h. rw e ((match_verdict-passes n).1 (h stored n refl e)),
      )
    ]

pub post_claim-IsUnblocked :
    (deps : Deps) (wf : WorkflowJobEvent)
    → (post_claim deps.list_workflow_analyses wf ≡ passes) ↔ IsUnblocked deps wf
post_claim-IsUnblocked deps wf = post_claim-analyses deps.list_workflow_analyses wf
