-- ===== src/Ingest/Refusal/Classify.antt =====
-- How `classifyRefusal` agrees with the claim gate.
use lambda_ciactions.Common.{
  ◌≡◌, refl, ap, ◌∙◌, ◌↔◌, inl, inr, Bool, true, false, not, Option, none, some, List, [], ◌∷◌,
  arith,
}
use lambda_ciactions.Common.Tests.{Bool-cases, Bool_ext, Option-cases}
use lambda_ciactions.Common.Lists.{In, filter, In-filter, filter-In, is_empty}
use lambda_ciactions.Common.Text.{Text, normalize, normalize_all, is_member, is_member_iff}
use lambda_ciactions.Shared.Types.{RepoMode}
use lambda_ciactions.Ingest.Adopt.{
  ClaimReason, incompatible, incompatible_runner_label, decide_claim, decide_normalized,
  decide_standard,
}
use lambda_ciactions.Ingest.Adopt.Normal
use lambda_ciactions.Ingest.Adopt.Claim.{decide_claim_iff}
use lambda_ciactions.Ingest.Refusal.{
  Gate, RefusalCode, RefusalInput, info, add_labels, lca_shaped_label, lca_shaped_labels,
  classify_claim, classify_refusal, is_none,
}
use lambda_ciactions.Ingest.Refusal.Shaped.{
  ShapedBy, shaped-nonempty, lca_shaped_labels_iff, ShapedBy-normalize_all,
}

-- The classification of a refusal by `decideClaim`, as the handler asks for it.
abbrev pub claim_refusal : List Text → List Text → Option RepoMode → RefusalInput
claim_refusal job_labels claimed_labels mode = record {
  gate = Gate.claim;
  job_labels = job_labels;
  claimed_labels = claimed_labels;
  mode = mode;
  group = none;
}

-- A refusal is surfaced with a remedy at level `info`, or is neither, at every gate.
pub classify_refusal_coherent :
    (input : RefusalInput)
    → ((classify_refusal input).actionable ≡ not (is_none (classify_refusal input).fix))
      × (((classify_refusal input).level ≡ info) ↔ ((classify_refusal input).actionable ≡ true))
unfolding classify_refusal
classify_refusal_coherent input = ground arith

-- A refusal for a label of another system or machine.
abbrev pub is_incompatible : ClaimReason → Bool
is_incompatible (incompatible l why) = true
is_incompatible _ = false

-- Whatever the labels, the classification of the claim gate says `incompatible-label` exactly when
-- `decideClaim` refuses for that reason.
pub classify_refusal-decide_claim :
    (job_labels claimed_labels : List Text) (mode : Option RepoMode)
    → ((classify_refusal (claim_refusal job_labels claimed_labels mode)).code
        ≡ RefusalCode.incompatible_label)
      ↔ (is_incompatible (decide_claim job_labels claimed_labels mode).reason ≡ true)
unfolding classify_refusal decide_claim decide_normalized decide_standard
classify_refusal-decide_claim job_labels claimed_labels mode = ground arith

not_listed :
    (job_labels claimed_labels : List Text) (mode : Option RepoMode)
    → (decide_claim job_labels claimed_labels mode).claim ≡ false
    → incompatible_runner_label (normalize_all job_labels) ≡ none
    → (x : Text) → ShapedBy job_labels x
    → is_member x (normalize_all claimed_labels) ≡ false
not_listed job_labels claimed_labels mode refused clean x (l, m, e, shaped) =
    elim (Bool-cases (is_member x (normalize_all claimed_labels))) [
      | inr out ↦ out
      | inl listed ↦
          let here = rw (← e) at ((is_member_iff x (normalize_all claimed_labels)).0 listed) in
          let taken = (decide_claim_iff job_labels claimed_labels mode).1 (
            Normal.IsServable-of_normalize_all job_labels clean,
            inl (l, m, (shaped-nonempty l shaped, here)),
          ) in
          cc (taken, refused)
    ]

module _ {A : Type 0} where
  empty-In : (xs : List A) → is_empty xs ≡ true → (x : A) → ¬ In x xs
  empty-In [] h x m = m
  empty-In (y ∷ ys) h x m = cc h

  nonempty-In : (xs : List A) → is_empty xs ≡ false → (x : A) × In x xs
  nonempty-In [] h = cc h
  nonempty-In (y ∷ ys) h = (y, inl refl)

-- The lists that the classification computes for the claim gate.
abbrev shaped_of : List Text → List Text
shaped_of job_labels = lca_shaped_labels (normalize_all job_labels)

abbrev unlisted_of : List Text → List Text → List Text
unlisted_of job_labels claimed_labels =
    filter (λ l. not (is_member l (normalize_all claimed_labels))) (shaped_of job_labels)

unlisted_nonempty :
    (job_labels claimed_labels : List Text) (mode : Option RepoMode)
    → (decide_claim job_labels claimed_labels mode).claim ≡ false
    → incompatible_runner_label (normalize_all job_labels) ≡ none
    → is_empty (unlisted_of job_labels claimed_labels) ≡ is_empty (shaped_of job_labels)
unlisted_nonempty job_labels claimed_labels mode refused clean =
    Bool_ext _ _
      (λ e. elim (Bool-cases (is_empty (shaped_of job_labels))) [
        | inl none_shaped ↦ none_shaped
        | inr some_shaped ↦
            let (x, m) = nonempty-In (shaped_of job_labels) some_shaped in
            let by =
              (ShapedBy-normalize_all job_labels x).0 (((lca_shaped_labels_iff _).1 x).0 m) in
            let out = not_listed job_labels claimed_labels mode refused clean x by in
            absurd (empty-In _ e x (filter-In _ x (shaped_of job_labels) m (ground arith)))
      ])
      (λ e. elim (Bool-cases (is_empty (unlisted_of job_labels claimed_labels))) [
        | inl none_left ↦ none_left
        | inr some_left ↦
            let (x, m) = nonempty-In (unlisted_of job_labels claimed_labels) some_left in
            absurd (empty-In _ e x (In-filter _ x (shaped_of job_labels) m).0)
      ])

actionable-shaped :
    (job_labels claimed_labels : List Text) (mode : Option RepoMode)
    → (decide_claim job_labels claimed_labels mode).claim ≡ false
    → (classify_refusal (claim_refusal job_labels claimed_labels mode)).actionable
      ≡ not (is_empty (shaped_of job_labels))
unfolding classify_refusal
actionable-shaped job_labels claimed_labels mode refused =
    elim (Option-cases (incompatible_runner_label (normalize_all job_labels))) [
      | inl clean ↦ ground (arith, unlisted_nonempty job_labels claimed_labels mode refused clean)
      | inr (x, bad) ↦ rw (bad, classify_claim) refl
    ]

code_not_allowlisted :
    (job_labels claimed_labels : List Text) (mode : Option RepoMode)
    → (decide_claim job_labels claimed_labels mode).claim ≡ false
    → let c = classify_refusal (claim_refusal job_labels claimed_labels mode) in
      (c.code ≡ RefusalCode.label_not_allowlisted)
      ↔ ((c.actionable ≡ true) × (incompatible_runner_label (normalize_all job_labels) ≡ none))
unfolding classify_refusal
code_not_allowlisted job_labels claimed_labels mode refused = ground arith

-- The remedy names, in normal form, exactly the LCA-shaped labels of the job.
abbrev pub NamesMissing : List Text → List Text → Option RepoMode → Type 0
NamesMissing job_labels claimed_labels mode =
    (ls : List Text) × ((classify_refusal (claim_refusal job_labels claimed_labels mode)).fix
      ≡ some (add_labels ls))
    × ((x : Text) → In x ls ↔ ShapedBy job_labels x)

unlisted_of-ShapedBy :
    (job_labels claimed_labels : List Text) (mode : Option RepoMode)
    → (decide_claim job_labels claimed_labels mode).claim ≡ false
    → incompatible_runner_label (normalize_all job_labels) ≡ none
    → (x : Text) → In x (unlisted_of job_labels claimed_labels) ↔ ShapedBy job_labels x
unlisted_of-ShapedBy job_labels claimed_labels mode refused clean x = (
  λ m.
      (ShapedBy-normalize_all job_labels x).0
        (((lca_shaped_labels_iff _).1 x).0 (In-filter _ x (shaped_of job_labels) m).0),
  λ by.
      let m = ((lca_shaped_labels_iff _).1 x).1 ((ShapedBy-normalize_all job_labels x).1 by) in
      filter-In _ x (shaped_of job_labels) m
        (ap not (not_listed job_labels claimed_labels mode refused clean x by)),
)

fix_not_allowlisted :
    (job_labels claimed_labels : List Text) (mode : Option RepoMode)
    → let c = classify_refusal (claim_refusal job_labels claimed_labels mode) in
      c.code ≡ RefusalCode.label_not_allowlisted
      → c.fix ≡ some (add_labels (unlisted_of job_labels claimed_labels))
unfolding classify_refusal
fix_not_allowlisted job_labels claimed_labels mode e = ground arith

code-of_fix :
    (job_labels claimed_labels ls : List Text) (mode : Option RepoMode)
    → let c = classify_refusal (claim_refusal job_labels claimed_labels mode) in
      c.fix ≡ some (add_labels ls) → c.code ≡ RefusalCode.label_not_allowlisted
unfolding classify_refusal
code-of_fix job_labels claimed_labels ls mode e = ground arith

NamesMissing-iff :
    (job_labels claimed_labels : List Text) (mode : Option RepoMode)
    → (decide_claim job_labels claimed_labels mode).claim ≡ false
    → NamesMissing job_labels claimed_labels mode ↔ (
        (classify_refusal (claim_refusal job_labels claimed_labels mode)).code
        ≡ RefusalCode.label_not_allowlisted)
NamesMissing-iff job_labels claimed_labels mode refused = (
  λ (ls, e, named). code-of_fix job_labels claimed_labels ls mode e,
  λ e.
      let (a, clean) = (code_not_allowlisted job_labels claimed_labels mode refused).0 e in
      (
        unlisted_of job_labels claimed_labels,
        fix_not_allowlisted job_labels claimed_labels mode e,
        unlisted_of-ShapedBy job_labels claimed_labels mode refused clean,
      ),
)

code-IsServable :
    (job_labels claimed_labels : List Text) (mode : Option RepoMode)
    → (decide_claim job_labels claimed_labels mode).claim ≡ false
    → let c = classify_refusal (claim_refusal job_labels claimed_labels mode) in
      (c.code ≡ RefusalCode.label_not_allowlisted)
      ↔ ((c.actionable ≡ true) × ((l : Text) → In l job_labels → Normal.IsServable l))
code-IsServable job_labels claimed_labels mode refused = (
  λ c.
      let (a, clean) = (code_not_allowlisted job_labels claimed_labels mode refused).0 c in
      (a, Normal.IsServable-of_normalize_all job_labels clean),
  λ (a, servable).
      (code_not_allowlisted job_labels claimed_labels mode refused).1
        (a, Normal.normalize_all-IsServable job_labels servable),
)

-- A refusal by `decideClaim` is surfaced exactly when a label of the job is LCA-shaped. Where it is
-- surfaced and every label of the job can be served, and nowhere else, the code is
-- `label-not-allowlisted`, and the remedy is to add exactly the LCA-shaped labels of the job, in
-- normal form, to the allowlist.
pub classify_refusal-actionable :
    (job_labels claimed_labels : List Text) (mode : Option RepoMode)
    → (decide_claim job_labels claimed_labels mode).claim ≡ false
    → let c = classify_refusal (claim_refusal job_labels claimed_labels mode) in
      ((c.actionable ≡ true) ↔ ((l : Text) × In l job_labels × (lca_shaped_label l ≡ true)))
      × (((c.code ≡ RefusalCode.label_not_allowlisted))
          ↔ ((c.actionable ≡ true) × ((l : Text) → In l job_labels → Normal.IsServable l)))
      × (NamesMissing job_labels claimed_labels mode
          ↔ ((c.actionable ≡ true) × ((l : Text) → In l job_labels → Normal.IsServable l)))
classify_refusal-actionable job_labels claimed_labels mode refused = (
  (
    λ a.
        let e : is_empty (shaped_of job_labels) ≡ false =
          ground (arith, actionable-shaped job_labels claimed_labels mode refused) in
        let (x, m) = nonempty-In (shaped_of job_labels) e in
        let (l, k, _, shaped) =
          (ShapedBy-normalize_all job_labels x).0 (((lca_shaped_labels_iff _).1 x).0 m) in
        (l, k, shaped),
    λ (l, k, shaped).
        let by = (ShapedBy-normalize_all job_labels (normalize l)).1 (l, k, refl, shaped) in
        let m = ((lca_shaped_labels_iff _).1 (normalize l)).1 by in
        actionable-shaped job_labels claimed_labels mode refused
        ∙ elim (Bool-cases (is_empty (shaped_of job_labels))) [
          | inl e ↦ absurd (empty-In _ e (normalize l) m)
          | inr e ↦ ap not e
        ],
  ),
  code-IsServable job_labels claimed_labels mode refused,
  (
    λ n.
        (code-IsServable job_labels claimed_labels mode refused).0
          ((NamesMissing-iff job_labels claimed_labels mode refused).0 n),
    λ h.
        (NamesMissing-iff job_labels claimed_labels mode refused).1
          ((code-IsServable job_labels claimed_labels mode refused).1 h),
  ),
)
