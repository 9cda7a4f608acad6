-- ===== src/Ingest/Adopt.antt =====
-- src/ingest/adopt.ts: which jobs are claimed, and by which rule.
pub mod Claim
pub mod Normal
use lambda_ciactions.Common.{
  ◌≡◌, refl, Bool, true, false, ◌||◌, Option, none, some, List, [], ◌∷◌, ◌++◌,
}
use lambda_ciactions.Shared.Types.{RepoMode}
use lambda_ciactions.Common.Tests.{if◌then◌else◌}
use lambda_ciactions.Common.Lists.{find, any}
use lambda_ciactions.Common.Text.{
  Text, codes, text_eq, starts_with, to_lower_case, normalize, normalize_all, is_member,
  is_nonempty, text_ops,
}

-- `ADOPT_LABEL_FLAVORS`
abbrev pub adopt_label_flavors : List (Text × Text)
adopt_label_flavors =
    (codes "ubuntu-latest", codes "base")
    ∷ (codes "ubuntu-24.04", codes "base")
    ∷ (codes "ubuntu-22.04", codes "base")
    ∷ (codes "ubuntu-20.04", codes "base")
    ∷ []

-- The entry of a frozen object at one of its own keys.
unfoldable pub own_property : Text → List (Text × Text) → Option Text
own_property key [] = none
own_property key ((k, v) ∷ rest) = if text_eq k key then some v else own_property key rest

unfoldable pub has_key : Text → List (Text × Text) → Bool
has_key key [] = false
has_key key ((k, v) ∷ rest) = text_eq k key || has_key key rest

-- Membership in `ADOPT_LABELS`.
unfoldable pub in_adopt_labels : Text → Bool
in_adopt_labels l = has_key l adopt_label_flavors

unfoldable pub non_linux_hosted_label : Text → Bool
non_linux_hosted_label label =
    let l = to_lower_case label in starts_with l (codes "windows") || starts_with l (codes "macos")

abbrev pub x86_arch_labels : List Text
x86_arch_labels =
    codes "x64"
    ∷ codes "x86"
    ∷ codes "x86_64"
    ∷ codes "x86-64"
    ∷ codes "amd64"
    ∷ codes "i386"
    ∷ codes "i686"
    ∷ []

unfoldable pub x86_arch_label : Text → Bool
x86_arch_label label = is_member (normalize label) x86_arch_labels

-- Why a label cannot be served; the offending label goes with it.
pub data Why : Type 0 where
  not_linux needs_x86 : Why

unfoldable pub incompatible_runner_label : List Text → Option (Text × Why)
incompatible_runner_label [] = none
incompatible_runner_label (raw ∷ labels) =
    let l = normalize raw in
    let rest = incompatible_runner_label labels in
    if is_nonempty l
    then (if non_linux_hosted_label l
        then some (l, not_linux)
        else if x86_arch_label l
        then some (l, needs_x86)
        else rest)
    else rest

unfoldable pub is_adopt_label : Text → Bool
is_adopt_label label = in_adopt_labels (normalize label)

unfoldable pub adopt_flavor_for_label : Text → Option Text
adopt_flavor_for_label label = own_property (normalize label) adopt_label_flavors

-- `group ?? ''`
abbrev pub or_empty : Option Text → Text
or_empty none = []
or_empty (some g) = g

unfoldable pub unreachable_runner_group : Option Text → Bool
unreachable_runner_group group =
    let g = normalize (or_empty group) in
    if is_nonempty g then (if text_eq g (codes "default") then false else true) else false

-- `ClaimVia`
pub data ClaimVia : Type 0 where
  label adopt : ClaimVia

-- The operator-facing `reason`, by the template that the source fills in.
pub data ClaimReason : Type 0 where
  incompatible : Text → Why → ClaimReason
  explicit_label : Text → ClaimReason
  no_lca_label : ClaimReason
  standard_label : Text → ClaimReason
  no_standard_label : ClaimReason

pub record ClaimDecision : Type 0 where
  pub claim : Bool
  pub via : Option ClaimVia
  pub reason : ClaimReason

abbrev pub refused : ClaimReason → ClaimDecision
refused r = record { claim = false; via = none; reason = r }

abbrev pub claimed : ClaimVia → ClaimReason → ClaimDecision
claimed v r = record { claim = true; via = some v; reason = r }

-- `mode !== 'adopt'` on an optional mode.
abbrev pub is_adopt : Option RepoMode → Bool
is_adopt (some RepoMode.adopt) = true
is_adopt _ = false

-- The last rule of `decideClaim`: standard hosted labels, in adopt mode only.
unfoldable pub decide_standard : List Text → Option RepoMode → ClaimDecision
decide_standard labels mode =
    if is_adopt mode
    then elim (find in_adopt_labels labels) [
      | some l ↦ claimed ClaimVia.adopt (standard_label l)
      | none ↦ refused no_standard_label
    ]
    else refused no_lca_label

-- The rules of `decideClaim`, over labels that are normalised.
unfoldable pub decide_normalized : List Text → List Text → Option RepoMode → ClaimDecision
decide_normalized labels claims mode = elim (incompatible_runner_label labels) [
  | some (l, why) ↦ refused (incompatible l why)
  | none ↦ elim (find (λ l. is_member l claims) labels) [
    | some l ↦ claimed ClaimVia.label (explicit_label l)
    | none ↦ decide_standard labels mode
  ]
]

unfoldable pub decide_claim : List Text → List Text → Option RepoMode → ClaimDecision
decide_claim job_labels claimed_labels mode =
    decide_normalized (normalize_all job_labels) (normalize_all claimed_labels) mode

-- All that a run on literals computes with.
unfoldable pub adopt_ops : Unit {0}
unfolding text_ops own_property has_key in_adopt_labels non_linux_hosted_label x86_arch_label
    incompatible_runner_label is_adopt_label adopt_flavor_for_label unreachable_runner_group
    decide_standard decide_normalized decide_claim
adopt_ops = tt
