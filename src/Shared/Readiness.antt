-- ===== src/Shared/Readiness.antt =====
-- src/shared/flavor-readiness.ts: which flavors of the catalog the live control plane can run.
pub mod Gate
pub mod Unmatched
use lambda_ciactions.Common.{
  ℕ, Bool, true, false, ◌||◌, not, Option, none, some, List, [], ◌∷◌, ◌++◌, map,
}
use lambda_ciactions.Common.Tests.{if◌then◌else◌, ltb}
use lambda_ciactions.Common.Lists.{find}
use lambda_ciactions.Common.Text.{Text, text_eq, normalize, normalize_all, is_member, is_nonempty}

pub record ReadinessFlavor : Type 0 where
  pub name : Text
  pub label : Text

pub data FlavorReadinessState : Type 0 where
  ready image_missing unclaimable unroutable : FlavorReadinessState

-- The text of a problem and its remedy is a function of the state and the flavor.
pub record FlavorReadiness : Type 0 where
  pub flavor : Text
  pub label : Text
  pub label_allowlisted : Bool
  pub image_published : Bool
  pub state : FlavorReadinessState
  pub runnable : Bool
  pub explained : Bool

-- The names with a published image; `none` where they were not read.
pub record ControlPlaneSnapshot : Type 0 where
  pub allowlist : List Text
  pub image_published : Option (List Text)
  pub live : Bool

abbrev pub is_published : Option (List Text) → Text → Bool
is_published none name = false
is_published (some names) name = is_member name names

abbrev pub state_of : Bool → Bool → FlavorReadinessState
state_of true true = ready
state_of true false = image_missing
state_of false true = unclaimable
state_of false false = unroutable

-- `fixFor(state, f) !== undefined`
abbrev pub has_fix : FlavorReadinessState → Bool
has_fix ready = false
has_fix _ = true

unfoldable pub readiness_of : ControlPlaneSnapshot → ReadinessFlavor → FlavorReadiness
readiness_of snapshot f =
    let listed = is_member (normalize f.label) (normalize_all snapshot.allowlist) in
    let published = is_published snapshot.image_published f.name in
    record {
      flavor = f.name;
      label = f.label;
      label_allowlisted = listed;
      image_published = published;
      state = state_of listed published;
      runnable = not (has_fix (state_of listed published));
      explained = has_fix (state_of listed published);
    }

unfoldable pub reconcile_flavors :
    List ReadinessFlavor → ControlPlaneSnapshot → List FlavorReadiness
unfolding readiness_of
reconcile_flavors flavors snapshot = map (readiness_of snapshot) flavors

-- The loop of `unmatchedAllowlistLabels`, with `out` so far.
unfoldable pub unmatched_from : List Text → List Text → List Text → List Text
unmatched_from known out [] = out
unmatched_from known out (raw ∷ rest) =
    let l = normalize raw in
    unmatched_from known
      (if not (is_nonempty l) || is_member l known || is_member l out then out else out ++ (l ∷ []))
      rest

unfoldable pub unmatched_allowlist_labels : List ReadinessFlavor → List Text → List Text
unfolding unmatched_from
unmatched_allowlist_labels flavors allowlist =
    unmatched_from (map (λ f. normalize f.label) flavors) [] allowlist

unfoldable pub readiness_for : List FlavorReadiness → Option Text → Option FlavorReadiness
readiness_for readiness none = none
readiness_for readiness (some flavor) =
    if is_nonempty flavor then find (λ r. text_eq r.flavor flavor) readiness else none

-- `STATE_RANK`
unfoldable pub state_rank : FlavorReadinessState → ℕ
state_rank ready = 0
state_rank image_missing = 1
state_rank unclaimable = 2
state_rank unroutable = 3

-- The fold of `worstState`, with the worst state so far.
unfoldable pub worst_from : FlavorReadinessState → List FlavorReadinessState → FlavorReadinessState
unfolding state_rank
worst_from worst [] = worst
worst_from worst (s ∷ states) =
    worst_from (if ltb (state_rank worst) (state_rank s) then s else worst) states

unfoldable pub worst_state : List FlavorReadinessState → FlavorReadinessState
unfolding worst_from
worst_state states = worst_from ready states
