-- ===== src/Ingest/Refusal/Shaped.antt =====
-- The LCA-shaped labels of a job: `lcaShapedLabels` against a description of its result.
use lambda_ciactions.Common.{
  ◌≡◌, refl, sym, ap, ◌∙◌, ◌↔◌, ◌⊎◌, inl, inr, true, false, not, ◌||◌, List, [], ◌∷◌, ◌++◌, arith,
}
use lambda_ciactions.Common.Tests.{Bool-cases, if◌then◌else◌}
use lambda_ciactions.Common.Lists.{
  In, In-append, In-append_left, In-append_right, Distinct, Distinct-snoc,
}
use lambda_ciactions.Common.Text.{
  Text, normalize, normalize_idem, normalize_all, is_nonempty, is_member, is_member_iff,
}
use lambda_ciactions.Ingest.Adopt.Normal
use lambda_ciactions.Ingest.Refusal.{lca_shaped_label, lca_shaped_from, lca_shaped_labels}

-- An LCA-shaped label of the list whose normal form is `x`.
abbrev pub ShapedBy : List Text → Text → Type 0
ShapedBy ls x = (l : Text) × In l ls × (normalize l ≡ x) × (lca_shaped_label l ≡ true)

pub shaped-nonempty : (l : Text) → lca_shaped_label l ≡ true → is_nonempty (normalize l) ≡ true
unfolding lca_shaped_label
shaped-nonempty l h = ground arith

shaped-normalize : (l : Text) → lca_shaped_label (normalize l) ≡ lca_shaped_label l
unfolding lca_shaped_label
shaped-normalize l = rw (normalize_idem l) refl

-- One round of the loop.
step : List Text → Text → List Text
step out l =
    if not (is_nonempty l) || not (lca_shaped_label l)
    then out
    else if is_member l out
    then out
    else out ++ l ∷ []

step-In :
    (out : List Text) (r x : Text)
    → In x (step out (normalize r))
    → In x out ⊎ ((normalize r ≡ x) × (lca_shaped_label r ≡ true))
unfolding step
step-In out r x m = elim (Bool-cases (lca_shaped_label r)) [
  | inl shaped ↦ elim (In-append x out (normalize r ∷ []) (widen m)) [
    | inl old ↦ inl old
    | inr (inl e) ↦ inr (sym e, shaped)
    | inr (inr none_left) ↦ absurd none_left
  ]
  | inr other ↦ inl (keep (shaped-normalize r ∙ other) m)
]
  where
    widen : In x (step out (normalize r)) → In x (out ++ normalize r ∷ [])
    widen h = ground (arith, In-append_left x out (normalize r ∷ []))

    keep : lca_shaped_label (normalize r) ≡ false → In x (step out (normalize r)) → In x out
    keep e h = ground arith

In-step :
    (out : List Text) (r x : Text)
    → In x out ⊎ ((normalize r ≡ x) × (lca_shaped_label r ≡ true))
    → In x (step out (normalize r))
unfolding step
In-step out r x (inl m) = ground (arith, In-append_left x out (normalize r ∷ []) m)
In-step out r x (inr (e, shaped)) =
    let new = In-append_right x out (normalize r ∷ []) (inl (sym e)) in
    let old = (is_member_iff (normalize r) out).0 in
    rw (shaped-normalize r ∙ shaped, shaped-nonempty r shaped, step)
      (elim (Bool-cases (is_member (normalize r) out)) [
        | inl seen ↦ rw seen (rw e at (old seen))
        | inr fresh ↦ rw fresh new
      ])

step-Distinct : (out : List Text) (l : Text) → Distinct out → Distinct (step out l)
unfolding step
step-Distinct out l d = ground (arith, Distinct-snoc out l d, is_member_iff l out)

from-In : (out ls : List Text) (x : Text) → In x (lca_shaped_from out ls) → In x out ⊎ ShapedBy ls x
unfolding lca_shaped_from step
from-In out [] x m = inl m
from-In out (r ∷ ls) x m = elim (from-In (step out (normalize r)) ls x m) [
  | inl k ↦ elim (step-In out r x k) [
    | inl old ↦ inl old
    | inr (e, shaped) ↦ inr (r, inl refl, e, shaped)
  ]
  | inr (l, k, e, shaped) ↦ inr (l, inr k, e, shaped)
]

In-from : (out ls : List Text) (x : Text) → In x out ⊎ ShapedBy ls x → In x (lca_shaped_from out ls)
unfolding lca_shaped_from step
In-from out [] x (inl m) = m
In-from out [] x (inr (l, m, e, shaped)) = absurd m
In-from out (r ∷ ls) x (inl m) =
    In-from (step out (normalize r)) ls x (inl (In-step out r x (inl m)))
In-from out (r ∷ ls) x (inr (l, inl same, e, shaped)) = In-from (step out (normalize r)) ls x (
    inl (
      In-step out r x (inr (ap normalize (sym same) ∙ e, ap lca_shaped_label (sym same) ∙ shaped))))
In-from out (r ∷ ls) x (inr (l, inr m, e, shaped)) =
    In-from (step out (normalize r)) ls x (inr (l, m, e, shaped))

from-Distinct : (out ls : List Text) → Distinct out → Distinct (lca_shaped_from out ls)
unfolding lca_shaped_from step
from-Distinct out [] d = d
from-Distinct out (r ∷ ls) d =
    from-Distinct (step out (normalize r)) ls (step-Distinct out (normalize r) d)

-- The listed labels are the normal forms of the job's LCA-shaped labels, each once.
pub lca_shaped_labels_iff :
    (ls : List Text)
    → Distinct (lca_shaped_labels ls) × ((x : Text) → In x (lca_shaped_labels ls) ↔ ShapedBy ls x)
unfolding lca_shaped_labels
lca_shaped_labels_iff ls = (
  from-Distinct [] ls tt,
  λ x. (
    λ m. elim (from-In [] ls x m) [ inl none_yet ↦ absurd none_yet | inr by ↦ by ],
    λ by. In-from [] ls x (inr by),
  ),
)

pub ShapedBy-normalize_all :
    (ls : List Text) (x : Text) → ShapedBy (normalize_all ls) x ↔ ShapedBy ls x
ShapedBy-normalize_all ls x = (
  λ (n, m, e, shaped).
      let (l, k, f, _) = Normal.In-normalize_all n ls m in
      (
        l,
        k,
        sym (normalize_idem l) ∙ (ap normalize f ∙ e),
        sym (shaped-normalize l) ∙ (ap lca_shaped_label f ∙ shaped),
      ),
  λ (l, m, e, shaped). (
    normalize l,
    Normal.normalize_all-In l ls m (shaped-nonempty l shaped),
    normalize_idem l ∙ e,
    shaped-normalize l ∙ shaped,
  ),
)
