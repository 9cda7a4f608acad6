-- ===== src/Shared/Readiness/Unmatched.antt =====
-- The entries of the allowlist that no flavor of the catalog explains.
use lambda_ciactions.Common.{
  ◌≡◌, ◌≢◌, refl, true, false, ◌||◌, not, arith, ap, sym, inl, inr, ◌↔◌, ◌⊎◌, List, [], ◌∷◌, ◌++◌,
  map,
}
use lambda_ciactions.Common.Tests.{if◌then◌else◌, Bool-cases}
use lambda_ciactions.Common.Lists.{
  In, Distinct, In-append, In-append_left, In-append_right, In-map, In-of_map, Distinct-snoc,
}
use lambda_ciactions.Common.Text.{Text, normalize, is_member, is_member_iff, is_nonempty}
use lambda_ciactions.Shared.Readiness.{ReadinessFlavor, unmatched_from, unmatched_allowlist_labels}

abbrev step : List Text → List Text → Text → List Text
step known out l =
    if not (is_nonempty l) || is_member l known || is_member l out then out else out ++ (l ∷ [])

-- A normal form that is not blank and not known.
abbrev IsNew : List Text → Text → Type 0
IsNew known x = (is_nonempty x ≡ true) × (is_member x known ≡ false)

step_cases :
    (known out : List Text) (l : Text)
    → ((step known out l ≡ out) × (IsNew known l → In l out))
      ⊎ ((step known out l ≡ out ++ (l ∷ [])) × IsNew known l × (is_member l out ≡ false))
step_cases known out l =
    let seen = (is_member_iff l out).0 in
    elim (Bool-cases (not (is_nonempty l) || is_member l known || is_member l out)) [
      | inl e ↦ inl (rw e refl, λ (full, fresh). seen (ground arith))
      | inr e ↦ inr (rw e refl, (ground arith, ground arith), ground arith)
    ]

from-Distinct : (known out ls : List Text) → Distinct out → Distinct (unmatched_from known out ls)
unfolding unmatched_from
from-Distinct known out [] d = d
from-Distinct known out (r ∷ ls) d =
    from-Distinct known (step known out (normalize r)) ls
      (elim (step_cases known out (normalize r)) [
        | inl (e, _) ↦ rw e d
        | inr (e, new, fresh) ↦ rw e (
            Distinct-snoc out (normalize r) d
              (λ m. let k = (is_member_iff (normalize r) out).1 m in ground arith))
      ])

from-In :
    (known out ls : List Text) (x : Text)
    → In x (unmatched_from known out ls)
    → In x out ⊎ ((r : Text) × In r ls × (normalize r ≡ x) × IsNew known x)
unfolding unmatched_from
from-In known out [] x m = inl m
from-In known out (r ∷ ls) x m = elim (from-In known (step known out (normalize r)) ls x m) [
  | inr (s, i, e, new) ↦ inr (s, inr i, e, new)
  | inl here ↦ elim (step_cases known out (normalize r)) [
    | inl (e, _) ↦ inl (rw e at here)
    | inr (e, new, fresh) ↦ elim (In-append x out (normalize r ∷ []) (rw e at here)) [
      | inl old ↦ inl old
      | inr (inl same) ↦ inr (r, inl refl, sym same, rw same new)
      | inr (inr nothing) ↦ absurd nothing
    ]
  ]
]

from-kept : (known out ls : List Text) (x : Text) → In x out → In x (unmatched_from known out ls)
unfolding unmatched_from
from-kept known out [] x m = m
from-kept known out (r ∷ ls) x m =
    from-kept known (step known out (normalize r)) ls x (elim (step_cases known out (normalize r)) [
      | inl (e, _) ↦ rw e m
      | inr (e, new, fresh) ↦ rw e (In-append_left x out (normalize r ∷ []) m)
    ])

from-covers :
    (known out ls : List Text) (r : Text)
    → In r ls
    → IsNew known (normalize r)
    → In (normalize r) (unmatched_from known out ls)
unfolding unmatched_from
from-covers known out [] r m new = absurd m
from-covers known out (s ∷ ls) r (inr m) new =
    from-covers known (step known out (normalize s)) ls r m new
from-covers known out (s ∷ ls) r (inl e) new =
    from-kept known (step known out (normalize s)) ls (normalize r)
      (elim (step_cases known out (normalize s)) [
        | inl (same, seen) ↦ rw (same, e) (seen (rw e at new))
        | inr (same, _, _) ↦
            rw same (In-append_right (normalize r) out (normalize s ∷ []) (inl (ap normalize e)))
      ])

not_known :
    (flavors : List ReadinessFlavor) (x : Text)
    → (is_member x (map (λ f. normalize f.label) flavors) ≡ false)
      ↔ ((f : ReadinessFlavor) → In f flavors → normalize f.label ≢ x)
not_known flavors x =
    let known = map (λ f. normalize f.label) flavors in
    (
      λ h f m e.
          let k =
            (is_member_iff x known).1 (rw (sym e) (In-map (λ f. normalize f.label) f flavors m)) in
          ground arith,
      λ h. elim (Bool-cases (is_member x known)) [
        | inl e ↦
            let (f, m, same) =
              In-of_map (λ f. normalize f.label) x flavors ((is_member_iff x known).0 e) in
            absurd (h f m (sym same))
        | inr e ↦ e
      ],
    )

-- The listed entries are the normal forms of the allowlist's entries that are not blank and are no
-- flavor's label, each once.
pub unmatched_allowlist_labels_lem :
    (flavors : List ReadinessFlavor) (allowlist : List Text)
    → Distinct (unmatched_allowlist_labels flavors allowlist)
      × ((x : Text)
          → In x (unmatched_allowlist_labels flavors allowlist) ↔ (
              (raw : Text) × In raw allowlist
              × (normalize raw ≡ x)
              × (is_nonempty x ≡ true)
              × ((f : ReadinessFlavor) → In f flavors → normalize f.label ≢ x)))
unfolding unmatched_allowlist_labels
unmatched_allowlist_labels_lem flavors allowlist =
    let known = map (λ f. normalize f.label) flavors in
    (
      from-Distinct known [] allowlist tt,
      λ x. (
        λ m. elim (from-In known [] allowlist x m) [
          | inl nothing ↦ absurd nothing
          | inr (r, i, e, (full, fresh)) ↦ (r, i, e, full, (not_known flavors x).0 fresh)
        ],
        λ (r, i, e, full, fresh).
            let new : IsNew known x = (full, (not_known flavors x).1 fresh) in
            rw (sym e) (from-covers known [] allowlist r i (rw (sym e) at new)),
      ),
    )
