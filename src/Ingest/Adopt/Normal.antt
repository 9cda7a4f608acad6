-- ===== src/Ingest/Adopt/Normal.antt =====
-- Normalised label lists: membership, and when no label is incompatible.
use lambda_ciactions.Common.{
  ◌≡◌, refl, sym, inl, inr, true, false, none, some, List, [], ◌∷◌, map, arith,
}
use lambda_ciactions.Common.Tests.{Bool-cases}
use lambda_ciactions.Common.Lists.{In, In-map, In-of_map, In-filter, filter-In}
use lambda_ciactions.Common.Text.{Text, normalize, normalize_idem, normalize_all, is_nonempty}
use lambda_ciactions.Ingest.Adopt.{
  Why, non_linux_hosted_label, x86_arch_label, incompatible_runner_label, adopt_ops,
}

pub In-normalize_all :
    (x : Text) (ls : List Text)
    → In x (normalize_all ls)
    → (l : Text) × In l ls × (normalize l ≡ x) × (is_nonempty x ≡ true)
unfolding normalize_all
In-normalize_all x ls m =
    let (inside, some_text) = In-filter is_nonempty x (map normalize ls) m in
    let (l, k, e) = In-of_map normalize x ls inside in (l, k, sym e, some_text)

pub normalize_all-In :
    (l : Text) (ls : List Text)
    → In l ls
    → is_nonempty (normalize l) ≡ true
    → In (normalize l) (normalize_all ls)
unfolding normalize_all
normalize_all-In l ls m h = filter-In is_nonempty (normalize l) _ (In-map normalize l ls m) h

-- A label that an arm64 Linux runner may carry.
abbrev pub IsServable : Text → Type 0
IsServable l =
    (non_linux_hosted_label (normalize l) ≡ false) × (x86_arch_label (normalize l) ≡ false)

empty_servable :
    (l : Text)
    → is_nonempty l ≡ false
    → (non_linux_hosted_label l ≡ false) × (x86_arch_label l ≡ false)
unfolding adopt_ops
empty_servable [] h = (refl, refl)
empty_servable (c ∷ l) h = ground arith

pub incompatible-none :
    (ls : List Text) → incompatible_runner_label ls ≡ none → (l : Text) → In l ls → IsServable l
unfolding incompatible_runner_label
incompatible-none [] h l m = absurd m
incompatible-none (x ∷ ls) h l (inl e) = rw e (ground (arith, empty_servable (normalize x)))
incompatible-none (x ∷ ls) h l (inr m) = incompatible-none ls (ground arith) l m

pub servable-incompatible :
    (ls : List Text) → ((l : Text) → In l ls → IsServable l) → incompatible_runner_label ls ≡ none
unfolding incompatible_runner_label
servable-incompatible [] h = refl
servable-incompatible (x ∷ ls) h =
    ground (arith, h x (inl refl), servable-incompatible ls (λ l m. h l (inr m)))

-- The offending label is one of the job's, in normal form, and cannot be served.
pub incompatible-some :
    (ls : List Text) (x : Text) (w : Why)
    → incompatible_runner_label ls ≡ some (x, w)
    → (l : Text) × In l ls × (normalize l ≡ x) × (¬ IsServable l)
unfolding incompatible_runner_label
incompatible-some [] x w h = ground arith
incompatible-some (r ∷ ls) x w h = elim (Bool-cases (is_nonempty (normalize r))) [
  | inr e ↦ skip (incompatible-some ls x w (ground arith))
  | inl e ↦ elim (Bool-cases (non_linux_hosted_label (normalize r))) [
    | inl bad ↦ (r, inl refl, ground arith, λ s. ground arith)
    | inr fine ↦ elim (Bool-cases (x86_arch_label (normalize r))) [
      | inl bad ↦ (r, inl refl, ground arith, λ s. ground arith)
      | inr also ↦ skip (incompatible-some ls x w (ground arith))
    ]
  ]
]
  where
    skip :
        (l : Text) × In l ls × (normalize l ≡ x) × (¬ IsServable l)
        → (l : Text) × In l (r ∷ ls) × (normalize l ≡ x) × (¬ IsServable l)
    skip (l, m, k, n) = (l, inr m, k, n)

IsServable-normalize : (l : Text) → IsServable l → IsServable (normalize l)
IsServable-normalize l h = rw (normalize_idem l) h

pub normalize_all-IsServable :
    (ls : List Text)
    → ((l : Text) → In l ls → IsServable l)
    → incompatible_runner_label (normalize_all ls) ≡ none
normalize_all-IsServable ls h =
    servable-incompatible (normalize_all ls)
      λ x m. let (l, k, e, _) = In-normalize_all x ls m in rw (← e) (IsServable-normalize l (h l k))

pub IsServable-of_normalize_all :
    (ls : List Text)
    → incompatible_runner_label (normalize_all ls) ≡ none
    → (l : Text) → In l ls
    → IsServable l
IsServable-of_normalize_all ls h l m = elim (Bool-cases (is_nonempty (normalize l))) [
  | inr e ↦ empty_servable (normalize l) e
  | inl e ↦
      rw (normalize_idem l) at (incompatible-none _ h (normalize l) (normalize_all-In l ls m e))
]
