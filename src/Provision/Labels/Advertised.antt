-- ===== src/Provision/Labels/Advertised.antt =====
-- What the runner advertises: each literal label of the job, once, and nothing else.
use lambda_ciactions.Common.{
  ◌≤◌, ◌≡◌, refl, sym, ap, ◌∙◌, ◌⊎◌, inl, inr, true, false, Option, none, List, [], ◌∷◌, map, arith,
}
use lambda_ciactions.Common.Tests.{Bool-cases}
use lambda_ciactions.Common.Lists.{In, Distinct, In-of_map, length, is_empty}
use lambda_ciactions.Common.Text.{
  Text, codes, trim, to_lower_case, normalize, normalize-trim, trim_idem, has_substring,
  is_nonempty, is_member, is_member_iff,
}
use lambda_ciactions.Shared.Types.{RepoMode}
use lambda_ciactions.Ingest.Adopt.{incompatible_runner_label, decide_claim}
use lambda_ciactions.Ingest.Adopt.Normal.{IsServable, servable-incompatible, incompatible-none}
use lambda_ciactions.Ingest.Adopt.Claim.{decide_claim_iff}
use lambda_ciactions.Provision.Labels.{
  jit_labels_from, jit_runner_labels, mint_labels, mint, max_jit_labels,
}

-- A label that is not blank and holds no unresolved expression.
abbrev pub IsLiteral : Text → Type 0
IsLiteral raw = (is_nonempty (trim raw) ≡ true) × (has_substring (trim raw) (codes "${{") ≡ false)

-- Where an advertised label comes from.
abbrev pub FromJob : List Text → Text → Type 0
FromJob ls x = (raw : Text) × In raw ls × (trim raw ≡ x) × IsLiteral raw

later : {r x : Text} (ls : List Text) → FromJob ls x → FromJob (r ∷ ls) x
later ls (raw, m, e, lit) = (raw, inr m, e, lit)

from-FromJob : (seen ls : List Text) (x : Text) → In x (jit_labels_from seen ls) → FromJob ls x
unfolding jit_labels_from
from-FromJob seen [] x m = absurd m
from-FromJob seen (r ∷ ls) x m = elim (Bool-cases (is_nonempty (trim r))) [
  | inr blank ↦ later ls (from-FromJob seen ls x (rw blank at m))
  | inl full ↦ elim (Bool-cases (has_substring (trim r) (codes "${{"))) [
    | inl expr ↦ later ls (from-FromJob seen ls x (rw (full, expr) at m))
    | inr literal ↦ elim (Bool-cases (is_member (to_lower_case (trim r)) seen)) [
      | inl known ↦ later ls (from-FromJob seen ls x (rw (full, literal, known) at m))
      | inr new ↦
          elim (let k : (x ≡ trim r) ⊎ In x (jit_labels_from (to_lower_case (trim r) ∷ seen) ls) =
              rw (full, literal, new) at m in
            k) [
              | inl e ↦ (r, inl refl, sym e, (full, literal))
              | inr k ↦ later ls (from-FromJob (to_lower_case (trim r) ∷ seen) ls x k)
            ]
    ]
  ]
]

-- The key under which labels are told apart.
abbrev key : Text → Text
key raw = to_lower_case (trim raw)

abbrev keys_from : List Text → List Text → List Text
keys_from seen ls = map to_lower_case (jit_labels_from seen ls)

from-covers :
    (seen ls : List Text) (raw : Text)
    → In raw ls
    → IsLiteral raw
    → In (key raw) seen ⊎ In (key raw) (keys_from seen ls)
unfolding jit_labels_from
from-covers seen [] raw m lit = absurd m
from-covers seen (r ∷ ls) raw (inl e) lit = here (rw e at lit)
  where
    here : IsLiteral r → In (key raw) seen ⊎ In (key raw) (keys_from seen (r ∷ ls))
    here (full, literal) = elim (Bool-cases (is_member (key r) seen)) [
      | inl known ↦ inl (rw e ((is_member_iff (key r) seen).0 known))
      | inr new ↦ inr (rw (full, literal, new) (inl (ap key e)))
    ]
from-covers seen (r ∷ ls) raw (inr m) lit = ground (
  arith,
  from-covers seen ls raw m lit,
  from-covers (key r ∷ seen) ls raw m lit,
  is_member_iff (key r) seen,
)

from-Distinct :
    (seen ls : List Text)
    → Distinct (keys_from seen ls) × ((k : Text) → In k seen → ¬ In k (keys_from seen ls))
unfolding jit_labels_from
from-Distinct seen [] = (tt, λ k m n. n)
from-Distinct seen (r ∷ ls) = elim (Bool-cases (is_nonempty (trim r))) [
  | inr blank ↦ rw blank (from-Distinct seen ls)
  | inl full ↦ elim (Bool-cases (has_substring (trim r) (codes "${{"))) [
    | inl expr ↦ rw (full, expr) (from-Distinct seen ls)
    | inr literal ↦ elim (Bool-cases (is_member (key r) seen)) [
      | inl known ↦ rw (full, literal, known) (from-Distinct seen ls)
      | inr new ↦
          let (d, apart) = from-Distinct (key r ∷ seen) ls in
          rw (full, literal, new)
            (
              (apart (key r) (inl refl), d),
              λ k m n. elim n [
                | inl e ↦ cc (new, (is_member_iff (key r) seen).1 (rw e at m))
                | inr later ↦ apart k (inr m) later
              ],
            )
    ]
  ]
]

advertised : (x r raw : Text) → trim r ≡ x → key raw ≡ to_lower_case x → normalize x ≡ normalize raw
unfolding normalize
advertised x r raw trimmed e =
    ap to_lower_case (ap trim (sym trimmed) ∙ (trim_idem r ∙ trimmed)) ∙ sym e

-- The advertised labels are the job's literal labels, trimmed, each once up to case.
pub jit_runner_labels_lem :
    (ls : List Text)
    → Distinct (map to_lower_case (jit_runner_labels ls))
      × ((x : Text) → In x (jit_runner_labels ls) → FromJob ls x)
      × ((raw : Text)
          → In raw ls
          → IsLiteral raw
          → (x : Text) × In x (jit_runner_labels ls) × (normalize x ≡ normalize raw))
unfolding jit_runner_labels
jit_runner_labels_lem ls = (
  (from-Distinct [] ls).0,
  from-FromJob [] ls,
  λ raw m lit. elim (from-covers [] ls raw m lit) [
    | inl none_seen ↦ absurd none_seen
    | inr k ↦
        let (x, inside, e) = In-of_map to_lower_case (key raw) (jit_labels_from [] ls) k in
        let (r, _, trimmed, _) = from-FromJob [] ls x inside in
        (x, inside, advertised x r raw trimmed e)
  ],
)

jit-servable :
    (ls : List Text)
    → ((l : Text) → In l ls → IsServable l)
    → incompatible_runner_label (jit_runner_labels ls) ≡ none
jit-servable ls h = servable-incompatible (jit_runner_labels ls) λ x m.
    let (raw, k, e, _) = (jit_runner_labels_lem ls).1 x m in
    rw (← e) (rw (normalize-trim raw) (h raw k))

nonempty_of_In : {A : Type 0} (xs : List A) (x : A) → In x xs → is_empty xs ≡ false
nonempty_of_In [] x m = absurd m
nonempty_of_In (y ∷ ys) x m = refl

-- A claimed job with a literal label and at most twenty distinct ones passes every guard in front of
-- the mint, which then carries all its literal labels.
pub decide_claim-mint_labels :
    (labels claimed_labels : List Text) (mode : Option RepoMode) (l : Text)
    → (decide_claim labels claimed_labels mode).claim ≡ true
    → In l labels
    → IsLiteral l
    → length (jit_runner_labels labels) ≤ max_jit_labels
    → mint_labels labels ≡ mint (jit_runner_labels labels)
unfolding mint_labels
decide_claim-mint_labels labels claimed_labels mode l claims m lit few =
    let servable = ((decide_claim_iff labels claimed_labels mode).0 claims).0 in
    let (x, inside, _) = (jit_runner_labels_lem labels).2 l m lit in
    ground (arith, jit-servable labels servable, nonempty_of_In (jit_runner_labels labels) x inside)

-- What passes the guards has between one and twenty labels, all servable, and misses no literal label
-- of the job.
pub mint_labels-mint :
    (labels out : List Text)
    → mint_labels labels ≡ mint out
    → (is_empty out ≡ false)
      × (length out ≤ max_jit_labels)
      × ((x : Text) → In x out → IsServable x)
      × ((raw : Text)
          → In raw labels
          → IsLiteral raw
          → (x : Text) × In x out × (normalize x ≡ normalize raw))
unfolding mint_labels
mint_labels-mint labels out h =
    let same : jit_runner_labels labels ≡ out = ground arith in
    let clean : incompatible_runner_label (jit_runner_labels labels) ≡ none = ground arith in
    (
      ground arith,
      ground arith,
      rw same at (incompatible-none (jit_runner_labels labels) clean),
      rw same at ((jit_runner_labels_lem labels).2),
    )
