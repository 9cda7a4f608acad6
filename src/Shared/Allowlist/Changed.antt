-- ===== src/Shared/Allowlist/Changed.antt =====
-- The comparison of allowlists against the claim gate.
use lambda_ciactions.Common.{
  ◌≤◌, ◌≡◌, true, false, not, arith, ap, sym, ◌∙◌, inl, inr, ◌↔◌, Option, List, [], ◌∷◌,
}
use mathlib.Core.Path.{fun_ext}
use lambda_ciactions.Common.Tests.{if◌then◌else◌, Bool-cases, ◌==◌}
use lambda_ciactions.Common.Lists.{In, Distinct, any, find, length, any-false, any-eq-false}
use lambda_ciactions.Common.Text.{Text, normalize_all, is_member, is_member_iff}
use lambda_ciactions.Common.Subsets.{subset-length, subset_back}
use lambda_ciactions.Shared.Types.{RepoMode}
use lambda_ciactions.Ingest.Adopt.{decide_claim, decide_normalized}
use lambda_ciactions.Shared.Allowlist.{set_of, allowlist_changed}

set_of-In : (x : Text) (ls : List Text) → In x (set_of ls) ↔ In x ls
unfolding set_of
set_of-In x [] = (λ m. m, λ m. m)
set_of-In x (l ∷ ls) = elim (Bool-cases (is_member l ls)) [
  | inl e ↦ rw e (
    λ m. inr ((set_of-In x ls).0 m),
    λ m. elim m [
      | inl same ↦ (set_of-In x ls).1 (rw same ((is_member_iff l ls).0 e))
      | inr later ↦ (set_of-In x ls).1 later
    ],
  )
  | inr e ↦ rw e (
    λ m. elim m [ inl same ↦ inl same | inr later ↦ inr ((set_of-In x ls).0 later) ],
    λ m. elim m [ inl same ↦ inl same | inr later ↦ inr ((set_of-In x ls).1 later) ],
  )
]

set_of-Distinct : (ls : List Text) → Distinct (set_of ls)
unfolding set_of
set_of-Distinct [] = tt
set_of-Distinct (l ∷ ls) = elim (Bool-cases (is_member l ls)) [
  | inl e ↦ rw e (set_of-Distinct ls)
  | inr e ↦ rw e (
    λ m. let k = (is_member_iff l ls).1 ((set_of-In l ls).0 m) in ground arith,
    set_of-Distinct ls,
  )
]

-- The comparison of two sets without repeats.
compare_iff :
    (was now : List Text)
    → Distinct was
    → Distinct now
    → ((if not (length was == length now) then true else any (λ l. not (is_member l now)) was)
        ≡ false)
      ↔ ((x : Text) → In x was ↔ In x now)
compare_iff was now d e = (
  λ h.
      let sub : (x : Text) → In x was → In x now = λ x m.
        let k = any-false (λ l. not (is_member l now)) x was (ground arith) m in
        (is_member_iff x now).0 (ground arith) in
      let few : length now ≤ length was = ground arith in
      λ x. (sub x, subset_back was now d sub few x),
  λ same.
      let up = subset-length was now d (λ x m. (same x).0 m) in
      let down = subset-length now was e (λ x m. (same x).1 m) in
      let all_in =
        any-eq-false (λ l. not (is_member l now)) was
          (λ x m. let k = (is_member_iff x now).1 ((same x).0 m) in ground arith) in
      ground arith,
)

-- Where the live list was read, a change is reported exactly when some label stands, normalised, in
-- one of the lists only.
pub allowlist_changed_iff :
    (snapshot live : List Text)
    → (allowlist_changed snapshot live true ≡ false)
      ↔ ((x : Text) → In x (normalize_all snapshot) ↔ In x (normalize_all live))
unfolding allowlist_changed
allowlist_changed_iff snapshot live =
    let was = normalize_all snapshot in
    let now = normalize_all live in
    let (a, b) =
      compare_iff (set_of was) (set_of now) (set_of-Distinct was) (set_of-Distinct now) in
    (
      λ h x. (
        λ m. (set_of-In x now).0 ((a h x).0 ((set_of-In x was).1 m)),
        λ m. (set_of-In x was).0 ((a h x).1 ((set_of-In x now).1 m)),
      ),
      λ same. b (λ x. (
        λ m. (set_of-In x now).1 ((same x).0 ((set_of-In x was).0 m)),
        λ m. (set_of-In x was).1 ((same x).1 ((set_of-In x now).0 m)),
      )),
    )

is_member_congr :
    (x : Text) (was now : List Text)
    → ((y : Text) → In y was ↔ In y now)
    → is_member x was ≡ is_member x now
is_member_congr x was now same =
    let (a, b) = is_member_iff x was in
    let (c, d) = is_member_iff x now in
    elim (Bool-cases (is_member x was)) [
      | inl e ↦ e ∙ sym (d ((same x).0 (a e)))
      | inr e ↦ elim (Bool-cases (is_member x now)) [
        | inl f ↦ let k = b ((same x).1 (c f)) in ground arith
        | inr f ↦ e ∙ sym f
      ]
    ]

-- An allowlist that counts as unchanged decides every job as before.
pub allowlist_changed-decide_claim :
    (snapshot live job_labels : List Text) (mode : Option RepoMode)
    → allowlist_changed snapshot live true ≡ false
    → decide_claim job_labels live mode ≡ decide_claim job_labels snapshot mode
unfolding decide_claim decide_normalized
allowlist_changed-decide_claim snapshot live job_labels mode h =
    let same = (allowlist_changed_iff snapshot live).0 h in
    let tests : (λ l. is_member l (normalize_all snapshot))
        ≡ (λ l. is_member l (normalize_all live)) =
      fun_ext λ l. is_member_congr l (normalize_all snapshot) (normalize_all live) same in
    let found : find (λ l. is_member l (normalize_all snapshot)) (normalize_all job_labels)
        ≡ find (λ l. is_member l (normalize_all live)) (normalize_all job_labels) =
      ap (λ test. find test (normalize_all job_labels)) tests in
    ground arith
