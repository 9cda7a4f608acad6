-- ===== src/Mgmt/RunRollup/Partition.antt =====
-- src/mgmt/run-rollup.ts: grouping loses no row and mixes no runs.
use lambda_ciactions.Common.{
  ℕ, ◌≡◌, refl, sym, ap, subst, ◌∙◌, inl, Bool, ◌↔◌, List, [], ◌∷◌, ◌++◌, map, arith,
}
use lambda_ciactions.Common.Lists.{In, sort_by, In-sort_by, In-map, In-of_map}
use lambda_ciactions.Common.Sorting.{sort_by-In}
use lambda_ciactions.Common.Text.{Text, decimal, IsDigits, decimal-IsDigits, decimal-injective}
use lambda_ciactions.Mgmt.RunRollup.{RunJobRow, run_group_key}
use lambda_ciactions.Mgmt.RunRollup.Groups.{
  RunGroup, Bucket, key_of, rows_of, buckets_from, job_before, group_before, first_or, group_of,
  group_runs,
}
use lambda_ciactions.Mgmt.RunRollup.Buckets.{
  buckets_from-Sound, buckets_from-Held, buckets_from-Distinct, Distinct-same,
}

dash_not_digit : (t : Text) → IsDigits t → (s : Text) → t ≡ b'-' ∷ s → ⊥
dash_not_digit [] h s e = cc
dash_not_digit (c ∷ t) (h, hs) s e = let k : c ≡ b'-' = cc in ground arith

-- The digits in front of a dash, and what follows it, are those of one text.
split_at_dash :
    (s t u v : Text)
    → IsDigits s
    → IsDigits t
    → s ++ (b'-' ∷ u) ≡ t ++ (b'-' ∷ v)
    → (s ≡ t) × (u ≡ v)
split_at_dash [] [] u v h k e = (refl, cc)
split_at_dash [] (d ∷ t) u v h (k, ks) e = let q : d ≡ b'-' = cc in ground arith
split_at_dash (c ∷ s) [] u v (h, hs) k e = let q : c ≡ b'-' = cc in ground arith
split_at_dash (c ∷ s) (d ∷ t) u v (h, hs) (k, ks) e =
    let q : c ≡ d = cc in let (x, y) = split_at_dash s t u v hs ks cc in (cc, y)

pub run_group_key-injective :
    (a b a' b' : ℕ) → run_group_key a b ≡ run_group_key a' b' → (a ≡ a') × (b ≡ b')
unfolding run_group_key
run_group_key-injective a b a' b' e =
    let (x, y) =
      split_at_dash (decimal a) (decimal a') (decimal b) (decimal b') (decimal-IsDigits a)
        (decimal-IsDigits a') e in
    (decimal-injective a a' x, decimal-injective b b' y)

first_or-In : (d x : RunJobRow) (xs : List RunJobRow) → In x xs → In (first_or d xs) xs
first_or-In d x [] m = absurd m
first_or-In d x (y ∷ ys) m = inl refl

module _ (locale_le : Text → Text → Bool) (complete : Bool) (rows : List RunJobRow) where
  abbrev buckets : List Bucket
  buckets = buckets_from rows []

  sound :
      (b : Bucket)
      → In b buckets
      → (j : RunJobRow) → In j (rows_of b)
      → In j rows × (key_of j ≡ b.key)
  sound = buckets_from-Sound (λ j. In j rows) rows [] (λ j m. m) (λ b m. absurd m)

  abbrev group : Bucket → RunGroup
  group b = group_of locale_le complete b

  -- A group takes its run from one of its rows.
  group-key : (b : Bucket) → In b buckets → run_group_key (group b).repo_id (group b).run_id ≡ b.key
  group-key b m =
      let sorted = sort_by job_before (rows_of b) in
      let h =
        first_or-In b.first b.first sorted (sort_by-In job_before b.first (rows_of b) (inl refl)) in
      (sound b m (first_or b.first sorted) (In-sort_by job_before _ (rows_of b) h)).1

  group-jobs :
      (b : Bucket)
      → In b buckets
      → (j : RunJobRow)
      → In j (group b).jobs
        ↔ (In j rows × (j.repo_id ≡ (group b).repo_id) × (j.run_id ≡ (group b).run_id))
  group-jobs b m j = (
    λ k.
        let (x, e) = sound b m j (In-sort_by job_before j (rows_of b) k) in
        let (p, q) = run_group_key-injective j.repo_id j.run_id _ _ (e ∙ sym (group-key b m)) in
        (x, p, q),
    λ h.
        let (x, p, q) = h in
        let (c, n, l) = buckets_from-Held j rows [] (inl x) in
        let e : key_of j ≡ b.key =
          ap (λ r. run_group_key r j.run_id) p
          ∙ ap (λ r. run_group_key (group b).repo_id r) q
          ∙ group-key b m in
        let same : c ≡ b =
          Distinct-same buckets c b (buckets_from-Distinct rows [] tt) n m
            (sym (sound c n j l).1 ∙ e) in
        sort_by-In job_before j (rows_of b) (subst (λ y. In j (rows_of y)) same l),
  )

  group-same :
      (b c : Bucket)
      → In b buckets
      → In c buckets
      → (group b).repo_id ≡ (group c).repo_id
      → (group b).run_id ≡ (group c).run_id
      → b ≡ c
  group-same b c m n p q = Distinct-same buckets b c (buckets_from-Distinct rows [] tt) m n (
      sym (group-key b m)
      ∙ (ap (λ r. run_group_key r (group b).run_id) p
          ∙ (ap (λ r. run_group_key (group c).repo_id r) q ∙ group-key c n)))

  bucket_of :
      (g : RunGroup)
      → In g (group_runs locale_le complete rows)
      → (b : Bucket) × In b buckets × (g ≡ group b)
  unfolding group_runs
  bucket_of g m = In-of_map group g buckets (In-sort_by group_before g (map group buckets) m)

  -- Every row of the window is a job of some group, the jobs of a group are exactly the rows of the
  -- window with the repository and the run of the group, and groups of one run are the same.
  pub group_runs-partition :
      ((j : RunJobRow)
        → In j rows
        → (g : RunGroup) × In g (group_runs locale_le complete rows) × In j g.jobs)
      × ((g : RunGroup)
          → In g (group_runs locale_le complete rows)
          → (j : RunJobRow)
          → In j g.jobs ↔ (In j rows × (j.repo_id ≡ g.repo_id) × (j.run_id ≡ g.run_id)))
      × ((g h : RunGroup)
          → In g (group_runs locale_le complete rows)
          → In h (group_runs locale_le complete rows)
          → g.repo_id ≡ h.repo_id
          → g.run_id ≡ h.run_id
          → g ≡ h)
  unfolding group_runs
  group_runs-partition = (
    λ j m.
        let (b, n, l) = buckets_from-Held j rows [] (inl m) in
        (
          group b,
          sort_by-In group_before (group b) (map group buckets) (In-map group b buckets n),
          sort_by-In job_before j (rows_of b) l,
        ),
    λ g m.
        let (b, n, e) = bucket_of g m in
        subst
          (λ y.
            (j : RunJobRow)
            → In j y.jobs ↔ (In j rows × (j.repo_id ≡ y.repo_id) × (j.run_id ≡ y.run_id)))
          (sym e) (group-jobs b n),
    λ g h m n p q.
        let (b, k, e) = bucket_of g m in
        let (c, l, f) = bucket_of h n in
        let same : b ≡ c =
          group-same b c k l (sym (ap (λ y. y.repo_id) e) ∙ (p ∙ ap (λ y. y.repo_id) f))
            (sym (ap (λ y. y.run_id) e) ∙ (q ∙ ap (λ y. y.run_id) f)) in
        e ∙ (ap group same ∙ sym f),
  )
