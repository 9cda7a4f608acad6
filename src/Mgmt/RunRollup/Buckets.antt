-- ===== src/Mgmt/RunRollup/Buckets.antt =====
-- The buckets of `groupRuns`: each holds the rows of one run, and every row is in one.
use lambda_ciactions.Common.{
  ◌≡◌, refl, sym, ap, subst, ◌∙◌, ◌⊎◌, inl, inr, true, List, [], ◌∷◌, map, arith,
}
use lambda_ciactions.Common.Tests.{Bool-cases}
use lambda_ciactions.Common.Lists.{In, Distinct, In-append, In-append_left, In-append_right, In-map}
use lambda_ciactions.Common.Text.{Text, text_eq, text_eq_iff}
use lambda_ciactions.Mgmt.RunRollup.{RunJobRow}
use lambda_ciactions.Mgmt.RunRollup.Groups.{Bucket, key_of, rows_of, pushed, add_row, buckets_from}

-- Every row of a bucket has its key, and satisfies `P`.
abbrev pub Sound : (RunJobRow → Type 0) → List Bucket → Type 0
Sound P bs = (b : Bucket) → In b bs → (j : RunJobRow) → In j (rows_of b) → P j × (key_of j ≡ b.key)

-- Some bucket holds the row.
abbrev pub Held : RunJobRow → List Bucket → Type 0
Held j bs = (b : Bucket) × In b bs × In j (rows_of b)

abbrev pub keys : List Bucket → List Text
keys bs = map (λ b. b.key) bs

module _ (row : RunJobRow) where
  same_key : (c : Bucket) → text_eq c.key (key_of row) ≡ true → key_of row ≡ c.key
  same_key c e = sym ((text_eq_iff c.key (key_of row)).0 e)

  module _ (P : RunJobRow → Type 0) where
    pushed-Sound :
        (c : Bucket) (bs : List Bucket)
        → P row
        → key_of row ≡ c.key
        → Sound P (c ∷ bs)
        → Sound P (pushed row c ∷ bs)
    pushed-Sound c bs p e h b (inr m) j k = h b (inr m) j k
    pushed-Sound c bs p e h b (inl same) j l =
        let k : In j (rows_of (pushed row c)) = subst (λ x. In j (rows_of x)) same l in
        let q = ap (λ x. x.key) same in
        elim (In-append j (rows_of c) (row ∷ []) k) [
          | inl old ↦ let (x, y) = h c (inl refl) j old in (x, y ∙ sym q)
          | inr (inl new) ↦ (subst P (sym new) p, ap key_of new ∙ (e ∙ sym q))
          | inr (inr nothing) ↦ absurd nothing
        ]

    new-Sound : P row → Sound P (record { key = key_of row; first = row; more = [] } ∷ [])
    new-Sound p b (inl same) j k = elim (subst (λ x. In j (rows_of x)) same k) [
      | inl new ↦ (subst P (sym new) p, ap key_of new ∙ sym (ap (λ x. x.key) same))
      | inr nothing ↦ absurd nothing
    ]
    new-Sound p b (inr nothing) j k = absurd nothing

    add_row-Sound : (bs : List Bucket) → P row → Sound P bs → Sound P (add_row row bs)
    unfolding add_row
    add_row-Sound [] p h = new-Sound p
    add_row-Sound (c ∷ bs) p h =
        let ih = add_row-Sound bs p (λ b m. h b (inr m)) in
        elim (Bool-cases (text_eq c.key (key_of row))) [
          | inl e ↦ rw e (pushed-Sound c bs p (same_key c e) h)
          | inr e ↦ rw e λ b m. elim m [ inl same ↦ h b (inl same) | inr later ↦ ih b later ]
        ]

  add_row-Held : (j : RunJobRow) (bs : List Bucket) → Held j bs → Held j (add_row row bs)
  unfolding add_row
  add_row-Held j [] (b, m, k) = absurd m
  add_row-Held j (c ∷ bs) (b, m, k) = elim (Bool-cases (text_eq c.key (key_of row))) [
    | inl e ↦ rw e (elim m [
      | inl same ↦ (
        pushed row c,
        inl refl,
        In-append_left j (rows_of c) (row ∷ []) (subst (λ x. In j (rows_of x)) same k),
      )
      | inr later ↦ (b, inr later, k)
    ])
    | inr e ↦ rw e (elim m [
      | inl same ↦ (b, inl same, k)
      | inr later ↦ let (d, n, l) = add_row-Held j bs (b, later, k) in (d, inr n, l)
    ])
  ]

  add_row-Held_self : (bs : List Bucket) → Held row (add_row row bs)
  unfolding add_row
  add_row-Held_self [] = (_, inl refl, inl refl)
  add_row-Held_self (c ∷ bs) = elim (Bool-cases (text_eq c.key (key_of row))) [
    | inl e ↦ rw e (pushed row c, inl refl, In-append_right row (rows_of c) (row ∷ []) (inl refl))
    | inr e ↦ rw e (let (d, n, l) = add_row-Held_self bs in (d, inr n, l))
  ]

  add_row-keys :
      (k : Text) (bs : List Bucket)
      → In k (keys (add_row row bs))
      → In k (keys bs) ⊎ (k ≡ key_of row)
  unfolding add_row
  add_row-keys k [] = λ m. elim m [ inl e ↦ inr e | inr nothing ↦ absurd nothing ]
  add_row-keys k (c ∷ bs) = elim (Bool-cases (text_eq c.key (key_of row))) [
    | inl e ↦ rw e λ m. inl m
    | inr e ↦ rw e λ m. elim m [
      | inl same ↦ inl (inl same)
      | inr later ↦ elim (add_row-keys k bs later) [ inl old ↦ inl (inr old) | inr new ↦ inr new ]
    ]
  ]

  add_row-Distinct : (bs : List Bucket) → Distinct (keys bs) → Distinct (keys (add_row row bs))
  unfolding add_row
  add_row-Distinct [] d = (λ m. m, tt)
  add_row-Distinct (c ∷ bs) (fresh, d) =
      let ih = add_row-Distinct bs d in
      elim (Bool-cases (text_eq c.key (key_of row))) [
        | inl e ↦ rw e (fresh, d)
        | inr e ↦ rw e (
          λ m. elim (add_row-keys c.key bs m) [
            | inl old ↦ fresh old
            | inr new ↦ ground (arith, e, (text_eq_iff c.key (key_of row)).1 new)
          ],
          ih,
        )
      ]

pub buckets_from-Sound :
    (P : RunJobRow → Type 0) (rows : List RunJobRow) (bs : List Bucket)
    → ((j : RunJobRow) → In j rows → P j)
    → Sound P bs
    → Sound P (buckets_from rows bs)
unfolding buckets_from
buckets_from-Sound P [] bs p h = h
buckets_from-Sound P (row ∷ rows) bs p h =
    buckets_from-Sound P rows (add_row row bs) (λ j m. p j (inr m))
      (add_row-Sound row P bs (p row (inl refl)) h)

pub buckets_from-Held :
    (j : RunJobRow) (rows : List RunJobRow) (bs : List Bucket)
    → In j rows ⊎ Held j bs
    → Held j (buckets_from rows bs)
unfolding buckets_from
buckets_from-Held j [] bs (inl nothing) = absurd nothing
buckets_from-Held j [] bs (inr h) = h
buckets_from-Held j (row ∷ rows) bs (inl (inl e)) =
    buckets_from-Held j rows (add_row row bs)
      (inr (subst (λ x. Held x (add_row row bs)) (sym e) (add_row-Held_self row bs)))
buckets_from-Held j (row ∷ rows) bs (inl (inr m)) =
    buckets_from-Held j rows (add_row row bs) (inl m)
buckets_from-Held j (row ∷ rows) bs (inr h) =
    buckets_from-Held j rows (add_row row bs) (inr (add_row-Held row j bs h))

pub buckets_from-Distinct :
    (rows : List RunJobRow) (bs : List Bucket)
    → Distinct (keys bs)
    → Distinct (keys (buckets_from rows bs))
unfolding buckets_from
buckets_from-Distinct [] bs d = d
buckets_from-Distinct (row ∷ rows) bs d =
    buckets_from-Distinct rows (add_row row bs) (add_row-Distinct row bs d)

-- Two buckets with one key are the same.
pub Distinct-same :
    (bs : List Bucket) (b c : Bucket)
    → Distinct (keys bs)
    → In b bs
    → In c bs
    → b.key ≡ c.key
    → b ≡ c
Distinct-same [] b c d m n e = absurd m
Distinct-same (x ∷ bs) b c (fresh, d) (inl m) (inl n) e = m ∙ sym n
Distinct-same (x ∷ bs) b c (fresh, d) (inl m) (inr n) e =
    absurd (fresh (rw (sym (ap (λ y. y.key) m) ∙ e) (In-map (λ y. y.key) c bs n)))
Distinct-same (x ∷ bs) b c (fresh, d) (inr m) (inl n) e =
    absurd (fresh (rw (sym (ap (λ y. y.key) n) ∙ sym e) (In-map (λ y. y.key) b bs m)))
Distinct-same (x ∷ bs) b c (fresh, d) (inr m) (inr n) e = Distinct-same bs b c d m n e
