-- ===== src/Mgmt/Paging.antt =====
-- src/mgmt/paging.ts: pages of visible rows. The query of a page and the filter are parameters.
use lambda_ciactions.Common.{
  ℕ, zero, suc, ◌≤◌, ◌≡◌, refl, Bool, true, ◌||◌, not, arith, ap, sym, ◌∙◌, inl, inr, ◌⊎◌, Option,
  none, some, List, [], ◌∷◌, ◌++◌,
}
use mathlib.Core.List.{append_assoc, append-nil}
use lambda_ciactions.Common.Tests.{if◌then◌else◌, Bool-cases, leb}
use lambda_ciactions.Common.Lists.{length}
use lambda_ciactions.Common.Text.{Text, is_nonempty}

abbrev pub max_filter_pages : ℕ
max_filter_pages = 5

pub record Page (A : Type 0) : Type 0 where
  pub runs : List A
  pub next_cursor : Option Text

-- `!cursor`
abbrev pub is_exhausted : Option Text → Bool
is_exhausted none = true
is_exhausted (some c) = not (is_nonempty c)

module _ {A : Type 0} (fetch_page : Option Text → Page A) (visible : List A → List A) where
  -- The loop of `collectVisible`: the pages left, the rows so far, the cursor.
  unfoldable pub collect_from : ℕ → ℕ → List A → Option Text → Page A
  collect_from limit zero out cursor = record { runs = out; next_cursor = cursor }
  collect_from limit (suc pages) out cursor =
      let res = fetch_page cursor in
      let rows = out ++ visible res.runs in
      let rest = collect_from limit pages rows res.next_cursor in
      if is_exhausted res.next_cursor || leb limit (length rows)
      then record { runs = rows; next_cursor = res.next_cursor }
      else rest

  unfoldable pub collect_visible : ℕ → Option Text → ℕ → Page A
  unfolding collect_from
  collect_visible limit start_cursor max_pages = collect_from limit max_pages [] start_cursor

  -- The pages of the index from one cursor to another.
  pub data Walk : Option Text → List (List A) → Option Text → Type 0 where
    here : {c : Option Text} → Walk c [] c
    next :
        (c : Option Text) {pages : List (List A)} {d : Option Text}
        → Walk (fetch_page c).next_cursor pages d
        → Walk c ((fetch_page c).runs ∷ pages) d

  -- The visible rows of some pages.
  abbrev pub visible_rows : List (List A) → List A
  visible_rows [] = []
  visible_rows (rows ∷ pages) = visible rows ++ visible_rows pages

  collect_from_lem :
      (limit budget : ℕ) (out : List A) (cursor : Option Text)
      → let res = collect_from limit budget out cursor in
        (pages : List (List A)) × Walk cursor pages res.next_cursor
        × (res.runs ≡ out ++ visible_rows pages)
        × (length pages ≤ budget)
        × ((is_exhausted res.next_cursor ≡ true)
            ⊎ ((limit ≤ length res.runs) ⊎ (length pages ≡ budget)))
  unfolding collect_from
  collect_from_lem limit zero out cursor =
      ([], here, sym (append-nil out), ground arith, inr (inr refl))
  collect_from_lem limit (suc budget) out cursor =
      let res = fetch_page cursor in
      let rows = out ++ visible res.runs in
      elim (Bool-cases (is_exhausted res.next_cursor || leb limit (length rows))) [
        | inl e ↦ rw e (
          res.runs ∷ [],
          next cursor here,
          ap (λ r. out ++ r) (sym (append-nil (visible res.runs))),
          ground arith,
          ground arith,
        )
        | inr e ↦
            let (pages, walk, same, few, why) =
              collect_from_lem limit budget rows res.next_cursor in
            rw e (
              res.runs ∷ pages,
              next cursor walk,
              same ∙ append_assoc out (visible res.runs) (visible_rows pages),
              ground arith,
              ground arith,
            )
      ]

  -- A request returns every visible row of the pages from its cursor to the cursor that it hands back,
  -- in order, and it stops only where the index ends, the limit is met or the budget is spent.
  pub collect_visible_lem :
      (limit : ℕ) (start_cursor : Option Text) (max_pages : ℕ)
      → let res = collect_visible limit start_cursor max_pages in
        (pages : List (List A)) × Walk start_cursor pages res.next_cursor
        × (res.runs ≡ visible_rows pages)
        × (length pages ≤ max_pages)
        × ((is_exhausted res.next_cursor ≡ true)
            ⊎ ((limit ≤ length res.runs) ⊎ (length pages ≡ max_pages)))
  unfolding collect_visible
  collect_visible_lem limit start_cursor max_pages =
      collect_from_lem limit max_pages [] start_cursor
