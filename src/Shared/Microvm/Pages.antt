-- ===== src/Shared/Microvm/Pages.antt =====
-- The loop over the pages of live VMs ends with the last page.
use lambda_ciactions.Common.{
  ℕ, zero, suc, ◌≤◌, ◌≡◌, refl, arith, Option, none, some, List, [], ◌++◌,
}
use mathlib.Core.List.{append_assoc}
use lambda_ciactions.Common.Text.{Text}
use lambda_ciactions.Shared.Microvm.{Page, truthy, list_from, list_micro_vms}

-- The pages that the service has from a token on, and their items, in order.
pub data Pages {Vm : Type 0} (list : Option Text → Option (Page Vm))
    : Option Text → ℕ → List Vm → Type 0 where
  last :
      {token : Option Text} (page : Page Vm)
      → list token ≡ some page
      → truthy page.next_token ≡ none
      → Pages list token 1 page.items
  more :
      {token : Option Text} {n : ℕ} {rest : List Vm} (page : Page Vm) (next : Text)
      → list token ≡ some page
      → truthy page.next_token ≡ some next
      → Pages list (some next) n rest
      → Pages list token (suc n) (page.items ++ rest)

module _ {Vm : Type 0} (list : Option Text → Option (Page Vm)) where
  list_from-Pages :
      (token : Option Text) (n fuel : ℕ) (items out : List Vm)
      → Pages list token n items
      → n ≤ fuel
      → list_from list fuel token out ≡ some (some (out ++ items))
  unfolding list_from
  list_from-Pages token n zero items out (last page e t) l = absurd (omega arith)
  list_from-Pages token n (suc fuel) items out (last page e t) l = rw (e, list_from) (rw t refl)
  list_from-Pages token n zero items out (more page next e t rest) l = absurd (omega arith)
  list_from-Pages token n (suc fuel) items out (more {n = m} {rest = tail} page next e t rest) l =
      rw (e, list_from)
        (rw (t, ← append_assoc out page.items tail)
          (list_from-Pages (some next) m fuel tail (out ++ page.items) rest (omega arith)))

  -- Where the service has finitely many pages, the listing ends after one request for each of them
  -- and returns all their items, in order.
  pub list_micro_vms-Pages :
      (n fuel : ℕ) (items : List Vm)
      → Pages list none n items
      → n ≤ fuel
      → list_micro_vms list fuel ≡ some (some items)
  unfolding list_micro_vms
  list_micro_vms-Pages n fuel items p l = list_from-Pages none n fuel items [] p l
