-- ===== src/Shared/RunStore/InMemory.antt =====
-- A table in memory, which answers every write as DynamoDB documents it and never fails.
use lambda_ciactions.Common.{◌≡◌, ◌≢◌, refl, Bool, true, false, inl, inr, Option, some}
use lambda_ciactions.Common.Tests.{if◌then◌else◌, Bool-cases}
use lambda_ciactions.Common.Text.{Text, text_eq, text_eq_refl, text_eq_iff}
use lambda_ciactions.Shared.RunStore.{RunRow}
use lambda_ciactions.Shared.RunStore.Writes.{
  Dynamo, Outcome, Answers, done, refused, applied, condition_failed, is_absent, admits, updated,
}

abbrev pub Rows : Type 0
Rows = Text → Option RunRow

unfoldable pub with_row : Text → Option RunRow → Rows → Rows
with_row k r t other = if text_eq other k then r else t other

with_row-same : (k : Text) (r : Option RunRow) (t : Rows) → with_row k r t k ≡ r
unfolding with_row
with_row-same k r t = rw (text_eq_refl k) refl

with_row-other :
    (k other : Text) (r : Option RunRow) (t : Rows) → other ≢ k → with_row k r t other ≡ t other
unfolding with_row
with_row-other k other r t n = elim (Bool-cases (text_eq other k)) [
  | inl e ↦ absurd (n ((text_eq_iff other k).0 e))
  | inr e ↦ rw e refl
]

-- A write whose condition is `ok`.
unfoldable pub conditional : Bool → Text → Option RunRow → Rows → Rows × Outcome
conditional true k r t = (with_row k r t, applied)
conditional false k r t = (t, condition_failed)

pub conditional-Answers :
    (ok : Bool) (k : Text) (r : Option RunRow) (t : Rows)
    → Answers ok (t k) r (conditional ok k r t).1 ((conditional ok k r t).0 k)
unfolding conditional
conditional-Answers true k r t = rw (with_row-same k r t) (done refl)
conditional-Answers false k r t = refused refl

pub conditional-other :
    (ok : Bool) (k other : Text) (r : Option RunRow) (t : Rows)
    → other ≢ k
    → (conditional ok k r t).0 other ≡ t other
unfolding conditional
conditional-other true k other r t n = with_row-other k other r t n
conditional-other false k other r t n = refl

abbrev pub in_memory : Dynamo
in_memory = record {
  Table = Rows;
  get = λ k t. t k;
  put = λ k r t. conditional (is_absent (t k)) k (some r) t;
  update = λ k u t. conditional (admits u (t k)) k (updated u (t k)) t;
  put_answers = λ k r t. conditional-Answers (is_absent (t k)) k (some r) t;
  put_other = λ k other r t n. conditional-other (is_absent (t k)) k other (some r) t n;
  update_answers = λ k u t. conditional-Answers (admits u (t k)) k (updated u (t k)) t;
  update_other = λ k other u t n. conditional-other (admits u (t k)) k other (updated u (t k)) t n;
}
