-- ===== src/Hook/Logged.antt =====
-- What a caller can write into the log of the control plane.
use lambda_ciactions.Common.{
  ℕ, zero, suc, ◌≤◌, ◌≡◌, refl, arith, ap, inl, inr, ◌⊎◌, [], ◌∷◌, ◌++◌, map,
}
use lambda_ciactions.Common.Tests.{Bool-cases, ltb}
use lambda_ciactions.Common.Lists.{In, length, In-append, In-of_map}
use lambda_ciactions.Common.Text.{Text}
use lambda_ciactions.Hook.{safe_for_log, printable, take, ellipsis}

take-In : (n : ℕ) (s : Text) (c : ℕ) → In c (take n s) → In c s
unfolding take
take-In zero s c m = absurd m
take-In (suc n) [] c m = absurd m
take-In (suc n) (d ∷ s) c (inl e) = inl e
take-In (suc n) (d ∷ s) c (inr m) = inr (take-In n s c m)

length-take : (n : ℕ) (s : Text) → length (take n s) ≤ n
unfolding take
length-take zero s = ground arith
length-take (suc n) [] = ground arith
length-take (suc n) (d ∷ s) = let h = length-take n s in ground arith

length-snoc : (s : Text) (c : ℕ) → length (s ++ (c ∷ [])) ≡ suc (length s)
length-snoc [] c = refl
length-snoc (d ∷ s) c = ap suc (length-snoc s c)

printable_range : (c : ℕ) → (32 ≤ printable c) × (printable c ≤ 126)
printable_range c = ground arith

clean_range : (s : Text) (c : ℕ) → In c (map printable s) → (32 ≤ c) × (c ≤ 126)
clean_range s c m = let (d, i, e) = In-of_map printable c s m in rw e (printable_range d)

-- A text made safe for the log has at most one unit more than the limit, and every unit of it is a
-- printable ASCII character or the ellipsis: no line break, so no forged record.
pub safe_for_log_lem :
    (s : Text) (max : ℕ)
    → (length (safe_for_log s max) ≤ suc max)
      × ((c : ℕ) → In c (safe_for_log s max) → ((32 ≤ c) × (c ≤ 126)) ⊎ (c ≡ 8230))
unfolding safe_for_log
safe_for_log_lem s max = elim (Bool-cases (ltb max (length (map printable s)))) [
  | inl e ↦ rw e (
    let h = length-take max (map printable s) in
        let k = length-snoc (take max (map printable s)) 8230 in ground arith,
    λ c m. elim (In-append c (take max (map printable s)) ellipsis m) [
      | inl kept ↦ inl (clean_range s c (take-In max (map printable s) c kept))
      | inr (inl same) ↦ inr same
      | inr (inr nothing) ↦ absurd nothing
    ],
  )
  | inr e ↦ rw e (ground arith, λ c m. inl (clean_range s c m))
]
