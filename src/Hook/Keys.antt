-- ===== src/Hook/Keys.antt =====
-- The reference that a VM is given addresses the partition of its own run and no other.
use lambda_ciactions.Common.{
  ℕ, zero, suc, ◌≡◌, refl, true, false, arith, ap, ◌∙◌, some, [], ◌∷◌, ◌++◌,
}
use mathlib.Core.List.{append_assoc, append-nil}
use lambda_ciactions.Common.Tests.{◌==◌}
use lambda_ciactions.Common.Text.{
  Text, codes, decimal, is_digit, IsDigits, decimal-IsDigits, decimal-injective, decimal_parts,
}
use lambda_ciactions.Shared.RunStore.{run_pk, jit_config_ref, hash, jitconfig_sk}
use lambda_ciactions.Hook.{
  before, jit_separator, keys_from_ref, drop_digits, after_id, is_broker_ref,
}

before-digits :
    (d s : Text) → IsDigits d → before jit_separator (d ++ s) ≡ d ++ before jit_separator s
unfolding before
before-digits [] s h = refl
before-digits (c ∷ d) s (h, hs) = let ih = before-digits d s hs in ground arith

digit_not_j : (c : ℕ) → is_digit c ≡ true → (c == b'J') ≡ false
digit_not_j c h = ground arith

before_hash :
    (c : ℕ) (t : Text)
    → is_digit c ≡ true
    → before jit_separator (b'#' ∷ c ∷ t) ≡ b'#' ∷ before jit_separator (c ∷ t)
unfolding before
before_hash c t h = rw (digit_not_j c h) refl

-- A segment of the key is no separator.
before_id :
    (n : ℕ) (s : Text)
    → before jit_separator (hash ++ (decimal n ++ s))
      ≡ hash ++ (decimal n ++ before jit_separator s)
before_id n s =
    let (c, d, e, h, hs) = decimal_parts n in
    rw e (before_hash c (d ++ s) h ∙ ap (λ r. b'#' ∷ r) (before-digits (c ∷ d) s (h, hs)))

before_run :
    (s : Text)
    → before jit_separator (codes "RUN" ++ (hash ++ s))
      ≡ codes "RUN" ++ before jit_separator (hash ++ s)
unfolding before
before_run s = refl

before_separator : before jit_separator jit_separator ≡ []
unfolding before
before_separator = refl

-- The reference of a run, its segments one by one.
ref_segments :
    (a b c : ℕ)
    → jit_config_ref a b c
      ≡ codes "RUN"
        ++ (hash ++ (decimal a ++ (hash ++ (decimal b ++ (hash ++ (decimal c ++ jit_separator))))))
unfolding jit_config_ref run_pk
ref_segments a b c = simp (append_assoc (decimal a), append_assoc (decimal b))

pk_segments :
    (a b c : ℕ)
    → run_pk a b c
      ≡ codes "RUN" ++ (hash ++ (decimal a ++ (hash ++ (decimal b ++ (hash ++ (decimal c ++ []))))))
unfolding run_pk
pk_segments a b c = rw (append-nil (decimal c)) refl

-- The partition derived from the reference that is made for a run is the key of that run.
pub keys_from_ref-jit_config_ref :
    (repo_id run_id job_id : ℕ)
    → (keys_from_ref (jit_config_ref repo_id run_id job_id)).pk ≡ run_pk repo_id run_id job_id
unfolding keys_from_ref
keys_from_ref-jit_config_ref a b c =
    let from_c = hash ++ (decimal c ++ jit_separator) in
    let from_b = hash ++ (decimal b ++ from_c) in
    rw (ref_segments a b c, pk_segments a b c)
      (before_run (decimal a ++ from_b)
        ∙ ap (λ r. codes "RUN" ++ r)
            (before_id a from_b
              ∙ ap (λ r. hash ++ (decimal a ++ r))
                  (before_id b from_c
                    ∙ ap (λ r. hash ++ (decimal b ++ r))
                        (before_id c jit_separator
                          ∙ ap (λ r. hash ++ (decimal c ++ r)) before_separator))))

drop_digits-digits : (d s : Text) → IsDigits d → drop_digits (d ++ (b'#' ∷ s)) ≡ b'#' ∷ s
unfolding drop_digits
drop_digits-digits [] s h = refl
drop_digits-digits (c ∷ d) s (h, hs) = let ih = drop_digits-digits d s hs in rw (h, ih) refl

after_id-decimal :
    (n : ℕ) (s : Text) → after_id (hash ++ (decimal n ++ (b'#' ∷ s))) ≡ some (b'#' ∷ s)
unfolding after_id
after_id-decimal n s =
    let (c, d, e, h, hs) = decimal_parts n in rw (e, h) (ap some (drop_digits-digits d s hs))

-- The reference that is made for a run is one that the broker serves.
pub is_broker_ref-jit_config_ref :
    (repo_id run_id job_id : ℕ) → is_broker_ref (jit_config_ref repo_id run_id job_id) ≡ true
unfolding is_broker_ref
is_broker_ref-jit_config_ref a b c =
    let from_c = hash ++ (decimal c ++ jit_separator) in
    let from_b = hash ++ (decimal b ++ from_c) in
    rw
      (
        ref_segments a b c,
        after_id-decimal a (decimal b ++ from_c),
        after_id-decimal b (decimal c ++ jit_separator),
        after_id-decimal c jitconfig_sk,
      )
      refl

drop_units : ℕ → Text → Text
drop_units zero s = s
drop_units (suc n) [] = []
drop_units (suc n) (c ∷ s) = drop_units n s

-- Digits up to the first separator are read back.
digits_split :
    (d d' s s' : Text)
    → IsDigits d
    → IsDigits d'
    → d ++ (b'#' ∷ s) ≡ d' ++ (b'#' ∷ s')
    → (d ≡ d') × (s ≡ s')
digits_split [] [] s s' h h' e = (refl, ground arith)
digits_split [] (c ∷ d') s s' h (k, ks) e = ground arith
digits_split (c ∷ d) [] s s' (h, hs) h' e = ground arith
digits_split (c ∷ d) (c' ∷ d') s s' (h, hs) (k, ks) e =
    let (x, y) = digits_split d d' s s' hs ks (ground arith) in (ground arith, y)

-- Two runs with the same key are the same run.
pub run_pk-injective :
    (a b c a' b' c' : ℕ) → run_pk a b c ≡ run_pk a' b' c' → (a ≡ a') × (b ≡ b') × (c ≡ c')
unfolding run_pk drop_units
run_pk-injective a b c a' b' c' e =
    let (x, rest) =
      digits_split (decimal a) (decimal a') (decimal b ++ (hash ++ decimal c))
        (decimal b' ++ (hash ++ decimal c')) (decimal-IsDigits a) (decimal-IsDigits a')
        (ap (drop_units 4) e) in
    let (y, z) =
      digits_split (decimal b) (decimal b') (decimal c) (decimal c') (decimal-IsDigits b)
        (decimal-IsDigits b') rest in
    (decimal-injective a a' x, decimal-injective b b' y, decimal-injective c c' z)
