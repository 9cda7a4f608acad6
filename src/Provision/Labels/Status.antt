-- ===== src/Provision/Labels/Status.antt =====
-- Which HTTP status a message of `classifyMintFailure` carries: that of the first `HTTP` with three
-- digits.
use lambda_ciactions.Common.{
  ℕ, ◌+◌, ◌-◌, ◌*◌, ◌≤◌, ◌≡◌, ◌⊎◌, refl, sym, ap, subst, ◌∙◌, inl, inr, true, none, some, [], ◌∷◌,
  ◌++◌, arith,
}
use lambda_ciactions.Common.Tests.{Option-cases}
use lambda_ciactions.Common.Lists.{length}
use lambda_ciactions.Common.Text.{Text, codes, starts_with, starts_with-split}
use lambda_ciactions.Provision.Labels.{is_digit, status_here, http_status}

-- The text begins with `HTTP` and the three digits of a code.
pub record Begins (s : Text) (code : ℕ) : Type 0 where
  pub x : ℕ
  pub y : ℕ
  pub z : ℕ
  pub rest : Text
  pub text : s ≡ codes "HTTP " ++ (x ∷ y ∷ z ∷ rest)
  pub digits : (is_digit x ≡ true) × (is_digit y ≡ true) × (is_digit z ≡ true)
  pub value : code ≡ (x - b'0') * 100 + (y - b'0') * 10 + (z - b'0')

-- It stands behind a part of the text.
abbrev pub OccursAt : Text → Text → ℕ → Type 0
OccursAt s before code = (b : Text) × (s ≡ before ++ b) × Begins b code

-- The first such code of a text.
abbrev pub IsStatus : Text → ℕ → Type 0
IsStatus s code =
    (a : Text) × OccursAt s a code
    × ((other : Text) (n : ℕ) → OccursAt s other n → length a ≤ length other)

abbrev pub HasNoStatus : Text → Type 0
HasNoStatus s = (a : Text) (code : ℕ) → OccursAt s a code → ⊥

-- Five units that begin with `HTTP` and a blank are these.
whole :
    (a b c d e : ℕ) (t rest : Text)
    → a ∷ b ∷ c ∷ d ∷ e ∷ [] ≡ codes "HTTP " ++ t
    → a ∷ b ∷ c ∷ d ∷ e ∷ rest ≡ codes "HTTP " ++ rest
whole a b c d e t rest h = cc

status_here-Begins : (s : Text) (code : ℕ) → status_here s ≡ some code → Begins s code
unfolding status_here starts_with
status_here-Begins (a ∷ b ∷ c ∷ d ∷ e ∷ x ∷ y ∷ z ∷ s) code h =
    let (word, dx, dy, dz, v) : (starts_with (a ∷ b ∷ c ∷ d ∷ e ∷ []) (codes "HTTP ") ≡ true)
        × (is_digit x ≡ true)
        × (is_digit y ≡ true)
        × (is_digit z ≡ true)
        × (code ≡ (x - b'0') * 100 + (y - b'0') * 10 + (z - b'0')) =
      ground arith in
    let (t, same) = starts_with-split (a ∷ b ∷ c ∷ d ∷ e ∷ []) (codes "HTTP ") word in
    record {
      x = x;
      y = y;
      z = z;
      rest = s;
      text = whole a b c d e t (x ∷ y ∷ z ∷ s) same;
      digits = (dx, dy, dz);
      value = v;
    }
status_here-Begins _ code h = ground arith

Begins-status_here : (s : Text) (code : ℕ) → Begins s code → status_here s ≡ some code
unfolding status_here starts_with
Begins-status_here s code b =
    let (dx, dy, dz) = b.digits in ap status_here b.text ∙ rw (dx, dy, dz) (ap some (sym b.value))

-- An occurrence in a longer text is at its start or in the rest.
OccursAt-cons :
    (c : ℕ) (s a : Text) (code : ℕ)
    → OccursAt (c ∷ s) a code
    → Begins (c ∷ s) code ⊎ ((a' : Text) × (a ≡ c ∷ a') × OccursAt s a' code)
OccursAt-cons c s [] code (b, e, g) = inl (subst (λ x. Begins x code) (sym e) g)
OccursAt-cons c s (d ∷ a) code (b, e, g) = inr (a, cc, (b, cc, g))

OccursAt-later : (c : ℕ) (s a : Text) (code : ℕ) → OccursAt s a code → OccursAt (c ∷ s) (c ∷ a) code
OccursAt-later c s a code (b, e, g) = (b, ap (λ x. c ∷ x) e, g)

OccursAt-nil : (a : Text) (code : ℕ) → OccursAt [] a code → ⊥
OccursAt-nil [] code (b, e, g) = let k = e ∙ g.text in cc
OccursAt-nil (c ∷ a) code (b, e, g) = cc

pub http_status-none : (s : Text) → http_status s ≡ none → HasNoStatus s
unfolding http_status
http_status-none [] h a code o = OccursAt-nil a code o
http_status-none (c ∷ s) h a code o = elim (OccursAt-cons c s a code o) [
  | inl first ↦ let k = Begins-status_here (c ∷ s) code first in ground arith
  | inr (rest, e, later) ↦
      let quiet : http_status s ≡ none = ground arith in http_status-none s quiet rest code later
]

pub http_status-some : (s : Text) (code : ℕ) → http_status s ≡ some code → IsStatus s code
unfolding http_status
http_status-some [] code h = ground arith
http_status-some (c ∷ s) code h = elim (Option-cases (status_here (c ∷ s))) [
  | inr (n, e) ↦
      let same : n ≡ code = ground arith in
      (
        [],
        (c ∷ s, refl, status_here-Begins (c ∷ s) code (e ∙ ap some same)),
        λ other m o. omega arith,
      )
  | inl e ↦
      let later : http_status s ≡ some code = ground arith in
      let (a, o, first) = http_status-some s code later in
      (
        c ∷ a,
        OccursAt-later c s a code o,
        λ other m k. elim (OccursAt-cons c s other m k) [
          | inl here ↦ let found = Begins-status_here (c ∷ s) m here in ground arith
          | inr (rest, same, behind) ↦
              let le = first rest m behind in
              let up : length (c ∷ a) ≤ length (c ∷ rest) = omega arith in
              subst (λ x. length (c ∷ a) ≤ length x) (sym same) up
        ],
      )
]

-- A first occurrence that is not at the start is one of the rest.
IsStatus-tail :
    (c : ℕ) (s : Text) (code : ℕ)
    → status_here (c ∷ s) ≡ none
    → IsStatus (c ∷ s) code
    → IsStatus s code
IsStatus-tail c s code quiet (a, o, first) = elim (OccursAt-cons c s a code o) [
  | inl here ↦ let k = Begins-status_here (c ∷ s) code here in ground arith
  | inr (rest, same, later) ↦ (
    rest,
    later,
    λ other m k.
        let le = first (c ∷ other) m (OccursAt-later c s other m k) in
        let up : length (c ∷ rest) ≤ length (c ∷ other) =
          subst (λ x. length x ≤ length (c ∷ other)) same le in
        omega arith,
  )
]

-- Where a code begins the text, it is the first one.
IsStatus-here :
    (c : ℕ) (s : Text) (n code : ℕ)
    → status_here (c ∷ s) ≡ some n
    → IsStatus (c ∷ s) code
    → n ≡ code
IsStatus-here c s n code e (a, o, first) =
    let short : length a ≤ 0 = first [] n (c ∷ s, refl, status_here-Begins (c ∷ s) n e) in
    elim (OccursAt-cons c s a code o) [
      | inl here ↦ let k = Begins-status_here (c ∷ s) code here in ground arith
      | inr (rest, same, later) ↦
          let long : length (c ∷ rest) ≤ 0 = subst (λ x. length x ≤ 0) same short in
          absurd (omega arith)
    ]

pub http_status-IsStatus : (s : Text) (code : ℕ) → IsStatus s code → http_status s ≡ some code
unfolding http_status
http_status-IsStatus [] code (a, o, first) = absurd (OccursAt-nil a code o)
http_status-IsStatus (c ∷ s) code first = elim (Option-cases (status_here (c ∷ s))) [
  | inr (n, e) ↦ rw (e, http_status) (ap some (IsStatus-here c s n code e first))
  | inl e ↦ rw (e, http_status) (http_status-IsStatus s code (IsStatus-tail c s code e first))
]

pub http_status-HasNoStatus : (s : Text) → HasNoStatus s → http_status s ≡ none
http_status-HasNoStatus s quiet = elim (Option-cases (http_status s)) [
  | inl e ↦ e
  | inr (code, e) ↦ let (a, o, first) = http_status-some s code e in absurd (quiet a code o)
]
