-- ===== src/Mgmt/Router/Guarded.antt =====
-- src/mgmt/router.ts: which routes need a session.
use lambda_ciactions.Common.{
  ◌≡◌, refl, sym, ap, subst, ◌∙◌, ◌||◌, ◌⊎◌, inl, inr, Bool, true, false, Option, none, some, List,
  [], ◌∷◌, map,
}
use lambda_ciactions.Common.Tests.{Bool-cases, and_parts, or_cases}
use lambda_ciactions.Common.Lists.{In, all}
use lambda_ciactions.Common.Text.{Text, codes, text_eq, text_eq_iff, text_ops}
use lambda_ciactions.Mgmt.Router.{
  RouteDef, routes, Param, MatchResult, matched, split_path, param_name, match_segments,
  match_template, method_text, upper_unit, seen_with, here, answer, match_from, match_route,
}

-- A route without a session is under /auth.
abbrev pub leads_auth : List Text → Bool
leads_auth [] = false
leads_auth (t ∷ ts) = text_eq t (codes "auth")

abbrev pub is_guarded : RouteDef → Bool
is_guarded r = r.auth_required || leads_auth (split_path r.template)

routes-guarded : all is_guarded routes ≡ true
unfolding text_ops routes split_path
routes-guarded = refl

all-In :
    (rs : List RouteDef) (r : RouteDef) → all is_guarded rs ≡ true → In r rs → is_guarded r ≡ true
all-In [] r h m = absurd m
all-In (x ∷ xs) r h (inl e) = ap is_guarded e ∙ (and_parts _ _ h).0
all-In (x ∷ xs) r h (inr m) = all-In xs r (and_parts _ _ h).1 m

module _ (decode : Text → Option Text) where
  answer-matched :
      (seen : List RouteDef) (r : RouteDef) (params : List Param)
      → answer decode seen ≡ matched r params
      → ⊥
  answer-matched [] r params e = cc
  answer-matched (x ∷ xs) r params e = cc

  here-matched :
      (method : Text) (x r : RouteDef) (rest : MatchResult) (o : Option (List Param))
      (params : List Param)
      → here decode method x rest o ≡ matched r params
      → (rest ≡ matched r params)
        ⊎ ((x ≡ r)
            × (o ≡ some params)
            × (text_eq (method_text x.method) (map upper_unit method) ≡ true))
  here-matched method x r rest none params e = inl e
  here-matched method x r rest (some ps) params e =
      elim (Bool-cases (text_eq (method_text x.method) (map upper_unit method))) [
        | inl q ↦ let k : matched x ps ≡ matched r params = rw q at e in inr (cc, cc, q)
        | inr q ↦ inl (rw q at e)
      ]

  -- The route that is matched stands in the table, and has the path and the method.
  pub match_from-matched :
      (method : Text) (segments : List Text) (rs seen : List RouteDef) (r : RouteDef)
      (params : List Param)
      → match_from decode method segments rs seen ≡ matched r params
      → In r rs
        × (match_template decode r.template segments ≡ some params)
        × (text_eq (method_text r.method) (map upper_unit method) ≡ true)
  unfolding match_from
  match_from-matched method segments [] seen r params e = absurd (answer-matched seen r params e)
  match_from-matched method segments (x ∷ xs) seen r params e =
      let o = match_template decode x.template segments in
      elim (here-matched method x r
        (match_from decode method segments xs (seen_with decode x o seen)) o params e) [
          | inl later ↦
              let (m, q, t) =
                match_from-matched method segments xs (seen_with decode x o seen) r params later in
              (inr m, q, t)
          | inr found ↦
              let (same, q, t) = found in
              (
                inl (sym same),
                subst (λ y. match_template decode y.template segments ≡ some params) same q,
                subst (λ y. text_eq (method_text y.method) (map upper_unit method) ≡ true) same t,
              )
        ]

  -- A template under /auth fits no path under /api.
  leads_auth-apart :
      (ts ss : List Text) (params : List Param)
      → leads_auth ts ≡ true
      → match_segments decode ts (codes "api" ∷ ss) ≡ some params
      → ⊥
  unfolding text_ops param_name match_segments
  leads_auth-apart [] ss params h e = cc
  leads_auth-apart (t ∷ ts) ss params h e =
      let q : t ≡ codes "auth" = (text_eq_iff t (codes "auth")).0 h in
      let k : none ≡ some params =
        subst (λ x. match_segments decode (x ∷ ts) (codes "api" ∷ ss) ≡ some params) q e in
      cc

  -- A route that is matched for a path under /api asks for a session, whatever the method and the rest
  -- of the path.
  pub match_route-guarded :
      (method path : Text) (rest : List Text) (r : RouteDef) (params : List Param)
      → split_path path ≡ codes "api" ∷ rest
      → match_route decode method path ≡ matched r params
      → r.auth_required ≡ true
  unfolding match_route match_template
  match_route-guarded method path rest r params p e =
      let (m, q, t) = match_from-matched method (split_path path) routes [] r params e in
      let k : match_segments decode (split_path r.template) (codes "api" ∷ rest) ≡ some params =
        subst (λ x. match_segments decode (split_path r.template) x ≡ some params) p q in
      elim (or_cases r.auth_required (leads_auth (split_path r.template))
        (all-In routes r routes-guarded m)) [
          | inl guarded ↦ guarded
          | inr free ↦ absurd (leads_auth-apart (split_path r.template) rest params free k)
        ]
