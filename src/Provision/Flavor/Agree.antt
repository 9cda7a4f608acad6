-- ===== src/Provision/Flavor/Agree.antt =====
-- Catalogs that answer alike resolve alike.
use lambda_ciactions.Common.{
  ◌≡◌, refl, ap, inl, inr, Bool, false, Option, none, some, List, [], ◌∷◌, arith,
}
use lambda_ciactions.Common.Tests.{Option-cases}
use lambda_ciactions.Common.Lists.{sort_by}
use lambda_ciactions.Common.Text.{Text}
use lambda_ciactions.Shared.Types.{RepoMode}
use lambda_ciactions.Shared.FlavorCatalog.{CatalogFlavor, is_custom_flavor_name}
use lambda_ciactions.Ingest.Adopt.{adopt_flavor_for_label}
use lambda_ciactions.Provision.Flavor.{
  FlavorMap, FlavorResolution, ResolveOptions, by_name, entry, label_matches, explicit_label_match,
  best_match, not_behind, LabelMatch, plain, explicit_label, apply_signal_upgrade, map_rule,
  explicit_rule, adopt_rule, matched_rule, fallback_rule, unresolved_named_custom,
  unresolved_default, resolve_in,
}
use lambda_ciactions.Provision.Flavor.Custom.{Plain, base-Plain}

-- Two catalogs that answer alike for plain names and for the labels of the job.
module _ (c d : List CatalogFlavor)
    (agree : (name : Text) → Plain name → by_name c name ≡ by_name d name) where
  agree-upgrade :
      (r : FlavorResolution) (needs_docker : Bool)
      → Plain r.flavor
      → apply_signal_upgrade c r needs_docker ≡ apply_signal_upgrade d r needs_docker
  unfolding apply_signal_upgrade
  agree-upgrade r needs_docker p = ground (arith, agree r.flavor p)

  agree-map_rule :
      (m : Option FlavorMap) (ls : List Text)
      → ((l v : Text) → entry m l ≡ some v → Plain v)
      → (map_rule c m ls ≡ map_rule d m ls)
        × ((r : FlavorResolution) → map_rule d m ls ≡ some r → Plain r.flavor)
  unfolding map_rule
  agree-map_rule m [] p = (refl, λ r e. ground arith)
  agree-map_rule m (l ∷ ls) p =
      let (same, plain_rest) = agree-map_rule m ls p in
      elim (Option-cases (entry m l)) [
        | inl missing ↦ (ground (arith, same), λ r e. ground (arith, plain_rest r))
        | inr (v, found) ↦ (
          ground (arith, same, agree v (p l v found)),
          λ r e. ground (arith, p l v found, plain_rest r),
        )
      ]

  agree-adopt_rule :
      (mode : Option RepoMode) (ls : List Text)
      → ((l v : Text) → adopt_flavor_for_label l ≡ some v → Plain v)
      → (adopt_rule c mode ls ≡ adopt_rule d mode ls)
        × ((r : FlavorResolution) → adopt_rule d mode ls ≡ some r → Plain r.flavor)
  unfolding adopt_rule
  agree-adopt_rule mode [] p = (refl, λ r e. ground arith)
  agree-adopt_rule mode (l ∷ ls) p =
      let (same, plain_rest) = agree-adopt_rule mode ls p in
      elim (Option-cases (adopt_flavor_for_label l)) [
        | inl missing ↦ (ground (arith, same), λ r e. ground (arith, plain_rest r))
        | inr (v, found) ↦ (
          ground (arith, same, agree v (p l v found)),
          λ r e. ground (arith, p l v found, plain_rest r),
        )
      ]

  agree-fallback :
      (name : Option Text)
      → is_custom_flavor_name name ≡ false
      → (fallback_rule c name ≡ fallback_rule d name) × Plain (fallback_rule d name).flavor
  unfolding fallback_rule
  agree-fallback none p = (refl, base-Plain)
  agree-fallback (some name) p =
      (ground (arith, agree name p), ground (arith, p, base-Plain, agree name p))

  agree-explicit_rule :
      (ls : List Text)
      → label_matches c ls ≡ label_matches d ls
      → explicit_rule c ls ≡ explicit_rule d ls
  unfolding explicit_rule explicit_label_match
  agree-explicit_rule ls e = ap (λ ms. rule_of (best_match (sort_by not_behind ms))) e
    where
      rule_of : Option LabelMatch → Option FlavorResolution
      rule_of m = elim m [
        | none ↦ none
        | some m ↦ some (plain m.def.name (explicit_label m.def.label m.ambiguous_with))
      ]

  pub agree-matched :
      (ls : List Text) (opts : ResolveOptions)
      → ((l v : Text) → entry opts.flavor_map l ≡ some v → Plain v)
      → ((l v : Text) → adopt_flavor_for_label l ≡ some v → Plain v)
      → label_matches c ls ≡ label_matches d ls
      → ((r : FlavorResolution) → explicit_rule d ls ≡ some r → Plain r.flavor)
      → (matched_rule c ls opts ≡ matched_rule d ls opts)
        × ((r : FlavorResolution) → matched_rule d ls opts ≡ some r → Plain r.flavor)
  unfolding matched_rule
  agree-matched ls opts p q matches labelled =
      let (map_same, map_plain) = agree-map_rule opts.flavor_map ls p in
      let (adopt_same, adopt_plain) = agree-adopt_rule opts.mode ls q in
      let explicit_same = agree-explicit_rule ls matches in
      (
        ground (arith, map_same, adopt_same, explicit_same),
        λ r e. ground (arith, map_plain r, adopt_plain r, labelled r),
      )

  pub agree-resolve_in :
      (ls : List Text) (opts : ResolveOptions)
      → matched_rule c ls opts ≡ matched_rule d ls opts
      → ((r : FlavorResolution) → matched_rule d ls opts ≡ some r → Plain r.flavor)
      → is_custom_flavor_name opts.default_flavor ≡ false
      → unresolved_named_custom c opts.flavor_map ls ≡ unresolved_named_custom d opts.flavor_map ls
      → resolve_in c ls opts ≡ resolve_in d ls opts
  unfolding resolve_in unresolved_default
  agree-resolve_in ls opts same p q unresolved =
      let (fallback_same, fallback_plain) = agree-fallback opts.default_flavor q in
      elim (Option-cases (matched_rule d ls opts)) [
        | inr (r, matched) ↦
            ground (arith, same, matched, agree-upgrade r opts.needs_docker (p r matched))
        | inl unmatched ↦ ground (
          arith,
          same,
          fallback_same,
          agree-upgrade (fallback_rule d opts.default_flavor) opts.needs_docker fallback_plain,
        )
      ]
