-- ===== src/Plan/Roots.antt =====
-- Which query a tree of pkg/database/plan.go answers: the tree that `add` returns has it at its root.
use mathlib.Core.Path.{subst}
use tinyrange.Prelude.{
  sym, ℕ, zero, suc, ◌≡◌, refl, Bool, Option, none, some, List, [], ◌∷◌, arith, ◌⊎◌, inl, inr,
  Option-cases, Bool-cases,
}
use tinyrange.Package.Defs.{PackageQuery, Package, is_empty}
use tinyrange.Plan.Types.{
  Tree, node, InstallationPlan, InstallOption, PackageSource, Adder, query_failed, no_package,
  installer_failed,
}
use tinyrange.Plan.Add.{
  add, add_step, add_found, add_options, add_internal, select_option, add_dependencies, add_name,
  add_names, check_name, collect_options, error_tree,
}

abbrev pub tree_query : Tree → PackageQuery
tree_query (node query pkg installer options error dependencies) = query

-- an answer whose tree has this query
abbrev Asks : PackageQuery → Option (Tree × InstallationPlan) → Type 0
Asks q none = Unit
Asks q (some (tree, plan)) = tree_query tree ≡ q

select_option-Asks :
    (rec : Adder) (query : PackageQuery) (options : List InstallOption) (option : InstallOption)
    (is_default : Bool) (plan : InstallationPlan)
    → Asks query (select_option rec query options option is_default plan)
unfolding select_option
select_option-Asks rec query options option is_default plan =
    elim (Option-cases (
      add_dependencies rec option.install.dependencies
        (add_names option.pkg.aliases option.pkg (add_name option.pkg.name option.pkg plan)))) [
          | inl e ↦ rw (Asks, e) tt
          | inr ((children, some error, p), e) ↦ rw (Asks, e) refl
          | inr ((children, none, p), e) ↦ rw (Asks, e) refl
        ]

add_internal-Asks :
    (rec : Adder) (query : PackageQuery) (options : List InstallOption) (option : InstallOption)
    (is_default : Bool) (plan : InstallationPlan)
    → Asks query (add_internal rec query options option is_default plan)
unfolding add_internal
add_internal-Asks rec query options option is_default plan =
    elim (Option-cases (check_name plan option.pkg.name)) [
      | inl e ↦ rw (Asks, e) (select_option-Asks rec query options option is_default plan)
      | inr (pkg, e) ↦ rw (Asks, e) refl
    ]

module _ (source : PackageSource) where
  add_found-Asks :
      (rec : Adder) (query : PackageQuery) (options : List InstallOption) (is_default : Bool)
      (plan : InstallationPlan)
      → Asks query (add_found source rec query options is_default plan)
  unfolding add_found
  add_found-Asks rec query [] is_default plan = refl
  add_found-Asks rec query (option ∷ options) is_default plan =
      elim (Bool-cases (is_empty query.tags)) [
        | inl h ↦ rw h (add_internal-Asks rec query (option ∷ options) option is_default plan)
        | inr h ↦
            elim (Option-cases
              (add_options rec query (option ∷ options) (option ∷ options) is_default plan)) [
                | inl e ↦ rw (h, e) tt
                | inr ((children, some error, p), e) ↦ rw (h, e) refl
                | inr ((children, none, p), e) ↦ rw (h, e) refl
              ]
      ]

  add_step-Asks :
      (rec : Adder) (query : PackageQuery) (is_default : Bool) (plan : InstallationPlan)
      → Asks query (add_step source rec query is_default plan)
  unfolding add_step
  add_step-Asks rec query is_default plan = elim (Option-cases (source.query query)) [
    | inl e ↦ from (some (error_tree query (query_failed query), plan)) (ground (arith, e)) refl
    | inr ([], e) ↦ from (some (error_tree query (no_package query), plan)) (ground (arith, e)) refl
    | inr (pkg ∷ pkgs, e) ↦
        collected pkg pkgs e (collect_options source (pkg ∷ pkgs) plan.tags) refl
  ]
    where
      from :
          (o : Option (Tree × InstallationPlan))
          → add_step source rec query is_default plan ≡ o
          → Asks query o
          → Asks query (add_step source rec query is_default plan)
      from o e k = subst (Asks query) (sym e) k

      collected :
          (pkg : Package) (pkgs : List Package)
          → source.query query ≡ some (pkg ∷ pkgs)
          → (c : Package ⊎ List InstallOption) → collect_options source (pkg ∷ pkgs) plan.tags ≡ c
          → Asks query (add_step source rec query is_default plan)
      collected pkg pkgs e (inl failed) c =
          from (some (error_tree query (installer_failed failed.name), plan)) (ground (arith, e, c))
            refl
      collected pkg pkgs e (inr options) c =
          from (add_found source rec query options is_default plan) (ground (arith, e, c))
            (add_found-Asks rec query options is_default plan)

  pub tree_query-add :
      (fuel : ℕ) (query : PackageQuery) (is_default : Bool) (plan plan' : InstallationPlan)
      (tree : Tree)
      → add source fuel query is_default plan ≡ some (tree, plan')
      → tree_query tree ≡ query
  unfolding add
  tree_query-add zero query is_default plan plan' tree e = absurd (ground arith)
  tree_query-add (suc fuel) query is_default plan plan' tree e =
      subst (Asks query) e
        (add_step-Asks (λ q p. add source fuel q is_default p) query is_default plan)
