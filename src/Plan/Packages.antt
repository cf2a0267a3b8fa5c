-- ===== src/Plan/Packages.antt =====
-- The packages of a plan, as pkg/database/plan.go hands them to a script: `installationTree.Packages`
-- and the attribute `packages` of a plan. `none` is a nil package.
use mathlib.Core.Path.{subst}
use tinyrange.Prelude.{
  ap, sym, ℕ, zero, suc, ◌≡◌, refl, Bool, false, Option, none, some, List, [], ◌∷◌, ◌++◌, arith,
  ◌⊎◌, inl, inr, Option-cases,
}
use tinyrange.Package.Defs.{PackageQuery, Package, is_empty}
use tinyrange.Plan.Types.{
  Tree, node, Forest, nil, cons, InstallationPlan, InstallOption, PackageSource, tree_package,
  Adder, query_failed, no_package, installer_failed,
}
use tinyrange.Plan.Add.{add, add_step, add_found, add_options, collect_options, error_tree}

unfoldable mutual
  -- `installationTree.Packages`
  pub tree_packages : Tree → List (Option Package)
  tree_packages (node query pkg installer options error dependencies) =
      pkg ∷ forest_packages dependencies

  pub forest_packages : Forest → List (Option Package)
  forest_packages nil = []
  forest_packages (cons t ts) = tree_packages t ++ forest_packages ts

-- the attribute `packages`
unfoldable pub plan_attr_packages : List Tree → List (Option Package)
plan_attr_packages [] = []
plan_attr_packages (t ∷ ts) = tree_packages t ++ plan_attr_packages ts

-- an answer whose tree has no package
abbrev NoPackage : Option (Tree × InstallationPlan) → Type 0
NoPackage none = Unit
NoPackage (some (tree, plan)) = tree_package tree ≡ none

tree_packages-none :
    (tree : Tree)
    → tree_package tree ≡ none
    → (rest : List (Option Package)) × (tree_packages tree ≡ none ∷ rest)
unfolding tree_packages
tree_packages-none (node query pkg installer options error dependencies) h =
    (forest_packages dependencies, ap (λ (o : Option Package). o ∷ forest_packages dependencies) h)

module _ (source : PackageSource) where
  add_found-NoPackage :
      (rec : Adder) (query : PackageQuery) (options : List InstallOption) (is_default : Bool)
      (plan : InstallationPlan)
      → is_empty query.tags ≡ false
      → NoPackage (add_found source rec query options is_default plan)
  unfolding add_found
  add_found-NoPackage rec query [] is_default plan h = refl
  add_found-NoPackage rec query (option ∷ options) is_default plan h =
      elim (Option-cases
        (add_options rec query (option ∷ options) (option ∷ options) is_default plan)) [
          | inl e ↦ rw (h, e) tt
          | inr ((children, some error, p), e) ↦ rw (h, e) refl
          | inr ((children, none, p), e) ↦ rw (h, e) refl
        ]

  add_step-NoPackage :
      (rec : Adder) (query : PackageQuery) (is_default : Bool) (plan : InstallationPlan)
      → is_empty query.tags ≡ false
      → NoPackage (add_step source rec query is_default plan)
  unfolding add_step
  add_step-NoPackage rec query is_default plan h = elim (Option-cases (source.query query)) [
    | inl e ↦ from (some (error_tree query (query_failed query), plan)) (ground (arith, e)) refl
    | inr ([], e) ↦ from (some (error_tree query (no_package query), plan)) (ground (arith, e)) refl
    | inr (pkg ∷ pkgs, e) ↦
        collected pkg pkgs e (collect_options source (pkg ∷ pkgs) plan.tags) refl
  ]
    where
      from :
          (o : Option (Tree × InstallationPlan))
          → add_step source rec query is_default plan ≡ o
          → NoPackage o
          → NoPackage (add_step source rec query is_default plan)
      from o e k = subst NoPackage (sym e) k

      collected :
          (pkg : Package) (pkgs : List Package)
          → source.query query ≡ some (pkg ∷ pkgs)
          → (c : Package ⊎ List InstallOption) → collect_options source (pkg ∷ pkgs) plan.tags ≡ c
          → NoPackage (add_step source rec query is_default plan)
      collected pkg pkgs e (inl failed) c =
          from (some (error_tree query (installer_failed failed.name), plan)) (ground (arith, e, c))
            refl
      collected pkg pkgs e (inr options) c =
          from (add_found source rec query options is_default plan) (ground (arith, e, c))
            (add_found-NoPackage rec query options is_default plan h)

  -- The packages of the tree of a query by tags begin with a nil package, whether the query fails or
  -- not.
  pub tree_packages-add :
      (fuel : ℕ) (query : PackageQuery) (is_default : Bool) (plan plan' : InstallationPlan)
      (tree : Tree)
      → is_empty query.tags ≡ false
      → add source fuel query is_default plan ≡ some (tree, plan')
      → (rest : List (Option Package)) × (tree_packages tree ≡ none ∷ rest)
  unfolding add
  tree_packages-add zero query is_default plan plan' tree h e = absurd (ground arith)
  tree_packages-add (suc fuel) query is_default plan plan' tree h e = tree_packages-none tree (
      subst NoPackage e
        (add_step-NoPackage (λ q p. add source fuel q is_default p) query is_default plan h))
