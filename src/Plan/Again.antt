-- ===== src/Plan/Again.antt =====
-- Adding a query a second time.
use tinyrange.Prelude.{
  ℕ, zero, suc, ◌<◌, ◌≡◌, ◌≢◌, refl, Bool, true, none, some, List, [], ◌∷◌, arith, inl, inr, ◌⊎◌,
  Option-cases, length,
}
use tinyrange.Package.Defs.{PackageQuery, Package, is_empty}
use tinyrange.Plan.Types.{
  InstallOption, Tree, node, nil, InstallationPlan, PackageSource, Adder, tree_error, tree_package,
}
use tinyrange.Plan.Add.{
  add, add_step, collect_options, add_found, add_internal, check_name, lookup_installed,
}
use tinyrange.Plan.Grows.{is_installed}
use tinyrange.Plan.Spec.{satisfied}
use tinyrange.Plan.Total.{collect_options-packages}
use tinyrange.Plan.Results.{add-Added}

check_name_installed :
    (p : InstallationPlan) (pkg : Package)
    → is_installed p pkg.name.name ≡ true
    → (old : Package) × (check_name p pkg.name ≡ some old)
unfolding check_name
check_name_installed p pkg h =
    elim (Option-cases (lookup_installed pkg.name.name p.installed_names)) [
      | inl e ↦ absurd (ground arith)
      | inr (info, e) ↦ (info.pkg, ground arith)
    ]

module _ (source : PackageSource) where
  -- What an answer with a package shows of the query and the installers of its results.
  abbrev Found : PackageQuery → InstallationPlan → Type 0
  Found q p =
      (pkg : Package) × (pkgs : List Package) × (o : InstallOption) × (os : List InstallOption)
      × (source.query q ≡ some (pkg ∷ pkgs))
      × (collect_options source (pkg ∷ pkgs) p.tags ≡ inr (o ∷ os))
      × (o.pkg ≡ pkg)

  add_step-Found :
      (call : Adder) (q : PackageQuery) (d : Bool) (p p' : InstallationPlan) (t : Tree)
      → add_step source call q d p ≡ some (t, p')
      → tree_package t ≢ none
      → Found q p
  unfolding add_step
  add_step-Found call q d p p' t e h = elim (Option-cases (source.query q)) [
    | inl f ↦ absurd (h (ground arith))
    | inr ([], f) ↦ absurd (h (ground arith))
    | inr (pkg ∷ pkgs, f) ↦ collected pkg pkgs f (collect_options source (pkg ∷ pkgs) p.tags) refl
  ]
    where
      collected :
          (pkg : Package) (pkgs : List Package)
          → source.query q ≡ some (pkg ∷ pkgs)
          → (c : Package ⊎ List InstallOption) → collect_options source (pkg ∷ pkgs) p.tags ≡ c
          → Found q p
      collected pkg pkgs f (inl failed) c = absurd (h (ground arith))
      collected pkg pkgs f (inr []) c =
          absurd (cc (collect_options-packages source (pkg ∷ pkgs) p.tags [] c))
      collected pkg pkgs f (inr (o ∷ os)) c = (
        pkg,
        pkgs,
        o,
        os,
        f,
        c,
        cc (collect_options-packages source (pkg ∷ pkgs) p.tags (o ∷ os) c),
      )

  add_step_installed :
      (call : Adder) (q : PackageQuery) (d : Bool) (p p' : InstallationPlan)
      → Found q p
      → p'.tags ≡ p.tags
      → is_empty q.tags ≡ true
      → satisfied source p' q ≡ true
      → (again : Tree) × (add_step source call q d p' ≡ some (again, p'))
        × (tree_error again ≡ none)
  unfolding add_step add_found add_internal satisfied
  add_step_installed call q d p p' (pkg, pkgs, o, os, f, c, same) tags plain there =
      let (old, e) = check_name_installed p' o.pkg (ground arith) in
      (node q (some old) none (o ∷ os) none nil, ground arith, refl)

  -- Once `add` has settled on a package for a query by name, a second `add` of the query answers
  -- without an error and leaves the plan as it is. That is so too where the first `add` failed,
  -- because of a dependency of the package.
  pub add_again :
      (fuel fuel' : ℕ) (query : PackageQuery) (d d' : Bool) (plan plan' : InstallationPlan)
      (tree : Tree)
      → length source.known_names < fuel
      → is_empty query.tags ≡ true
      → add source fuel query d plan ≡ some (tree, plan')
      → tree_package tree ≢ none
      → (again : Tree) × (add source (suc fuel') query d' plan' ≡ some (again, plan'))
        × (tree_error again ≡ none)
  unfolding add
  add_again zero fuel' query d d' plan plan' tree enough plain answer has = absurd (omega arith)
  add_again (suc fuel) fuel' query d d' plan plan' tree enough plain answer has =
      let a = add-Added source (suc fuel) query d plan plan' tree enough answer in
      add_step_installed _ query d' plan plan'
        (add_step-Found (λ q p. add source fuel q d p) query d plan plan' tree answer has)
        a.grows.tags_eq plain (a.present has)
