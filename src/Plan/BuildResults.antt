-- ===== src/Plan/BuildResults.antt =====
-- What `ContainerBuilder.Plan` guarantees of the plan that its callback sees.
use mathlib.Core.Path.{subst}
use tinyrange.Prelude.{
  Nodup, ℕ, ◌<◌, String, ◌≡◌, ◌∙◌, refl, sym, ap, Bool, true, false, Option, none, some, List, [],
  ◌∷◌, ◌++◌, arith, if◌then◌else◌, inl, inr, Option-cases, Bool-cases, length, append_assoc,
}
use tinyrange.Package.Defs.{PackageQuery, Directive, TagList, contains_tag}
use tinyrange.Plan.Types.{PlanError, Tree, InstallationPlan, new_plan}
use tinyrange.Plan.Build.{ContainerBuilder, add_all, plan_packages}
use tinyrange.Plan.Grows.{Grows}
use tinyrange.Plan.Spec.{
  tree_directives, tree_selected, tree_closed-Grows, all_satisfied, all_satisfied-Grows, Once,
  Once-append,
}
use tinyrange.Plan.Steps.{Emits}
use tinyrange.Plan.AddAll.{
  trees_directives, trees_selected, trees_queries, trees_closed, AddedTrees, AddedTrees-nil,
  add_all_total, add_all_lem,
}

trees_directives-append :
    (xs ys : List Tree) → trees_directives (xs ++ ys) ≡ trees_directives xs ++ trees_directives ys
trees_directives-append [] ys = refl
trees_directives-append (x ∷ xs) ys =
    ap (λ (l : List Directive). tree_directives x ++ l) (trees_directives-append xs ys)
    ∙ sym (append_assoc (tree_directives x) (trees_directives xs) (trees_directives ys))

trees_selected-append :
    (xs ys : List Tree) → trees_selected (xs ++ ys) ≡ trees_selected xs ++ trees_selected ys
trees_selected-append [] ys = refl
trees_selected-append (x ∷ xs) ys =
    ap (λ (l : List String). tree_selected x ++ l) (trees_selected-append xs ys)
    ∙ sym (append_assoc (tree_selected x) (trees_selected xs) (trees_selected ys))

-- what the two lists of directives of a plan are, of which the first is for default packages that are
-- split off
abbrev pub KeptApart : Bool → List Tree → List Tree → InstallationPlan → Type 0
KeptApart true default_trees package_trees plan =
    (plan.base_directives ≡ trees_directives default_trees)
    × (plan.directives ≡ trees_directives package_trees)
KeptApart false default_trees package_trees plan =
    (plan.base_directives ≡ [])
    × (plan.directives ≡ trees_directives (default_trees ++ package_trees))

module _ (builder : ContainerBuilder) where
  trees_closed-append :
      (xs ys : List Tree) (p : InstallationPlan)
      → trees_closed builder.packages p xs ≡ true
      → trees_closed builder.packages p ys ≡ true
      → trees_closed builder.packages p (xs ++ ys) ≡ true
  trees_closed-append [] ys p h k = k
  trees_closed-append (x ∷ xs) ys p h k =
      ground (arith, trees_closed-append xs ys p (ground arith) k)

  trees_closed-Grows :
      (xs : List Tree) {p q : InstallationPlan}
      → Grows p q
      → trees_closed builder.packages p xs ≡ true
      → trees_closed builder.packages q xs ≡ true
  trees_closed-Grows [] g h = refl
  trees_closed-Grows (x ∷ xs) g h =
      ground (arith, tree_closed-Grows builder.packages x g, trees_closed-Grows xs g)

  -- the default packages, if the tags ask for them
  abbrev pub defaults : TagList → List PackageQuery
  defaults tags = if contains_tag tags "defaults" then builder.default_packages else []

  module _ (fuel : ℕ) (packages : List PackageQuery) (tags : TagList) (debug : Bool)
      (enough : length builder.packages.known_names < fuel) where
    abbrev start : InstallationPlan
    start = new_plan tags debug

    -- the trees of the default packages, and those of the packages that were asked for
    record Planned (plan : InstallationPlan) : Type 0 where
      middle : InstallationPlan
      default_trees : List Tree
      package_trees : List Tree
      first :
          AddedTrees builder.packages builder.split_default_packages
            (defaults tags)
            start
            default_trees
            middle
      second : AddedTrees builder.packages false packages middle package_trees plan

    with_defaults :
        (error : Option PlanError) (plan middle : InstallationPlan)
        → contains_tag tags "defaults" ≡ true
        → add_all builder.packages fuel builder.default_packages builder.split_default_packages
            start
          ≡ some (error, middle)
        → plan_packages builder fuel packages tags debug ≡ some (none, plan)
        → Planned plan
    unfolding plan_packages
    with_defaults (some error) plan middle c f e = absurd (ground arith)
    with_defaults none plan middle c f e =
        let (ts, a) =
          add_all_lem builder.packages fuel enough builder.default_packages
            builder.split_default_packages start middle f in
        let (us, b) =
          add_all_lem builder.packages fuel enough packages false middle plan (ground arith) in
        record {
          middle = middle;
          default_trees = ts;
          package_trees = us;
          first = rw c a;
          second = b;
        }

    plan_packages_lem :
        (plan : InstallationPlan)
        → plan_packages builder fuel packages tags debug ≡ some (none, plan)
        → Planned plan
    plan_packages_lem plan e = elim (Bool-cases (contains_tag tags "defaults")) [
      | inl c ↦
          let ((error, middle), f) =
            add_all_total builder.packages fuel enough builder.default_packages
              builder.split_default_packages start in
          with_defaults error plan middle c f e
      | inr c ↦
          let (ts, b) =
            add_all_lem builder.packages fuel enough packages false start plan
              (unfold plan_packages in ground arith) in
          record {
            middle = start;
            default_trees = [];
            package_trees = ts;
            first = rw c (AddedTrees-nil builder.packages builder.split_default_packages start);
            second = b;
          }
    ]

    Planned-trees :
        (plan : InstallationPlan) (h : Planned plan)
        → h.default_trees ++ h.package_trees ≡ plan.trees
    Planned-trees plan h =
        sym (h.second.trees_eq ∙ ap (λ (l : List Tree). l ++ h.package_trees) h.first.trees_eq)

    Planned-Once :
        (plan : InstallationPlan) → Planned plan → Once start (trees_selected plan.trees) plan
    Planned-Once plan h =
        subst (λ (l : List Tree). Once start (trees_selected l) plan) (Planned-trees plan h)
          (rw trees_selected-append (
            Once-append (trees_selected h.default_trees) (trees_selected h.package_trees)
              h.first.grows h.second.grows h.first.once h.second.once))

    Planned-closed :
        (plan : InstallationPlan)
        → Planned plan
        → debug ≡ false
        → trees_closed builder.packages plan plan.trees ≡ true
    Planned-closed plan h no_debug =
        subst (λ (l : List Tree). trees_closed builder.packages plan l ≡ true)
          (Planned-trees plan h)
          (trees_closed-append h.default_trees h.package_trees plan
            (trees_closed-Grows h.default_trees h.second.grows (h.first.closes no_debug).1)
            (h.second.closes (h.first.grows.debug_eq ∙ no_debug)).1)

    -- With more fuel than there are known names, the planning of a build ends.
    pub plan_packages_total :
        (r : Option PlanError × InstallationPlan) × (plan_packages builder fuel packages tags debug
          ≡ some r)
    unfolding plan_packages
    plan_packages_total =
        let ((error, middle), f) =
          add_all_total builder.packages fuel enough builder.default_packages
            builder.split_default_packages start in
        let (r, g) = add_all_total builder.packages fuel enough packages false middle in
        let (r', g') = add_all_total builder.packages fuel enough packages false start in
        elim (Bool-cases (contains_tag tags "defaults")) [
          | inr c ↦ (r', ground (arith, c, g'))
          | inl c ↦ elim (Option-cases error) [
            | inl e ↦ (r, ground (arith, c, f, e, g))
            | inr (x, e) ↦ ((error, middle), ground (arith, c, f, e))
          ]
        ]

    module _ (plan : InstallationPlan)
        (answer : plan_packages builder fuel packages tags debug ≡ some (none, plan)) where
      -- The trees of a plan without an error are those of the default packages, if the tags have
      -- `defaults`, and behind them those of the packages that were asked for, a tree for each
      -- query, in their order. The directives are those of the installers in the trees: tree by
      -- tree, and in each tree dependencies before the package that asked for them. Where the
      -- default packages are split off, the base directives are those of the trees of the default
      -- packages and the directives those of the other trees; elsewhere there are no base
      -- directives and the directives are those of all trees.
      pub plan_packages-directives :
          (default_trees package_trees : List Tree) × (plan.trees ≡ default_trees ++ package_trees)
          × (trees_queries default_trees ≡ defaults tags)
          × (trees_queries package_trees ≡ packages)
          × KeptApart builder.split_default_packages default_trees package_trees plan
      plan_packages-directives =
          let h = plan_packages_lem plan answer in
          (
            h.default_trees,
            h.package_trees,
            sym (Planned-trees plan h),
            h.first.asked,
            h.second.asked,
            Emits-KeptApart builder.split_default_packages h.middle h.default_trees h.package_trees
                h.first.emits h.second.emits,
          )
        where
          Emits-KeptApart :
              (b : Bool) (m : InstallationPlan) (xs ys : List Tree)
              → Emits b start (trees_directives xs) m
              → Emits false m (trees_directives ys) plan
              → KeptApart b xs ys plan
          Emits-KeptApart true m xs ys e f = (
            f.others ∙ e.appended,
            f.appended ∙ ap (λ (l : List Directive). l ++ trees_directives ys) e.others,
          )
          Emits-KeptApart false m xs ys e f = (
            f.others ∙ e.others,
            f.appended
                ∙ ap (λ (l : List Directive). l ++ trees_directives ys) e.appended
                ∙ sym (trees_directives-append xs ys),
          )

      -- Outside debug mode a plan without an error has every package that was asked for, the default
      -- packages too if the tags have `defaults`, and the dependencies of every installer in its trees.
      pub plan_packages-closed :
          debug ≡ false
          → (all_satisfied builder.packages plan (defaults tags) ≡ true)
            × (all_satisfied builder.packages plan packages ≡ true)
            × (trees_closed builder.packages plan plan.trees ≡ true)
      plan_packages-closed no_debug =
          let h = plan_packages_lem plan answer in
          (
            all_satisfied-Grows builder.packages (defaults tags) h.second.grows
                (h.first.closes no_debug).0,
            (h.second.closes (h.first.grows.debug_eq ∙ no_debug)).0,
            Planned-closed plan h no_debug,
          )

      -- No package name has an installer twice in a plan, whatever the queries share.
      pub plan_packages_once : Nodup (trees_selected plan.trees)
      plan_packages_once = (Planned-Once plan (plan_packages_lem plan answer)).distinct
