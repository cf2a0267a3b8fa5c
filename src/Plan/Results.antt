-- ===== src/Plan/Results.antt =====
-- What `InstallationPlan.add` and `InstallationPlan.Add` guarantee.
use mathlib.Core.Path.{subst}
use tinyrange.Prelude.{
  Nodup, ℕ, ◌<◌, String, ◌≡◌, Bool, true, false, none, some, ◌++◌, arith, mem_text, length,
}
use tinyrange.Package.Defs.{PackageQuery}
use tinyrange.Plan.Types.{Tree, InstallationPlan, PackageSource, blocking, tree_error}
use tinyrange.Plan.Add.{add}
use tinyrange.Plan.Grows.{is_installed, missing-le-length}
use tinyrange.Plan.Spec.{tree_directives, tree_selected, tree_closed, satisfied}
use tinyrange.Plan.Steps.{emitted, kept, Added}
use tinyrange.Plan.Total.{add_lem}

module _ (source : PackageSource) where
  -- With more fuel than there are known names, `add` answers, whatever the query, the plan and the
  -- dependencies between the packages, cyclic ones included.
  pub add_total :
      (fuel : ℕ) (query : PackageQuery) (is_default : Bool) (plan : InstallationPlan)
      → length source.known_names < fuel
      → (r : Tree × InstallationPlan) × (add source fuel query is_default plan ≡ some r)
  add_total fuel query is_default plan h =
      let (r, e, a) =
        add_lem source is_default fuel query plan
          (omega (arith, missing-le-length source.known_names plan)) in
      (r, e)

  module _ (fuel : ℕ) (query : PackageQuery) (is_default : Bool) (plan plan' : InstallationPlan)
      (tree : Tree) (enough : length source.known_names < fuel)
      (answer : add source fuel query is_default plan ≡ some (tree, plan')) where
    pub add-Added : Added source is_default (λ x. satisfied source x query) plan tree plan'
    add-Added =
        let (r, e, a) =
          add_lem source is_default fuel query plan
            (omega (arith, missing-le-length source.known_names plan)) in
        let same : ◌≡◌ {A = Tree × InstallationPlan} r (tree, plan') = cc (e, answer) in
        subst
          (λ (x : Tree × InstallationPlan).
            Added source is_default (λ y. satisfied source y query) plan x.0 x.1)
          same a

    -- An `add` that goes on (it has no error, or the plan is in debug mode) appends to the list of
    -- directives that it fills those of the installers in its tree, dependencies before the package
    -- that asked for them, and leaves the other list of directives as it was.
    pub add-directives :
        blocking plan.debug tree ≡ none
        → (emitted is_default plan' ≡ emitted is_default plan ++ tree_directives tree)
          × (kept is_default plan' ≡ kept is_default plan)
    add-directives h = let e = add-Added.emits h in (e.appended, e.others)

    -- Outside debug mode, an `add` without an error leaves a plan in which the packages of the query
    -- are installed (the first result, or every result of a query by tags), and in which so are the
    -- packages of every dependency of every installer that the tree selects.
    pub add-closed :
        plan.debug ≡ false
        → tree_error tree ≡ none
        → (satisfied source plan' query ≡ true) × (tree_closed source plan' tree ≡ true)
    add-closed h e = add-Added.closes h e

    -- Whether it fails or not, `add` selects an installer only for names that were not installed
    -- before and are afterwards, and for no name twice.
    pub add_once :
        ((k : String)
          → mem_text k (tree_selected tree) ≡ true
          → (is_installed plan k ≡ false) × (is_installed plan' k ≡ true))
        × Nodup (tree_selected tree)
    add_once = (add-Added.once.installed_between, add-Added.once.distinct)

    -- Whether it fails or not, `add` uninstalls no name and leaves the options, the tags and the
    -- trees of the plan alone.
    pub add_keeps :
        ((k : String) → is_installed plan k ≡ true → is_installed plan' k ≡ true)
        × (plan'.debug ≡ plan.debug)
        × (plan'.tags ≡ plan.tags)
        × (plan'.trees ≡ plan.trees)
    add_keeps =
        let g = add-Added.grows in (g.installed_kept, g.debug_eq, g.tags_eq, add-Added.trees_eq)
