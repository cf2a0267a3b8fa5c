-- ===== src/Plan/Correct.antt =====
-- With enough fuel `add` answers, and its answer has the postcondition `Added`: the induction over
-- the calls. The theorems that follow from it are in `Plan.Results`.

use tinyrange.Prelude.{
  ℕ, suc, ◌<◌, ◌≡◌, ◌∙◌, refl, Bool, true, false, ◌&&◌, Option, none, some, List, [], ◌∷◌, arith,
  inl, inr, Option-cases, mem_text,
}
use tinyrange.Package.Defs.{PackageQuery}
use tinyrange.Plan.Types.{
  InstallOption, PlanError, Tree, node, Forest, nil, cons, InstallationPlan, PackageSource, Adder,
  blocking, dependency,
}
use tinyrange.Plan.Add.{
  check_name, add_dependencies, add_directives, select_option, add_internal, add_options,
}
use tinyrange.Plan.Grows.{
  Grows-refl, Grows-trans, add_directives-Grows, missing, missing-Grows, missing_shrinks,
}
use tinyrange.Plan.Spec.{
  tree_directives, forest_directives, tree_selected, forest_selected, tree_closed, Once-nil,
  Once-later, forest_closed-Grows, satisfied, all_satisfied, all_satisfied-Grows, satisfied-Grows,
}
use tinyrange.Plan.Steps.{
  Emits-nil, Emits-append, Added, AddedAll, AddedAll-nil, AddedAll-stop, AddedAll-cons,
}
use tinyrange.Plan.Selected.{
  is_there, all_there, KnownOptions, selected_plan, selected_plan-Grows, selected_plan-installed,
  selected_plan-Emits, selected_plan-trees, add_directives-trees, selected-Once,
  add_directives-Emits,
}
use tinyrange.Plan.Equations.{
  add_dependencies-stop, add_dependencies-cons, add_options-stop, add_options-cons,
  select_option-failed, select_option-done, add_internal-old, add_internal-new,
  is_installed-check_name, is_installed-check_name-none,
}

module _ (source : PackageSource) (d : Bool) (call : Adder) (fuel : ℕ)
    (call_lem : (q : PackageQuery) (p : InstallationPlan)
      → missing source.known_names p < fuel
      → (r : Tree × InstallationPlan) × (call q p ≡ some r)
        × Added source d (λ x. satisfied source x q) p r.0 r.1) where
  add_dependencies_lem :
      (qs : List PackageQuery) (p : InstallationPlan)
      → missing source.known_names p < fuel
      → (r : Forest × Option PlanError × InstallationPlan) × (add_dependencies call qs p ≡ some r)
        × AddedAll source d (λ x. all_satisfied source x qs) p r.0 r.1 r.2
  add_dependencies_lem [] p m =
      ((nil, none, p), unfold add_dependencies in refl, AddedAll-nil source d p)
  add_dependencies_lem (q ∷ qs) p m =
      let ((t, p'), e, a) = call_lem q p m in
      let goal = λ (x : InstallationPlan). satisfied source x q in
      let goal' = λ (x : InstallationPlan). all_satisfied source x qs in
      elim (Option-cases (blocking p'.debug t)) [
        | inr (error, b) ↦ (
          (nil, some error, p'),
          add_dependencies-stop call q qs p e b,
          AddedAll-stop source d goal (λ x. goal x && goal' x) p p' t error b a,
        )
        | inl b ↦
            let ((ts, error, p''), e', a') =
              add_dependencies_lem qs p'
                (omega (arith, missing-Grows source.known_names a.grows)) in
            (
              (cons t ts, error, p''),
              add_dependencies-cons call q qs p e b e',
              AddedAll-cons source d goal goal' p p' p'' t ts error
                  (λ g h. satisfied-Grows source q g h) b a a',
            )
      ]

  -- The tree of a selected package, whether its dependencies failed or not.
  selected-failed :
      (q : PackageQuery) (all : List InstallOption) (o : InstallOption) (p p' : InstallationPlan)
      (ts : Forest) (error : PlanError)
      → is_there o p ≡ false
      → AddedAll source d
          (λ x. all_satisfied source x o.install.dependencies)
          (selected_plan o p)
          ts
          (some error)
          p'
      → Added source d
          (is_there o)
          p
          (node q (some o.pkg) (some o.install) all (some (dependency q error)) ts)
          p'
  unfolding tree_selected tree_closed tree_directives
  selected-failed q all o p p' ts error fresh a = record {
    grows = Grows-trans (selected_plan-Grows o p) a.grows;
    trees_eq = a.trees_eq ∙ selected_plan-trees o p;
    emits = λ e. absurd (ground (arith, (selected_plan-Grows o p).debug_eq, a.halts (λ h. cc)));
    closes = λ h e. cc;
    once = selected-Once o (forest_selected ts) p p' fresh a.grows a.once;
    present = λ h. a.grows.installed_kept o.pkg.name.name (selected_plan-installed o p);
  }

  selected-done :
      (q : PackageQuery) (all : List InstallOption) (o : InstallOption) (p p' : InstallationPlan)
      (ts : Forest)
      → is_there o p ≡ false
      → AddedAll source d
          (λ x. all_satisfied source x o.install.dependencies)
          (selected_plan o p)
          ts
          none
          p'
      → Added source d
          (is_there o)
          p
          (node q (some o.pkg) (some o.install) all none ts)
          (add_directives d o.install.directives p')
  unfolding tree_selected tree_closed tree_directives
  selected-done q all o p p' ts fresh a =
      let g = add_directives-Grows d o.install.directives p' in
      record {
        grows = Grows-trans (Grows-trans (selected_plan-Grows o p) a.grows) g;
        trees_eq =
            add_directives-trees d o.install.directives p' ∙ a.trees_eq ∙ selected_plan-trees o p;
        emits = λ e.
            Emits-append d (forest_directives ts) o.install.directives p p' _
              (Emits-append d [] (forest_directives ts) p (selected_plan o p) p'
                (selected_plan-Emits d o p) (a.emits refl))
              (add_directives-Emits d o.install.directives p');
        closes = λ h e.
            let (x, y) = a.closes ((selected_plan-Grows o p).debug_eq ∙ h) refl in
            (
              g.installed_kept o.pkg.name.name
                  (a.grows.installed_kept o.pkg.name.name (selected_plan-installed o p)),
              ground (
                arith,
                all_satisfied-Grows source o.install.dependencies g x,
                forest_closed-Grows source ts g y,
              ),
            );
        once = Once-later g (selected-Once o (forest_selected ts) p p' fresh a.grows a.once);
        present = λ h.
            g.installed_kept o.pkg.name.name
              (a.grows.installed_kept o.pkg.name.name (selected_plan-installed o p));
      }

  select_option_lem :
      (q : PackageQuery) (all : List InstallOption) (o : InstallOption) (p : InstallationPlan)
      → missing source.known_names p < suc fuel
      → mem_text o.pkg.name.name source.known_names ≡ true
      → is_there o p ≡ false
      → (r : Tree × InstallationPlan) × (select_option call q all o d p ≡ some r)
        × Added source d (is_there o) p r.0 r.1
  select_option_lem q all o p m known fresh =
      let less =
        missing_shrinks source.known_names o.pkg.name.name (selected_plan-Grows o p) known fresh
          (selected_plan-installed o p) in
      let ((ts, error, p'), e, a) =
        add_dependencies_lem o.install.dependencies (selected_plan o p) (omega (arith, less)) in
      finish ts error p' e a
    where
      finish :
          (ts : Forest) (error : Option PlanError) (p' : InstallationPlan)
          → add_dependencies call o.install.dependencies (selected_plan o p) ≡ some (ts, error, p')
          → AddedAll source d
              (λ x. all_satisfied source x o.install.dependencies)
              (selected_plan o p)
              ts
              error
              p'
          → (r : Tree × InstallationPlan) × (select_option call q all o d p ≡ some r)
            × Added source d (is_there o) p r.0 r.1
      finish ts (some error) p' e a = (
        _,
        select_option-failed call q all o d p e,
        selected-failed q all o p p' ts error fresh a,
      )
      finish ts none p' e a =
          (_, select_option-done call q all o d p e, selected-done q all o p p' ts fresh a)

  pub add_internal_lem :
      (q : PackageQuery) (all : List InstallOption) (o : InstallOption) (p : InstallationPlan)
      → missing source.known_names p < suc fuel
      → mem_text o.pkg.name.name source.known_names ≡ true
      → (r : Tree × InstallationPlan) × (add_internal call q all o d p ≡ some r)
        × Added source d (is_there o) p r.0 r.1
  add_internal_lem q all o p m known = elim (Option-cases (check_name p o.pkg.name)) [
    | inl e ↦
        let (r, f, a) =
          select_option_lem q all o p m known (is_installed-check_name-none p o.pkg.name e) in
        (r, add_internal-new call q all o d p e f, a)
    | inr (pkg, e) ↦ (
      (node q (some pkg) none all none nil, p),
      add_internal-old call q all o d p e,
      unfold tree_directives tree_selected tree_closed in
          record {
            grows = Grows-refl p;
            trees_eq = refl;
            emits = λ b. Emits-nil d p p refl refl;
            closes = λ h b. (is_installed-check_name p o.pkg.name e, refl);
            once = Once-nil p p;
            present = λ h. is_installed-check_name p o.pkg.name e;
          },
    )
  ]

  pub add_options_lem :
      (q : PackageQuery) (all os : List InstallOption) (p : InstallationPlan)
      → missing source.known_names p < suc fuel
      → KnownOptions source os
      → (r : Forest × Option PlanError × InstallationPlan) × (add_options call q all os d p
          ≡ some r)
        × AddedAll source d (all_there os) p r.0 r.1 r.2
  add_options_lem q all [] p m known =
      ((nil, none, p), unfold add_options in refl, AddedAll-nil source d p)
  add_options_lem q all (o ∷ os) p m known =
      let ((t, p'), e, a) = add_internal_lem q all o p m known.0 in
      elim (Option-cases (blocking p'.debug t)) [
        | inr (error, b) ↦ (
          (nil, some error, p'),
          add_options-stop call q all o os d p e b,
          AddedAll-stop source d (is_there o) (all_there (o ∷ os)) p p' t error b a,
        )
        | inl b ↦
            let ((ts, error, p''), e', a') =
              add_options_lem q all os p' (omega (arith, missing-Grows source.known_names a.grows))
                known.1 in
            (
              (cons t ts, error, p''),
              add_options-cons call q all o os d p e b e',
              AddedAll-cons source d (is_there o) (all_there os) p p' p'' t ts error
                  (λ g h. g.installed_kept o.pkg.name.name h) b a a',
            )
      ]
