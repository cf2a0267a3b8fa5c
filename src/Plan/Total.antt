-- ===== src/Plan/Total.antt =====
-- `add` with the fuel that the number of known packages bounds: the induction on the fuel.
use tinyrange.Prelude.{
  append-nil, ℕ, zero, suc, ◌<◌, ◌≡◌, ◌∙◌, refl, sym, ap, Bool, true, false, Option, none, some,
  List, [], ◌∷◌, arith, if◌then◌else◌, ◌⊎◌, inl, inr, Option-cases, Bool-cases, All, mem_text,
}
use tinyrange.Package.Defs.{PackageQuery, Package, TagList, is_empty}
use tinyrange.Plan.Types.{
  InstallOption, PlanError, Tree, node, Forest, nil, InstallationPlan, PackageSource, Adder,
  dependency, no_installer, query_failed, no_package, installer_failed,
}
use tinyrange.Plan.Add.{add_options, collect_options, add_found, add_step, add, error_tree}
use tinyrange.Plan.Grows.{Grows-refl, missing}
use tinyrange.Plan.Spec.{
  tree_directives, tree_selected, tree_closed, Once-nil, satisfied, all_installed,
}
use tinyrange.Plan.Steps.{Emits-nil, Added, AddedAll}
use tinyrange.Plan.Selected.{is_there, option_packages, all_there, KnownOptions}
use tinyrange.Plan.Correct.{add_internal_lem, add_options_lem}

module _ (source : PackageSource) where
  pub collect_options-packages :
      (results : List Package) (tags : TagList) (os : List InstallOption)
      → collect_options source results tags ≡ inr os
      → option_packages os ≡ results
  unfolding collect_options
  collect_options-packages [] tags [] e = refl
  collect_options-packages [] tags (o ∷ os) e = cc
  collect_options-packages (r ∷ rs) tags [] e = ground arith
  collect_options-packages (r ∷ rs) tags (o ∷ os) e =
      ground (arith, collect_options-packages rs tags os)

  KnownOptions-packages :
      (os : List InstallOption)
      → All (λ pkg. mem_text pkg.name.name source.known_names ≡ true) (option_packages os)
      → KnownOptions source os
  KnownOptions-packages [] h = h
  KnownOptions-packages (o ∷ os) h = (h.0, KnownOptions-packages os h.1)

  all_there-packages :
      (os : List InstallOption) (x : InstallationPlan)
      → all_there os x ≡ all_installed x (option_packages os)
  all_there-packages [] x = refl
  all_there-packages (o ∷ os) x = ground (arith, all_there-packages os x)

  -- An answer without effect.
  Added-error :
      (d : Bool) (goal : InstallationPlan → Bool) (q : PackageQuery) (os : List InstallOption)
      (error : PlanError) (p : InstallationPlan)
      → Added source d goal p (node q none none os (some error) nil) p
  unfolding tree_directives tree_selected
  Added-error d goal q os error p = record {
    grows = Grows-refl p;
    trees_eq = refl;
    emits = λ b. Emits-nil d p p refl refl;
    closes = λ h b. cc;
    once = Once-nil p p;
    present = λ h. absurd (h refl);
  }

  -- The tree of a query by tags has no installer of its own.
  Added-tags :
      (d : Bool) (goal goal' : InstallationPlan → Bool) (q : PackageQuery) (os : List InstallOption)
      (ts : Forest) (p p' : InstallationPlan)
      → ((x : InstallationPlan) → goal x ≡ goal' x)
      → AddedAll source d goal p ts none p'
      → Added source d goal' p (node q none none os none ts) p'
  unfolding tree_directives tree_selected tree_closed
  Added-tags d goal goal' q os ts p p' same a = record {
    grows = a.grows;
    trees_eq = a.trees_eq;
    emits = λ b. simp append-nil (a.emits refl);
    closes = λ h b. let (x, y) = a.closes h refl in (sym (same p') ∙ x, y);
    once = a.once;
    present = λ h. absurd (h refl);
  }

  Added-tags_failed :
      (d : Bool) (goal goal' : InstallationPlan → Bool) (q : PackageQuery) (os : List InstallOption)
      (ts : Forest) (error : PlanError) (p p' : InstallationPlan)
      → AddedAll source d goal p ts (some error) p'
      → Added source d goal' p (node q none none os (some (dependency q error)) ts) p'
  unfolding tree_directives tree_selected
  Added-tags_failed d goal goal' q os ts error p p' a = record {
    grows = a.grows;
    trees_eq = a.trees_eq;
    emits = λ b. absurd (ground (arith, a.halts (λ h. cc)));
    closes = λ h b. cc;
    once = a.once;
    present = λ h. absurd (h refl);
  }

  Added-goal :
      (d : Bool) (goal goal' : InstallationPlan → Bool) (p p' : InstallationPlan) (t : Tree)
      → ((x : InstallationPlan) → goal x ≡ goal' x)
      → Added source d goal p t p'
      → Added source d goal' p t p'
  Added-goal d goal goal' p p' t same a = record {
    grows = a.grows;
    trees_eq = a.trees_eq;
    emits = a.emits;
    closes = λ h b. let (x, y) = a.closes h b in (sym (same p') ∙ x, y);
    once = a.once;
    present = λ h. sym (same p') ∙ a.present h;
  }

  satisfied_lem :
      (q : PackageQuery) (o : InstallOption) (os : List InstallOption) (x : InstallationPlan)
      → source.query q ≡ some (option_packages (o ∷ os))
      → (if is_empty q.tags then is_there o x else all_there (o ∷ os) x) ≡ satisfied source x q
  unfolding satisfied
  satisfied_lem q o os x e = ground (arith, all_there-packages os x)

module _ (source : PackageSource) (d : Bool) (call : Adder) (fuel : ℕ)
    (call_lem : (q : PackageQuery) (p : InstallationPlan)
      → missing source.known_names p < fuel
      → (r : Tree × InstallationPlan) × (call q p ≡ some r)
        × Added source d (λ x. satisfied source x q) p r.0 r.1) where
  abbrev Answer : PackageQuery → InstallationPlan → Option (Tree × InstallationPlan) → Type 0
  Answer q p o =
      (r : Tree × InstallationPlan) × (o ≡ some r)
      × Added source d (λ x. satisfied source x q) p r.0 r.1

  add_found-tags :
      (q : PackageQuery) (o : InstallOption) (os : List InstallOption) (p : InstallationPlan)
      {r : Forest × Option PlanError × InstallationPlan}
      → source.query q ≡ some (option_packages (o ∷ os))
      → is_empty q.tags ≡ false
      → add_options call q (o ∷ os) (o ∷ os) d p ≡ some r
      → AddedAll source d (all_there (o ∷ os)) p r.0 r.1 r.2
      → Answer q p (add_found source call q (o ∷ os) d p)
  add_found-tags q o os p {r = (ts, some error, p')} found tagged e a = (
    (node q none none (o ∷ os) (some (dependency q error)) ts, p'),
    unfold add_found in ground (arith, tagged, e),
    Added-tags_failed source d (all_there (o ∷ os)) _ q (o ∷ os) ts error p p' a,
  )
  add_found-tags q o os p {r = (ts, none, p')} found tagged e a = (
    (node q none none (o ∷ os) none ts, p'),
    unfold add_found in ground (arith, tagged, e),
    Added-tags source d (all_there (o ∷ os)) _ q (o ∷ os) ts p p'
        (λ x. rw tagged at (satisfied_lem source q o os x found)) a,
  )

  add_found_lem :
      (q : PackageQuery) (os : List InstallOption) (p : InstallationPlan)
      → missing source.known_names p < suc fuel
      → source.query q ≡ some (option_packages os)
      → KnownOptions source os
      → Answer q p (add_found source call q os d p)
  add_found_lem q [] p m found known = (
    (error_tree q (no_installer q), p),
    unfold add_found in refl,
    Added-error source d _ q [] _ p,
  )
  add_found_lem q (o ∷ os) p m found known = elim (Bool-cases (is_empty q.tags)) [
    | inl plain ↦
        let (r, e, a) = add_internal_lem source d call fuel call_lem q (o ∷ os) o p m known.0 in
        (
          r,
          unfold add_found in ground (arith, plain, e),
          Added-goal source d (is_there o) _ p r.1 r.0
              (λ x. rw plain at (satisfied_lem source q o os x found)) a,
        )
    | inr tagged ↦
        let (r, e, a) = add_options_lem source d call fuel call_lem q (o ∷ os) (o ∷ os) p m known in
        add_found-tags q o os p {r = r} found tagged e a
  ]

  add_step_lem :
      (q : PackageQuery) (p : InstallationPlan)
      → missing source.known_names p < suc fuel
      → Answer q p (add_step source call q d p)
  unfolding add_step
  add_step_lem q p m = elim (Option-cases (source.query q)) [
    | inl e ↦
        ((error_tree q (query_failed q), p), ground (arith, e), Added-error source d _ q [] _ p)
    | inr ([], e) ↦
        ((error_tree q (no_package q), p), ground (arith, e), Added-error source d _ q [] _ p)
    | inr (pkg ∷ pkgs, e) ↦ collected pkg pkgs e (collect_options source (pkg ∷ pkgs) p.tags) refl
  ]
    where
      collected :
          (pkg : Package) (pkgs : List Package)
          → source.query q ≡ some (pkg ∷ pkgs)
          → (c : Package ⊎ List InstallOption) → collect_options source (pkg ∷ pkgs) p.tags ≡ c
          → Answer q p (add_step source call q d p)
      collected pkg pkgs e (inl failed) c = (
        (error_tree q (installer_failed failed.name), p),
        ground (arith, e, c),
        Added-error source d _ q [] _ p,
      )
      collected pkg pkgs e (inr os) c =
          let same = collect_options-packages source (pkg ∷ pkgs) p.tags os c in
          let (r, f, a) =
            add_found_lem q os p m (e ∙ ap some (sym same))
              (KnownOptions-packages source os (rw same (source.query_known q (pkg ∷ pkgs) e))) in
          (r, ground (arith, e, c, f), a)

module _ (source : PackageSource) (d : Bool) where
  pub add_lem :
      (fuel : ℕ) (q : PackageQuery) (p : InstallationPlan)
      → missing source.known_names p < fuel
      → (r : Tree × InstallationPlan) × (add source fuel q d p ≡ some r)
        × Added source d (λ x. satisfied source x q) p r.0 r.1
  unfolding add
  add_lem zero q p m = absurd (omega arith)
  add_lem (suc fuel) q p m =
      add_step_lem source d (λ q' p'. add source fuel q' d p') fuel
        (λ q' p' m'. add_lem fuel q' p' m') q p m
