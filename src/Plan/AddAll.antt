-- ===== src/Plan/AddAll.antt =====
-- What the loop `add_all` does to a plan: the trees that it adds, and their directives.
use mathlib.Core.Path.{subst}
use tinyrange.Prelude.{
  ℕ, ◌<◌, String, ◌≡◌, ◌∙◌, refl, sym, ap, Bool, true, false, ◌&&◌, Option, none, some, List, [],
  ◌∷◌, ◌++◌, arith, inl, inr, Option-cases, length, append-nil, append_assoc,
}
use tinyrange.Package.Defs.{PackageQuery, Directive}
use tinyrange.Plan.Types.{PlanError, Tree, InstallationPlan, PackageSource, blocking}
use tinyrange.Plan.Add.{add, add_query}
use tinyrange.Plan.Build.{add_all}
use tinyrange.Plan.Grows.{Grows, Grows-refl, Grows-trans}
use tinyrange.Plan.Spec.{
  tree_directives, tree_selected, tree_closed, tree_closed-Grows, satisfied, all_satisfied,
  satisfied-Grows, Once, Once-append, Once-nil, Once-later,
}
use tinyrange.Plan.Steps.{Emits, Emits-nil, Emits-append, Added}
use tinyrange.Plan.Roots.{tree_query, tree_query-add}
use tinyrange.Plan.Results.{add_total, add-Added}

abbrev pub trees_directives : List Tree → List Directive
trees_directives [] = []
trees_directives (t ∷ ts) = tree_directives t ++ trees_directives ts

abbrev pub trees_selected : List Tree → List String
trees_selected [] = []
trees_selected (t ∷ ts) = tree_selected t ++ trees_selected ts

abbrev pub trees_queries : List Tree → List PackageQuery
trees_queries [] = []
trees_queries (t ∷ ts) = tree_query t ∷ trees_queries ts

module _ (source : PackageSource) where
  abbrev pub trees_closed : InstallationPlan → List Tree → Bool
  trees_closed p [] = true
  trees_closed p (t ∷ ts) = tree_closed source p t && trees_closed p ts

  -- What a run of `add_all` without an error did: `ts` are the new trees.
  pub record AddedTrees (d : Bool) (qs : List PackageQuery) (p : InstallationPlan) (ts : List Tree)
      (q : InstallationPlan) : Type 0 where
    pub grows : Grows p q
    pub trees_eq : q.trees ≡ p.trees ++ ts
    pub asked : trees_queries ts ≡ qs
    pub emits : Emits d p (trees_directives ts) q
    pub once : Once p (trees_selected ts) q
    pub closes : p.debug ≡ false → (all_satisfied source q qs ≡ true) × (trees_closed q ts ≡ true)

  pub AddedTrees-nil : (d : Bool) (p : InstallationPlan) → AddedTrees d [] p [] p
  AddedTrees-nil d p = record {
    grows = Grows-refl p;
    trees_eq = sym (append-nil p.trees);
    asked = refl;
    emits = Emits-nil d p p refl refl;
    once = Once-nil p p;
    closes = λ h. (refl, refl);
  }

  -- `plan.trees = append(plan.trees, tree)`
  abbrev with_tree : InstallationPlan → Tree → InstallationPlan
  with_tree p t = record p { trees = p.trees ++ t ∷ [] }

  Grows-with_tree : (p : InstallationPlan) (t : Tree) → Grows p (with_tree p t)
  Grows-with_tree p t = record { debug_eq = refl; tags_eq = refl; installed_kept = λ k h. h }

  AddedTrees-cons :
      (d : Bool) (q : PackageQuery) (qs : List PackageQuery) (p p' r : InstallationPlan) (t : Tree)
      (ts : List Tree)
      → blocking p'.debug t ≡ none
      → tree_query t ≡ q
      → Added source d (λ x. satisfied source x q) p t p'
      → AddedTrees d qs (with_tree p' t) ts r
      → AddedTrees d (q ∷ qs) p (t ∷ ts) r
  AddedTrees-cons d q qs p p' r t ts goes root a b =
      let g = Grows-trans (Grows-with_tree p' t) b.grows in
      let e = a.emits (ground (arith, a.grows.debug_eq)) in
      record {
        grows = Grows-trans a.grows g;
        trees_eq =
            b.trees_eq
            ∙ append_assoc p'.trees (t ∷ []) ts
            ∙ ap (λ (l : List Tree). l ++ t ∷ ts) a.trees_eq;
        asked = rw (root, b.asked) refl;
        emits =
            Emits-append d (tree_directives t) (trees_directives ts) p (with_tree p' t) r
              (record { appended = e.appended; others = e.others }) b.emits;
        once =
            Once-append (tree_selected t) (trees_selected ts)
              (Grows-trans a.grows (Grows-with_tree p' t)) b.grows
              (Once-later (Grows-with_tree p' t) a.once) b.once;
        closes = λ h.
            let (x, y) = a.closes h (ground (arith, a.grows.debug_eq)) in
            let (x', y') = b.closes (a.grows.debug_eq ∙ h) in
            (
              ground (arith, satisfied-Grows source q g x),
              ground (arith, tree_closed-Grows source t g y),
            );
      }

  module _ (fuel : ℕ) (enough : length source.known_names < fuel) where
    add_query_lem :
        (q : PackageQuery) (d : Bool) (p p' : InstallationPlan)
        → add_query source fuel q d p ≡ some (none, p')
        → (t : Tree) × (p'' : InstallationPlan) × (add source fuel q d p ≡ some (t, p''))
          × (blocking p''.debug t ≡ none)
          × (p' ≡ record p'' { trees = p''.trees ++ t ∷ [] })
    unfolding add_query
    add_query_lem q d p p' e =
        let ((t, p''), f) = add_total source fuel q d p enough in
        (t, p'', f, ground arith, ground arith)

    add_all-cons :
        (q : PackageQuery) (qs : List PackageQuery) (d : Bool) (p p' : InstallationPlan)
        → add_all source fuel (q ∷ qs) d p ≡ some (none, p')
        → (p1 : InstallationPlan) × (add_query source fuel q d p ≡ some (none, p1))
          × (add_all source fuel qs d p1 ≡ some (none, p'))
    unfolding add_all
    add_all-cons q qs d p p' e = split (add_query source fuel q d p) refl
      where
        split :
            (o : Option (Option PlanError × InstallationPlan))
            → add_query source fuel q d p ≡ o
            → (p1 : InstallationPlan) × (add_query source fuel q d p ≡ some (none, p1))
              × (add_all source fuel qs d p1 ≡ some (none, p'))
        split none f = absurd (ground arith)
        split (some (some error, p1)) f = absurd (ground arith)
        split (some (none, p1)) f = (p1, f, ground arith)

    add_all-nil :
        (d : Bool) (p p' : InstallationPlan) → add_all source fuel [] d p ≡ some (none, p') → p ≡ p'
    unfolding add_all
    add_all-nil d p p' e = cc

    pub add_all_total :
        (qs : List PackageQuery) (d : Bool) (p : InstallationPlan)
        → (r : Option PlanError × InstallationPlan) × (add_all source fuel qs d p ≡ some r)
    unfolding add_all add_query
    add_all_total [] d p = ((none, p), refl)
    add_all_total (q ∷ qs) d p =
        let ((t, p'), e) = add_total source fuel q d p enough in
        elim (Option-cases (blocking p'.debug t)) [
          | inr (error, b) ↦ ((some error, p'), ground (arith, e, b))
          | inl b ↦ let (r, f) = add_all_total qs d (with_tree p' t) in (r, ground (arith, e, b, f))
        ]

    pub add_all_lem :
        (qs : List PackageQuery) (d : Bool) (p p' : InstallationPlan)
        → add_all source fuel qs d p ≡ some (none, p')
        → (ts : List Tree) × AddedTrees d qs p ts p'
    add_all_lem [] d p p' e = (
      [],
      subst (λ (x : InstallationPlan). AddedTrees d [] p [] x) (add_all-nil d p p' e)
          (AddedTrees-nil d p),
    )
    add_all_lem (q ∷ qs) d p p' e =
        let (p1, e1, e2) = add_all-cons q qs d p p' e in
        let (t, p'', f, goes, same) = add_query_lem q d p p1 e1 in
        let (ts, b) = add_all_lem qs d p1 p' e2 in
        (
          t ∷ ts,
          AddedTrees-cons d q qs p p'' p' t ts goes (tree_query-add source fuel q d p p'' t f)
              (add-Added source fuel q d p p'' t enough f)
              (subst (λ (x : InstallationPlan). AddedTrees d qs x ts p') same b),
        )
