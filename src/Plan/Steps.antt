-- ===== src/Plan/Steps.antt =====
-- The postcondition of `add`, and how the postconditions of the children join.
use mathlib.Core.List.{append-nil, append_assoc}
use tinyrange.Prelude.{
  ◌≢◌, ◌≡◌, ◌∙◌, refl, sym, ap, Bool, true, false, ◌&&◌, Option, none, some, List, [], ◌++◌, arith,
  if◌then◌else◌,
}
use tinyrange.Package.Defs.{Directive}
use tinyrange.Plan.Types.{
  PlanError, Tree, Forest, nil, cons, InstallationPlan, PackageSource, blocking, tree_error,
  tree_package,
}
use tinyrange.Plan.Grows.{Grows, Grows-refl, Grows-trans}
use tinyrange.Plan.Spec.{
  tree_directives, forest_directives, tree_selected, forest_selected, tree_closed, forest_closed,
  tree_closed-Grows, Once, Once-append, Once-nil,
}

-- the list of directives that a call fills, and the other one
abbrev pub emitted : Bool → InstallationPlan → List Directive
emitted is_default p = if is_default then p.base_directives else p.directives

abbrev pub kept : Bool → InstallationPlan → List Directive
kept is_default p = if is_default then p.directives else p.base_directives

pub record Emits (d : Bool) (p : InstallationPlan) (new : List Directive) (q : InstallationPlan)
    : Type 0 where
  pub appended : emitted d q ≡ emitted d p ++ new
  pub others : kept d q ≡ kept d p

pub Emits-nil :
    (d : Bool) (p q : InstallationPlan)
    → q.directives ≡ p.directives
    → q.base_directives ≡ p.base_directives
    → Emits d p [] q
Emits-nil true p q h k = record { appended = k ∙ sym (append-nil p.base_directives); others = h }
Emits-nil false p q h k = record { appended = h ∙ sym (append-nil p.directives); others = k }

pub Emits-append :
    (d : Bool) (xs ys : List Directive) (p q r : InstallationPlan)
    → Emits d p xs q
    → Emits d q ys r
    → Emits d p (xs ++ ys) r
Emits-append d xs ys p q r a b = record {
  appended =
      b.appended
      ∙ ap (λ (l : List Directive). l ++ ys) a.appended
      ∙ append_assoc (emitted d p) xs ys;
  others = b.others ∙ a.others;
}

module _ (source : PackageSource) (d : Bool) where
  -- What a call that answers with the tree `t` did to the plan. `goal` is what it was to install.
  pub record Added (goal : InstallationPlan → Bool) (p : InstallationPlan) (t : Tree)
      (q : InstallationPlan) : Type 0 where
    pub grows : Grows p q
    pub trees_eq : q.trees ≡ p.trees
    pub emits : blocking p.debug t ≡ none → Emits d p (tree_directives t) q
    pub closes :
        p.debug ≡ false → tree_error t ≡ none → (goal q ≡ true) × (tree_closed source q t ≡ true)
    pub once : Once p (tree_selected t) q
    pub present : tree_package t ≢ none → goal q ≡ true

  pub record AddedAll (goal : InstallationPlan → Bool) (p : InstallationPlan) (ts : Forest)
      (error : Option PlanError) (q : InstallationPlan) : Type 0 where
    pub grows : Grows p q
    pub trees_eq : q.trees ≡ p.trees
    pub emits : error ≡ none → Emits d p (forest_directives ts) q
    pub closes :
        p.debug ≡ false → error ≡ none → (goal q ≡ true) × (forest_closed source q ts ≡ true)
    pub once : Once p (forest_selected ts) q
    pub halts : error ≢ none → p.debug ≡ false

  pub AddedAll-nil : (p : InstallationPlan) → AddedAll (λ q. true) p nil none p
  unfolding forest_directives forest_selected forest_closed
  AddedAll-nil p = record {
    grows = Grows-refl p;
    trees_eq = refl;
    emits = λ e. Emits-nil d p p refl refl;
    closes = λ e f. (refl, refl);
    once = Once-nil p p;
    halts = λ h. absurd (h refl);
  }

  pub AddedAll-stop :
      (goal goal' : InstallationPlan → Bool) (p q : InstallationPlan) (t : Tree) (error : PlanError)
      → blocking q.debug t ≡ some error
      → Added goal p t q
      → AddedAll goal' p nil (some error) q
  unfolding forest_selected
  AddedAll-stop goal goal' p q t error b a = record {
    grows = a.grows;
    trees_eq = a.trees_eq;
    emits = λ e. cc;
    closes = λ h e. cc;
    once = Once-nil p q;
    halts = λ h. ground (arith, a.grows.debug_eq);
  }

  pub AddedAll-cons :
      (goal goal' : InstallationPlan → Bool) (p q r : InstallationPlan) (t : Tree) (ts : Forest)
      (error : Option PlanError)
      → (Grows q r → goal q ≡ true → goal r ≡ true)
      → blocking q.debug t ≡ none
      → Added goal p t q
      → AddedAll goal' q ts error r
      → AddedAll (λ x. goal x && goal' x) p (cons t ts) error r
  unfolding forest_directives forest_selected forest_closed
  AddedAll-cons goal goal' p q r t ts error mono goes a b = record {
    grows = Grows-trans a.grows b.grows;
    trees_eq = b.trees_eq ∙ a.trees_eq;
    emits = λ e.
        Emits-append d (tree_directives t) (forest_directives ts) p q r
          (a.emits (ground (arith, a.grows.debug_eq))) (b.emits e);
    closes = λ h e.
        let (g, c) = a.closes h (ground (arith, a.grows.debug_eq)) in
        let (g', c') = b.closes (a.grows.debug_eq ∙ h) e in
        (ground (arith, mono b.grows g), ground (arith, tree_closed-Grows source t b.grows c));
    once = Once-append (tree_selected t) (forest_selected ts) a.grows b.grows a.once b.once;
    halts = λ h. sym a.grows.debug_eq ∙ b.halts h;
  }
