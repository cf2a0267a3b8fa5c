-- ===== src/Plan/Spec.antt =====
-- What a tree says of the plan that it belongs to, read off the tree alone.
use tinyrange.Prelude.{
  String, ◌≡◌, refl, Bool, true, false, ◌&&◌, Option, none, some, List, [], ◌∷◌, ◌++◌, arith,
  mem_text, Nodup, Nodup-append, mem_text-append, if◌then◌else◌, Bool-cases, inl, inr, Option-cases,
}
use tinyrange.Package.Defs.{PackageQuery, Package, Installer, Directive, is_empty}
use tinyrange.Plan.Types.{Tree, node, Forest, nil, cons, InstallationPlan, PackageSource}
use tinyrange.Plan.Grows.{is_installed, Grows}

abbrev installer_directives : Option Installer → List Directive
installer_directives none = []
installer_directives (some i) = i.directives

-- The directives of the selected installers in post-order: dependencies first.
unfoldable mutual
  pub tree_directives : Tree → List Directive
  tree_directives (node query pkg installer options error dependencies) =
      forest_directives dependencies ++ installer_directives installer

  pub forest_directives : Forest → List Directive
  forest_directives nil = []
  forest_directives (cons t ts) = tree_directives t ++ forest_directives ts

abbrev selected_name : Option Package → Option Installer → List String
selected_name (some pkg) (some i) = pkg.name.name ∷ []
selected_name pkg installer = []

-- The names of the packages for which an installer was selected.
unfoldable mutual
  pub tree_selected : Tree → List String
  tree_selected (node query pkg installer options error dependencies) =
      selected_name pkg installer ++ forest_selected dependencies

  pub forest_selected : Forest → List String
  forest_selected nil = []
  forest_selected (cons t ts) = tree_selected t ++ forest_selected ts

abbrev pub all_installed : InstallationPlan → List Package → Bool
all_installed p [] = true
all_installed p (pkg ∷ pkgs) = is_installed p pkg.name.name && all_installed p pkgs

-- Every name of `ks` was installed between `p` and `q`, and none is there twice.
pub record Once (p : InstallationPlan) (ks : List String) (q : InstallationPlan) : Type 0 where
  pub installed_between :
      (k : String) → mem_text k ks ≡ true → (is_installed p k ≡ false) × (is_installed q k ≡ true)
  pub distinct : Nodup ks

pub Once-append :
    (xs ys : List String) {p q r : InstallationPlan}
    → Grows p q
    → Grows q r
    → Once p xs q
    → Once q ys r
    → Once p (xs ++ ys) r
Once-append xs ys {p} {q} {r} g h a b = record {
  installed_between = λ k m. elim (Bool-cases (mem_text k xs)) [
    | inl e ↦ let (x, y) = a.installed_between k e in (x, h.installed_kept k y)
    | inr e ↦
        let (x, y) = b.installed_between k (ground (arith, mem_text-append k xs ys)) in
        (ground (arith, g.installed_kept k), y)
  ];
  distinct = Nodup-append xs ys a.distinct b.distinct (λ k m. elim (Bool-cases (mem_text k ys)) [
    | inl e ↦ cc ((a.installed_between k m).1, (b.installed_between k e).0)
    | inr e ↦ e
  ]);
}

pub Once-later :
    {ks : List String} {p q r : InstallationPlan} → Grows q r → Once p ks q → Once p ks r
Once-later g a = record {
  installed_between = λ k m. let (x, y) = a.installed_between k m in (x, g.installed_kept k y);
  distinct = a.distinct;
}

pub Once-nil : (p q : InstallationPlan) → Once p [] q
Once-nil p q = record { installed_between = λ k m. cc; distinct = tt }

module _ (source : PackageSource) where
  -- The packages that a query asks for are there: the first result, or all of them for a query by tags.
  unfoldable pub satisfied : InstallationPlan → PackageQuery → Bool
  satisfied p q = elim (source.query q) [
    | none ↦ false
    | some [] ↦ false
    | some (pkg ∷ pkgs) ↦
        if is_empty q.tags then is_installed p pkg.name.name else all_installed p (pkg ∷ pkgs)
  ]

  abbrev pub all_satisfied : InstallationPlan → List PackageQuery → Bool
  all_satisfied p [] = true
  all_satisfied p (q ∷ qs) = satisfied p q && all_satisfied p qs

  abbrev installer_satisfied : InstallationPlan → Option Installer → Bool
  installer_satisfied p none = true
  installer_satisfied p (some i) = all_satisfied p i.dependencies

  -- The dependencies of every installer of the tree are there.
  unfoldable mutual
    pub tree_closed : InstallationPlan → Tree → Bool
    tree_closed p (node query pkg installer options error dependencies) =
        installer_satisfied p installer && forest_closed p dependencies

    pub forest_closed : InstallationPlan → Forest → Bool
    forest_closed p nil = true
    forest_closed p (cons t ts) = tree_closed p t && forest_closed p ts

  all_installed-Grows :
      (pkgs : List Package) {p q : InstallationPlan}
      → Grows p q
      → all_installed p pkgs ≡ true
      → all_installed q pkgs ≡ true
  all_installed-Grows [] g h = refl
  all_installed-Grows (pkg ∷ pkgs) g h =
      ground (arith, g.installed_kept pkg.name.name, all_installed-Grows pkgs g)

  pub satisfied-Grows :
      (query : PackageQuery) {p q : InstallationPlan}
      → Grows p q
      → satisfied p query ≡ true
      → satisfied q query ≡ true
  unfolding satisfied
  satisfied-Grows query {p} {q} g h = elim (Option-cases (source.query query)) [
    | inl e ↦ ground arith
    | inr ([], e) ↦ ground arith
    | inr (pkg ∷ pkgs, e) ↦
        ground (arith, g.installed_kept pkg.name.name, all_installed-Grows (pkg ∷ pkgs) g)
  ]

  pub all_satisfied-Grows :
      (qs : List PackageQuery) {p q : InstallationPlan}
      → Grows p q
      → all_satisfied p qs ≡ true
      → all_satisfied q qs ≡ true
  all_satisfied-Grows [] g h = refl
  all_satisfied-Grows (x ∷ qs) g h = ground (arith, satisfied-Grows x g, all_satisfied-Grows qs g)

  mutual
    unfolding tree_closed forest_closed

    tree_closed_keep :
        (t : Tree) {p q : InstallationPlan}
        → Grows p q
        → tree_closed p t ≡ true
        → tree_closed q t ≡ true
    tree_closed_keep (node query pkg none options error dependencies) g h =
        forest_closed_keep dependencies g h
    tree_closed_keep (node query pkg (some i) options error dependencies) g h =
        ground (arith, all_satisfied-Grows i.dependencies g, forest_closed_keep dependencies g)

    forest_closed_keep :
        (ts : Forest) {p q : InstallationPlan}
        → Grows p q
        → forest_closed p ts ≡ true
        → forest_closed q ts ≡ true
    forest_closed_keep nil g h = refl
    forest_closed_keep (cons t ts) g h =
        ground (arith, tree_closed_keep t g, forest_closed_keep ts g)

  pub tree_closed-Grows :
      (t : Tree) {p q : InstallationPlan}
      → Grows p q
      → tree_closed p t ≡ true
      → tree_closed q t ≡ true
  tree_closed-Grows t g h = tree_closed_keep t g h

  pub forest_closed-Grows :
      (ts : Forest) {p q : InstallationPlan}
      → Grows p q
      → forest_closed p ts ≡ true
      → forest_closed q ts ≡ true
  forest_closed-Grows ts g h = forest_closed_keep ts g h
