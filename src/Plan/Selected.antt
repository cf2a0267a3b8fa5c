-- ===== src/Plan/Selected.antt =====
-- The plan just after a package was selected, before its dependencies are added.

use tinyrange.Prelude.{
  All, ◌&&◌, String, ◌≡◌, ◌∙◌, refl, sym, ap, Bool, true, false, List, [], ◌∷◌, arith, inl, inr,
  Bool-cases, mem_text, eq_iff, str_eq,
}
use tinyrange.Package.Defs.{PackageName, Package, Directive}
use tinyrange.Plan.Types.{PackageSource, InstallOption, InstallationPlan}
use tinyrange.Plan.Add.{add_name, add_names, add_directives}
use tinyrange.Plan.Grows.{
  is_installed, Grows, Grows-trans, add_name-Grows, add_names-Grows, add_name-installed,
}
use tinyrange.Plan.Spec.{Once}
use tinyrange.Plan.Steps.{Emits, Emits-nil}

add_names-directives :
    (names : List PackageName) (pkg : Package) (p : InstallationPlan)
    → ((add_names names pkg p).directives ≡ p.directives)
      × ((add_names names pkg p).base_directives ≡ p.base_directives)
      × ((add_names names pkg p).trees ≡ p.trees)
unfolding add_names add_name
add_names-directives [] pkg p = (refl, refl, refl)
add_names-directives (a ∷ names) pkg p = add_names-directives names pkg (add_name a pkg p)

pub add_directives-Emits :
    (d : Bool) (new : List Directive) (p : InstallationPlan)
    → Emits d p new (add_directives d new p)
add_directives-Emits true new p = record { appended = refl; others = refl }
add_directives-Emits false new p = record { appended = refl; others = refl }

pub add_directives-trees :
    (d : Bool) (new : List Directive) (p : InstallationPlan)
    → (add_directives d new p).trees ≡ p.trees
add_directives-trees true new p = refl
add_directives-trees false new p = refl

abbrev pub option_packages : List InstallOption → List Package
option_packages [] = []
option_packages (o ∷ os) = o.pkg ∷ option_packages os

abbrev pub is_there : InstallOption → InstallationPlan → Bool
is_there o x = is_installed x o.pkg.name.name

abbrev pub selected_plan : InstallOption → InstallationPlan → InstallationPlan
selected_plan o p = add_names o.pkg.aliases o.pkg (add_name o.pkg.name o.pkg p)

pub selected_plan-Grows : (o : InstallOption) (p : InstallationPlan) → Grows p (selected_plan o p)
selected_plan-Grows o p =
    Grows-trans (add_name-Grows o.pkg.name o.pkg p)
      (add_names-Grows o.pkg.aliases o.pkg (add_name o.pkg.name o.pkg p))

pub selected_plan-installed :
    (o : InstallOption) (p : InstallationPlan) → is_there o (selected_plan o p) ≡ true
selected_plan-installed o p =
    (add_names-Grows o.pkg.aliases o.pkg (add_name o.pkg.name o.pkg p)).installed_kept
      o.pkg.name.name (add_name-installed o.pkg.name o.pkg p)

pub selected_plan-Emits :
    (d : Bool) (o : InstallOption) (p : InstallationPlan) → Emits d p [] (selected_plan o p)
unfolding add_name
selected_plan-Emits d o p =
    let (x, y, z) = add_names-directives o.pkg.aliases o.pkg (add_name o.pkg.name o.pkg p) in
    Emits-nil d p (selected_plan o p) x y

-- The new package is counted once, and none of the packages below it has its name.
pub selected-Once :
    (o : InstallOption) (ks : List String) (p q : InstallationPlan)
    → is_there o p ≡ false
    → Grows (selected_plan o p) q
    → Once (selected_plan o p) ks q
    → Once p (o.pkg.name.name ∷ ks) q
selected-Once o ks p q fresh g a = record {
  installed_between = λ k m. elim (Bool-cases (str_eq o.pkg.name.name k)) [
    | inl e ↦
        let same = (eq_iff o.pkg.name.name k).0 e in
        (
          ap (is_installed p) (sym same) ∙ fresh,
          ap (is_installed q) (sym same)
              ∙ g.installed_kept o.pkg.name.name (selected_plan-installed o p),
        )
    | inr e ↦
        let (x, y) = a.installed_between k (ground arith) in
        (
          elim (Bool-cases (is_installed p k)) [
            | inl i ↦ cc ((selected_plan-Grows o p).installed_kept k i, x)
            | inr i ↦ i
          ],
          y,
        )
  ];
  distinct = (
    elim (Bool-cases (mem_text o.pkg.name.name ks)) [
      | inl m ↦ cc ((a.installed_between o.pkg.name.name m).0, selected_plan-installed o p)
      | inr m ↦ m
    ],
    a.distinct,
  );
}

abbrev pub all_there : List InstallOption → InstallationPlan → Bool
all_there [] x = true
all_there (o ∷ os) x = is_there o x && all_there os x

abbrev pub KnownOptions : PackageSource → List InstallOption → Type 0
KnownOptions source os = All (λ o. mem_text o.pkg.name.name source.known_names ≡ true) os

pub selected_plan-trees :
    (o : InstallOption) (p : InstallationPlan) → (selected_plan o p).trees ≡ p.trees
unfolding add_name
selected_plan-trees o p = (add_names-directives o.pkg.aliases o.pkg (add_name o.pkg.name o.pkg p)).2
