-- ===== src/Plan/Equations.antt =====
-- The planner stepwise: what each operation answers, given the answers of the calls in it.

use tinyrange.Prelude.{◌≡◌, Bool, true, false, Option, none, some, List, ◌∷◌, arith}
use tinyrange.Package.Defs.{PackageQuery, PackageName, Package}
use tinyrange.Plan.Types.{
  InstallOption, PlanError, Tree, node, Forest, nil, cons, InstallationPlan, Adder, blocking,
  dependency,
}
use tinyrange.Plan.Add.{
  check_name, add_dependencies, add_directives, select_option, add_internal, add_options,
}
use tinyrange.Plan.Grows.{is_installed}
use tinyrange.Plan.Selected.{selected_plan}

-- The equations of the two loops, with the answers of the calls as hypotheses.
module _ (call : Adder) (q : PackageQuery) (qs : List PackageQuery) (p : InstallationPlan)
    {t : Tree} {p' : InstallationPlan} (e : call q p ≡ some (t, p')) where
  pub add_dependencies-stop :
      {error : PlanError}
      → blocking p'.debug t ≡ some error
      → add_dependencies call (q ∷ qs) p ≡ some (nil, some error, p')
  unfolding add_dependencies
  add_dependencies-stop b = ground arith

  pub add_dependencies-cons :
      {ts : Forest} {error : Option PlanError} {p'' : InstallationPlan}
      → blocking p'.debug t ≡ none
      → add_dependencies call qs p' ≡ some (ts, error, p'')
      → add_dependencies call (q ∷ qs) p ≡ some (cons t ts, error, p'')
  unfolding add_dependencies
  add_dependencies-cons b e' = ground arith

module _ (call : Adder) (q : PackageQuery) (all : List InstallOption) (o : InstallOption)
    (os : List InstallOption) (d : Bool) (p : InstallationPlan) {t : Tree} {p' : InstallationPlan}
    (e : add_internal call q all o d p ≡ some (t, p')) where
  pub add_options-stop :
      {error : PlanError}
      → blocking p'.debug t ≡ some error
      → add_options call q all (o ∷ os) d p ≡ some (nil, some error, p')
  unfolding add_options
  add_options-stop b = ground arith

  pub add_options-cons :
      {ts : Forest} {error : Option PlanError} {p'' : InstallationPlan}
      → blocking p'.debug t ≡ none
      → add_options call q all os d p' ≡ some (ts, error, p'')
      → add_options call q all (o ∷ os) d p ≡ some (cons t ts, error, p'')
  unfolding add_options
  add_options-cons b e' = ground arith

-- The equations of `select_option`, `add_internal` and `add_found`.
module _ (call : Adder) (q : PackageQuery) (all : List InstallOption) (o : InstallOption) (d : Bool)
    (p : InstallationPlan) where
  pub select_option-failed :
      {ts : Forest} {error : PlanError} {p' : InstallationPlan}
      → add_dependencies call o.install.dependencies (selected_plan o p) ≡ some (ts, some error, p')
      → select_option call q all o d p
        ≡ some (node q (some o.pkg) (some o.install) all (some (dependency q error)) ts, p')
  unfolding select_option
  select_option-failed e = ground arith

  pub select_option-done :
      {ts : Forest} {p' : InstallationPlan}
      → add_dependencies call o.install.dependencies (selected_plan o p) ≡ some (ts, none, p')
      → select_option call q all o d p
        ≡ some (
          node q (some o.pkg) (some o.install) all none ts,
          add_directives d o.install.directives p',
        )
  unfolding select_option
  select_option-done e = ground arith

  pub add_internal-old :
      {pkg : Package}
      → check_name p o.pkg.name ≡ some pkg
      → add_internal call q all o d p ≡ some (node q (some pkg) none all none nil, p)
  unfolding add_internal
  add_internal-old e = ground arith

  pub add_internal-new :
      {r : Tree × InstallationPlan}
      → check_name p o.pkg.name ≡ none
      → select_option call q all o d p ≡ some r
      → add_internal call q all o d p ≡ some r
  unfolding add_internal
  add_internal-new e f = ground arith

pub is_installed-check_name :
    (p : InstallationPlan) (name : PackageName) {pkg : Package}
    → check_name p name ≡ some pkg
    → is_installed p name.name ≡ true
unfolding check_name
is_installed-check_name p name e = ground arith

pub is_installed-check_name-none :
    (p : InstallationPlan) (name : PackageName)
    → check_name p name ≡ none
    → is_installed p name.name ≡ false
unfolding check_name
is_installed-check_name-none p name e = ground arith
