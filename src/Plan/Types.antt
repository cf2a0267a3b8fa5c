-- ===== src/Plan/Types.antt =====
-- The data of pkg/database/plan.go: `InstallationPlan` is a record, the map `installedNames` an
-- association list whose first entry for a name counts, and an `installationTree` a tree.
use tinyrange.Prelude.{
  String, Bool, true, Option, none, some, List, [], mem_text, ◌≡◌, All, if◌then◌else◌,
}
use tinyrange.Package.Defs.{PackageQuery, PackageName, Package, Installer, Directive, TagList}

pub record InstallOption : Type 0 where
  pub pkg : Package
  pub install : Installer

-- The messages of the errors, as data. `dependency` is `error adding dependency for ...`.
pub data PlanError : Type 0 where
  query_failed no_package no_installer : PackageQuery → PlanError
  installer_failed : PackageName → PlanError
  dependency : PackageQuery → PlanError → PlanError

-- `node query package installer options error dependencies`
mutual
  pub data Tree : Type 0 where
    node :
        PackageQuery
        → Option Package
        → Option Installer
        → List InstallOption
        → Option PlanError
        → Forest
        → Tree

  pub data Forest : Type 0 where
    nil : Forest
    cons : Tree → Forest → Forest

abbrev pub tree_error : Tree → Option PlanError
tree_error (node query pkg installer options error dependencies) = error

abbrev pub tree_package : Tree → Option Package
tree_package (node query pkg installer options error dependencies) = pkg

pub record InstallInfo : Type 0 where
  pub version : String
  pub pkg : Package

pub record InstallationPlan : Type 0 where
  pub trees : List Tree
  pub directives : List Directive
  pub base_directives : List Directive
  pub tags : TagList
  pub debug : Bool
  pub installed_names : List (String × InstallInfo)

-- `NewInstallationPlan`
abbrev pub new_plan : TagList → Bool → InstallationPlan
new_plan tags debug = record {
  trees = [];
  directives = [];
  base_directives = [];
  tags = tags;
  debug = debug;
  installed_names = [];
}

-- What the planner asks of a container builder: `Packages.Query`, and `Packages.InstallerFor`, which
-- runs a starlark callback; `none` is an error. `known_names` bounds the packages that queries find.
pub record PackageSource : Type 0 where
  pub query : PackageQuery → Option (List Package)
  pub installer_for : Package → TagList → Option Installer
  pub known_names : List String
  pub query_known :
      (q : PackageQuery) (results : List Package)
      → query q ≡ some results
      → All (λ pkg. mem_text pkg.name.name known_names ≡ true) results

-- `child.Error != nil && !plan.options.Debug`
abbrev pub blocking : Bool → Tree → Option PlanError
blocking debug child = if debug then none else tree_error child

-- a call of `add` for one query: the tree and the plan that it leaves
abbrev pub Adder : Type 0
Adder = PackageQuery → InstallationPlan → Option (Tree × InstallationPlan)
