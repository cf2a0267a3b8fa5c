-- ===== src/Plan/Add.antt =====
-- The planning operations of pkg/database/plan.go. `add` and `addInternal` call each other through
-- the dependency graph, which may be cyclic: `add` takes fuel, and `none` means that the fuel ran
-- out. `Plan.Total` bounds the fuel that is needed.
use tinyrange.Prelude.{
  ℕ, zero, suc, String, Bool, Option, none, some, List, [], ◌∷◌, ◌++◌, str_eq, if◌then◌else◌, ◌⊎◌,
  inl, inr,
}
use tinyrange.Package.Defs.{PackageQuery, PackageName, Package, Directive, TagList, is_empty}
use tinyrange.Plan.Types.{
  InstallOption, PlanError, query_failed, no_package, no_installer, installer_failed, dependency,
  Tree, node, Forest, nil, cons, InstallInfo, InstallationPlan, PackageSource, blocking, Adder,
}

unfoldable pub lookup_installed : String → List (String × InstallInfo) → Option InstallInfo
lookup_installed k [] = none
lookup_installed k ((j, info) ∷ m) = if str_eq j k then some info else lookup_installed k m

unfoldable pub check_name : InstallationPlan → PackageName → Option Package
check_name plan name = elim (lookup_installed name.name plan.installed_names) [
  | none ↦ none
  | some info ↦ some info.pkg
]

unfoldable pub add_name : PackageName → Package → InstallationPlan → InstallationPlan
add_name name pkg plan = record plan {
  installed_names =
      (name.name, record { version = name.version; pkg = pkg }) ∷ plan.installed_names;
}

unfoldable pub add_names : List PackageName → Package → InstallationPlan → InstallationPlan
add_names [] pkg plan = plan
add_names (alias ∷ aliases) pkg plan = add_names aliases pkg (add_name alias pkg plan)

-- The loop over `option.install.Dependencies`: the children, the error that stops it, the plan.
unfoldable pub add_dependencies :
    Adder
    → List PackageQuery
    → InstallationPlan
    → Option (Forest × Option PlanError × InstallationPlan)
add_dependencies add [] plan = some (nil, none, plan)
add_dependencies add (depend ∷ depends) plan = elim (add depend plan) [
  | none ↦ none
  | some (child, plan') ↦ elim (blocking plan'.debug child) [
    | some error ↦ some (nil, some error, plan')
    | none ↦ elim (add_dependencies add depends plan') [
      | none ↦ none
      | some (children, error, plan'') ↦ some (cons child children, error, plan'')
    ]
  ]
]

abbrev pub add_directives : Bool → List Directive → InstallationPlan → InstallationPlan
add_directives is_default new plan =
    if is_default
    then record plan { base_directives = plan.base_directives ++ new }
    else record plan { directives = plan.directives ++ new }

-- The rest of `addInternal`, from `ret.Package = option.pkg` on.
unfoldable pub select_option :
    Adder
    → PackageQuery
    → List InstallOption
    → InstallOption
    → Bool
    → InstallationPlan
    → Option (Tree × InstallationPlan)
select_option add query options option is_default plan =
    elim (add_dependencies add option.install.dependencies
      (add_names option.pkg.aliases option.pkg (add_name option.pkg.name option.pkg plan))) [
        | none ↦ none
        | some (children, some error, plan') ↦ some (
          node query (some option.pkg) (some option.install) options (some (dependency query error))
              children,
          plan',
        )
        | some (children, none, plan') ↦ some (
          node query (some option.pkg) (some option.install) options none children,
          add_directives is_default option.install.directives plan',
        )
      ]

unfoldable pub add_internal :
    Adder
    → PackageQuery
    → List InstallOption
    → InstallOption
    → Bool
    → InstallationPlan
    → Option (Tree × InstallationPlan)
add_internal add query options option is_default plan = elim (check_name plan option.pkg.name) [
  | some pkg ↦ some (node query (some pkg) none options none nil, plan)
  | none ↦ select_option add query options option is_default plan
]

-- The loop of `add` over the options of a query by tags.
unfoldable pub add_options :
    Adder
    → PackageQuery
    → List InstallOption
    → List InstallOption
    → Bool
    → InstallationPlan
    → Option (Forest × Option PlanError × InstallationPlan)
add_options add query options [] is_default plan = some (nil, none, plan)
add_options add query options (option ∷ rest) is_default plan =
    elim (add_internal add query options option is_default plan) [
      | none ↦ none
      | some (child, plan') ↦ elim (blocking plan'.debug child) [
        | some error ↦ some (nil, some error, plan')
        | none ↦ elim (add_options add query options rest is_default plan') [
          | none ↦ none
          | some (children, error, plan'') ↦ some (cons child children, error, plan'')
        ]
      ]
    ]

-- `ret.Error = ...; return` before any option is known
abbrev pub error_tree : PackageQuery → PlanError → Tree
error_tree query error = node query none none [] (some error) nil

module _ (source : PackageSource) where
  -- the loop that collects `options`: the package whose installer fails, or the options
  unfoldable pub collect_options : List Package → TagList → Package ⊎ List InstallOption
  collect_options [] tags = inr []
  collect_options (result ∷ results) tags = elim (source.installer_for result tags) [
    | none ↦ inl result
    | some installer ↦ elim (collect_options results tags) [
      | inl failed ↦ inl failed
      | inr options ↦ inr (record { pkg = result; install = installer } ∷ options)
    ]
  ]

  -- The part of `add` behind the collection of the options.
  unfoldable pub add_found :
      Adder
      → PackageQuery
      → List InstallOption
      → Bool
      → InstallationPlan
      → Option (Tree × InstallationPlan)
  add_found add query [] is_default plan =
      some (node query none none [] (some (no_installer query)) nil, plan)
  add_found add query (option ∷ options) is_default plan =
      if is_empty query.tags
      then add_internal add query (option ∷ options) option is_default plan
      else elim (add_options add query (option ∷ options) (option ∷ options) is_default plan) [
        | none ↦ none
        | some (children, some error, plan') ↦ some (
          node query none none (option ∷ options) (some (dependency query error)) children,
          plan',
        )
        | some (children, none, plan') ↦
            some (node query none none (option ∷ options) none children, plan')
      ]

  unfoldable pub add_step :
      Adder → PackageQuery → Bool → InstallationPlan → Option (Tree × InstallationPlan)
  unfolding collect_options
  add_step add query is_default plan = elim (source.query query) [
    | none ↦ some (error_tree query (query_failed query), plan)
    | some [] ↦ some (error_tree query (no_package query), plan)
    | some (result ∷ results) ↦ elim (collect_options (result ∷ results) plan.tags) [
      | inl failed ↦ some (error_tree query (installer_failed failed.name), plan)
      | inr options ↦ add_found add query options is_default plan
    ]
  ]

  -- `InstallationPlan.add`
  unfoldable pub add : ℕ → PackageQuery → Bool → InstallationPlan → Option (Tree × InstallationPlan)
  add zero query is_default plan = none
  add (suc fuel) query is_default plan =
      add_step (λ q p. add fuel q is_default p) query is_default plan

  -- `InstallationPlan.Add`: the error, and the plan in either case
  unfoldable pub add_query :
      ℕ → PackageQuery → Bool → InstallationPlan → Option (Option PlanError × InstallationPlan)
  add_query fuel query is_default plan = elim (add fuel query is_default plan) [
    | none ↦ none
    | some (tree, plan') ↦ elim (blocking plan'.debug tree) [
      | some error ↦ some (some error, plan')
      | none ↦ some (none, record plan' { trees = plan'.trees ++ tree ∷ [] })
    ]
  ]
