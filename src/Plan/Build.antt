-- ===== src/Plan/Build.antt =====
-- `ContainerBuilder.Plan` of pkg/database/builder.go, and `EmitDockerfile` of pkg/database/plan.go.
use Prim.Native.String.{◌++◌ as append_text}
use tinyrange.Prelude.{ℕ, String, Bool, false, Option, none, some, List, [], ◌∷◌, if◌then◌else◌}
use tinyrange.Package.Defs.{
  PackageQuery, Directive, fetch_oci_image, run_command, other, TagList, contains_tag,
}
use tinyrange.Plan.Types.{PlanError, InstallationPlan, PackageSource, new_plan}
use tinyrange.Plan.Add.{add_query}

-- The fields of `ContainerBuilder` that planning reads. `plan_callback` runs the starlark callback
-- on the plan and reads the directives out of its answer; `none` is any error on the way.
pub record ContainerBuilder : Type 0 where
  pub default_packages : List PackageQuery
  pub split_default_packages : Bool
  pub packages : PackageSource
  pub plan_callback : InstallationPlan → Option (List Directive)

-- `for _, pkg := range packages { if err := plan.Add(...); err != nil { return nil, err } }`
unfoldable pub add_all :
    PackageSource
    → ℕ
    → List PackageQuery
    → Bool
    → InstallationPlan
    → Option (Option PlanError × InstallationPlan)
add_all source fuel [] is_default plan = some (none, plan)
add_all source fuel (q ∷ qs) is_default plan = elim (add_query source fuel q is_default plan) [
  | none ↦ none
  | some (some error, plan') ↦ some (some error, plan')
  | some (none, plan') ↦ add_all source fuel qs is_default plan'
]

-- The plan before the callback runs.
unfoldable pub plan_packages :
    ContainerBuilder
    → ℕ
    → List PackageQuery
    → TagList
    → Bool
    → Option (Option PlanError × InstallationPlan)
plan_packages builder fuel packages tags debug =
    elim (if contains_tag tags "defaults"
      then add_all builder.packages fuel builder.default_packages builder.split_default_packages
          (new_plan tags debug)
      else some (none, new_plan tags debug)) [
        | none ↦ none
        | some (some error, plan) ↦ some (some error, plan)
        | some (none, plan) ↦ add_all builder.packages fuel packages false plan
      ]

pub data BuildPlan : Type 0 where
  planned : InstallationPlan → BuildPlan
  add_failed : PlanError → BuildPlan
  callback_failed : BuildPlan

-- `ContainerBuilder.Plan`
unfoldable pub plan_build :
    ContainerBuilder → ℕ → List PackageQuery → TagList → Bool → Option BuildPlan
plan_build builder fuel packages tags debug =
    elim (plan_packages builder fuel packages tags debug) [
      | none ↦ none
      | some (some error, plan) ↦ some (add_failed error)
      | some (none, plan) ↦
          if debug then some (planned plan) else elim (builder.plan_callback plan) [
            | none ↦ some callback_failed
            | some directives ↦ some (planned (record plan { directives = directives }))
          ]
    ]

emit_line : String → Directive → Option String
emit_line ret (fetch_oci_image from) =
    some (append_text ret (append_text "FROM " (append_text from "\n")))
emit_line ret (run_command command) =
    some (append_text ret (append_text "RUN " (append_text command "\n")))
emit_line ret (other tag) = none

unfoldable pub emit_loop : String → List Directive → Option String
unfolding emit_line
emit_loop ret [] = some ret
emit_loop ret (d ∷ ds) = elim (emit_line ret d) [ none ↦ none | some ret' ↦ emit_loop ret' ds ]

-- `EmitDockerfile`; `none` is the error about a directive of another type
unfoldable pub emit_dockerfile : InstallationPlan → Option String
unfolding emit_loop
emit_dockerfile plan = emit_loop "" plan.directives
