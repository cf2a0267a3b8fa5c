-- ===== src/Plan/Examples.antt =====
-- The theorems on the planner at a small collection with a dependency cycle, and a failing package.
use tinyrange.Prelude.{
  Nodup, ◌<◌, String, ◌≡◌, ◌≢◌, refl, true, false, Option, none, some, List, [], ◌∷◌, ◌++◌, arith,
  str_eq, if◌then◌else◌, length, mem_text,
}
use tinyrange.Package.Defs.{PackageQuery, PackageName, Package, Installer, TagList, run_command}
use tinyrange.Collection.Query.{empty_collection}
use tinyrange.Collection.Complete.{add_packages}
use tinyrange.Collection.Source.{collection_source}
use tinyrange.Plan.Types.{
  Tree, InstallationPlan, PackageSource, tree_error, tree_package, new_plan, PlanError, dependency,
  no_package,
}
use tinyrange.Plan.Add.{
  add, add_step, add_found, add_options, add_internal, select_option, add_dependencies, add_names,
  add_name, check_name, lookup_installed, collect_options, add_query, error_tree,
}
use tinyrange.Collection.Query.{
  query_packages, direct_matches, alias_matches, tag_matches, sort_packages, insert_sorted,
  lookup_packages, raw_values, add_package, put_raw, append_under, append_aliases,
}
use tinyrange.Collection.Source.{all_names}
use tinyrange.Package.Defs.{
  name_matches, package_matches, any_alias_matches, tags_match, contains_tag, key,
}
use tinyrange.Plan.Spec.{
  tree_directives, forest_directives, tree_selected, forest_selected, tree_closed, forest_closed,
  satisfied, all_satisfied,
}
use tinyrange.Plan.Grows.{is_installed}
use tinyrange.Plan.Results.{add_total, add-directives, add-closed, add_once, add_keeps}
use tinyrange.Plan.Again.{add_again}
use tinyrange.Plan.Packages.{tree_packages, tree_packages-add}
use tinyrange.Plan.Build.{ContainerBuilder, plan_packages, add_all}
use tinyrange.Plan.AddAll.{trees_selected, trees_queries, trees_closed}
use tinyrange.Plan.BuildResults.{
  defaults, KeptApart, plan_packages_total, plan_packages-directives, plan_packages-closed,
  plan_packages_once,
}

abbrev named : String → PackageName
named s = record { name = s; version = "1"; tags = [] }

abbrev make_package : String → List PackageName → TagList → Package
make_package s aliases tags = record { name = named s; aliases = aliases; tags = tags }

abbrev query_for : String → PackageQuery
query_for s = record {
  match_direct = false;
  name = s;
  match_partial_name = false;
  version = "";
  tags = [];
}

abbrev installer : String → List PackageQuery → Installer
installer s deps = record { tags = []; directives = run_command s ∷ []; dependencies = deps }

-- app needs lib (by an alias) and lib needs app; bad needs a package that is not there.
abbrev install : Package → TagList → Option Installer
install pkg tags =
    if str_eq pkg.name.name "app"
    then some (installer "app" (query_for "so:lib" ∷ []))
    else if str_eq pkg.name.name "lib"
    then some (installer "lib" (query_for "app" ∷ []))
    else some (installer "bad" (query_for "absent" ∷ []))

abbrev source : PackageSource
source =
    collection_source
      (add_packages
        (make_package "app" [] []
          ∷ make_package "lib" (named "so:lib" ∷ []) ("t" ∷ [])
          ∷ make_package "bad" [] []
          ∷ [])
        empty_collection)
      install

abbrev start : InstallationPlan
start = new_plan [] false

-- Opens everything that a run of the planner computes with.
run_query : PackageQuery → Tree × InstallationPlan
unfolding add add_step add_found add_options add_internal select_option add_dependencies add_names
    add_name check_name lookup_installed collect_options query_packages direct_matches alias_matches
    tag_matches sort_packages insert_sorted lookup_packages raw_values add_package put_raw
    append_under append_aliases name_matches package_matches any_alias_matches tags_match
    contains_tag key all_names tree_directives forest_directives tree_selected forest_selected
    tree_closed forest_closed satisfied
run_query q = elim (add source 9 q false start) [
  | none ↦ (error_tree q (no_package q), start)
  | some r ↦ r
]

abbrev run : String → Tree × InstallationPlan
run s = run_query (query_for s)

enough : length source.known_names < 9
unfolding run_query
enough = omega arith

run_app : add source 9 (query_for "app") false start ≡ some ((run "app").0, (run "app").1)
unfolding run_query
run_app = refl

run_bad : add source 9 (query_for "bad") false start ≡ some ((run "bad").0, (run "bad").1)
unfolding run_query
run_bad = refl

-- lib is installed before app, in spite of the cycle
app_directives : (run "app").1.directives ≡ run_command "lib" ∷ run_command "app" ∷ []
unfolding run_query
app_directives = refl

app_error : tree_error (run "app").0 ≡ none
unfolding run_query
app_error = refl

bad_error :
    tree_error (run "bad").0 ≡ some (dependency (query_for "bad") (no_package (query_for "absent")))
unfolding run_query
bad_error = refl

bad_package : tree_package (run "bad").0 ≢ none
unfolding run_query
bad_package e = cc

abbrev by_tag : PackageQuery
by_tag = record (query_for "") { tags = "t" ∷ [] }

run_by_tag : add source 9 by_tag false start ≡ some ((run_query by_tag).0, (run_query by_tag).1)
unfolding run_query
run_by_tag = refl

tree_packages-add_example :
    (rest : List (Option Package)) × (tree_packages (run_query by_tag).0 ≡ none ∷ rest)
tree_packages-add_example =
    tree_packages-add source 9 by_tag false start (run_query by_tag).1 (run_query by_tag).0 refl
      run_by_tag

add_total_example :
    (r : Tree × InstallationPlan) × (add source 9 (query_for "app") false start ≡ some r)
add_total_example = add_total source 9 (query_for "app") false start enough

add-directives_example :
    ((run "app").1.directives ≡ [] ++ tree_directives (run "app").0)
    × ((run "app").1.base_directives ≡ [])
add-directives_example =
    add-directives source 9 (query_for "app") false start (run "app").1 (run "app").0 enough run_app
      app_error

add-closed_example :
    (satisfied source (run "app").1 (query_for "app") ≡ true)
    × (tree_closed source (run "app").1 (run "app").0 ≡ true)
add-closed_example =
    add-closed source 9 (query_for "app") false start (run "app").1 (run "app").0 enough run_app
      refl app_error

add_once_example :
    ((k : String)
      → mem_text k (tree_selected (run "app").0) ≡ true
      → (is_installed start k ≡ false) × (is_installed (run "app").1 k ≡ true))
    × Nodup (tree_selected (run "app").0)
add_once_example =
    add_once source 9 (query_for "app") false start (run "app").1 (run "app").0 enough run_app

add_keeps_example :
    ((k : String) → is_installed start k ≡ true → is_installed (run "bad").1 k ≡ true)
    × ((run "bad").1.debug ≡ false)
    × ((run "bad").1.tags ≡ [])
    × ((run "bad").1.trees ≡ [])
add_keeps_example =
    add_keeps source 9 (query_for "bad") false start (run "bad").1 (run "bad").0 enough run_bad

-- The first `add` of bad failed; the second one reports no error.
add_again_example :
    (again : Tree) × (add source 9 (query_for "bad") false (run "bad").1
      ≡ some (again, (run "bad").1))
    × (tree_error again ≡ none)
add_again_example =
    add_again source 9 8 (query_for "bad") false false start (run "bad").1 (run "bad").0 enough refl
      run_bad bad_package

abbrev builder : ContainerBuilder
builder = record {
  default_packages = query_for "lib" ∷ [];
  split_default_packages = true;
  packages = source;
  plan_callback = λ plan. some plan.directives;
}

abbrev wanted : List PackageQuery
wanted = query_for "app" ∷ query_for "so:lib" ∷ []

built : InstallationPlan
unfolding run_query plan_packages add_all add_query
built = elim (plan_packages builder 9 wanted ("defaults" ∷ []) false) [
  | none ↦ start
  | some (error, plan) ↦ plan
]

built_answer : plan_packages builder 9 wanted ("defaults" ∷ []) false ≡ some (none, built)
unfolding built
built_answer = refl

built_directives : built.base_directives ≡ run_command "app" ∷ run_command "lib" ∷ []
unfolding built
built_directives = refl

plan_packages_total_example :
    (r : Option PlanError × InstallationPlan) × (plan_packages builder 9 wanted
        ("defaults" ∷ [])
        false
      ≡ some r)
plan_packages_total_example = plan_packages_total builder 9 wanted ("defaults" ∷ []) false enough

plan_packages-directives_example :
    (default_trees package_trees : List Tree) × (built.trees ≡ default_trees ++ package_trees)
    × (trees_queries default_trees ≡ defaults builder ("defaults" ∷ []))
    × (trees_queries package_trees ≡ wanted)
    × KeptApart true default_trees package_trees built
plan_packages-directives_example =
    plan_packages-directives builder 9 wanted ("defaults" ∷ []) false enough built built_answer

plan_packages-closed_example :
    (all_satisfied source built (defaults builder ("defaults" ∷ [])) ≡ true)
    × (all_satisfied source built wanted ≡ true)
    × (trees_closed source built built.trees ≡ true)
plan_packages-closed_example =
    plan_packages-closed builder 9 wanted ("defaults" ∷ []) false enough built built_answer refl

plan_packages_once_example : Nodup (trees_selected built.trees)
plan_packages_once_example =
    plan_packages_once builder 9 wanted ("defaults" ∷ []) false enough built built_answer
