-- ===== src/Collection/Query.antt =====
-- pkg/database/collection.go: the package index of a container builder. `PackageCollection` keeps
-- two maps, modelled as association lists: `raw_packages` by key, and `packages`, which lists under
-- each name the packages that have it for a name or an alias. Loading (parallel starlark callbacks
-- that end in `add_package`) and the mutex around `add_package` are left out: each call is atomic.
use text.Mathlib.Text.{is_le}
use Prim.Native.String.{compare}
use tinyrange.Prelude.{String, not, Option, none, some, List, [], ◌∷◌, ◌++◌, str_eq, if◌then◌else◌}
use tinyrange.Package.Defs.{
  PackageQuery, PackageName, Package, key, name_matches, package_matches, is_empty,
}

pub record Collection : Type 0 where
  pub raw_packages : List (String × Package)
  pub packages : List (String × List Package)

-- `NewPackageCollection`
abbrev pub empty_collection : Collection
empty_collection = record { raw_packages = []; packages = [] }

-- `parser.RawPackages[k] = pkg`
unfoldable pub put_raw : String → Package → List (String × Package) → List (String × Package)
put_raw k pkg [] = (k, pkg) ∷ []
put_raw k pkg ((j, old) ∷ m) = if str_eq j k then (k, pkg) ∷ m else (j, old) ∷ put_raw k pkg m

-- `parser.Packages[k] = append(parser.Packages[k], pkg)`
unfoldable pub append_under :
    String → Package → List (String × List Package) → List (String × List Package)
append_under k pkg [] = (k, pkg ∷ []) ∷ []
append_under k pkg ((j, old) ∷ m) =
    if str_eq j k then (j, old ++ pkg ∷ []) ∷ m else (j, old) ∷ append_under k pkg m

unfoldable pub append_aliases :
    List PackageName → Package → List (String × List Package) → List (String × List Package)
append_aliases [] pkg m = m
append_aliases (a ∷ aliases) pkg m = append_aliases aliases pkg (append_under a.name pkg m)

unfoldable pub add_package : Package → Collection → Collection
add_package pkg c = record {
  raw_packages = put_raw (key pkg.name) pkg c.raw_packages;
  packages = append_aliases pkg.aliases pkg (append_under pkg.name.name pkg c.packages);
}

-- `parser.Packages[k]`
unfoldable pub lookup_packages : String → List (String × List Package) → Option (List Package)
lookup_packages k [] = none
lookup_packages k ((j, v) ∷ m) = if str_eq j k then some v else lookup_packages k m

unfoldable pub raw_values : List (String × Package) → List Package
raw_values [] = []
raw_values ((k, pkg) ∷ m) = pkg ∷ raw_values m

-- the two lists that the loops of `Query` fill
unfoldable pub direct_matches : PackageQuery → List Package → List Package
direct_matches query [] = []
direct_matches query (pkg ∷ pkgs) =
    let rest = direct_matches query pkgs in if name_matches pkg.name query then pkg ∷ rest else rest

unfoldable pub alias_matches : PackageQuery → List Package → List Package
alias_matches query [] = []
alias_matches query (pkg ∷ pkgs) =
    let rest = alias_matches query pkgs in
    if name_matches pkg.name query
    then rest
    else if package_matches pkg query
    then pkg ∷ rest
    else rest

unfoldable pub tag_matches : PackageQuery → List Package → List Package
tag_matches query [] = []
tag_matches query (pkg ∷ pkgs) =
    let rest = tag_matches query pkgs in if package_matches pkg query then pkg ∷ rest else rest

-- `slices.SortFunc` by `Name.String()`. Go leaves the order of equal keys open.
unfoldable pub insert_sorted : Package → List Package → List Package
insert_sorted pkg [] = pkg ∷ []
insert_sorted pkg (x ∷ xs) =
    if is_le (compare (key pkg.name) (key x.name)) then pkg ∷ x ∷ xs else x ∷ insert_sorted pkg xs

unfoldable pub sort_packages : List Package → List Package
sort_packages [] = []
sort_packages (x ∷ xs) = insert_sorted x (sort_packages xs)

-- `PackageCollection.Query`, which never answers with an error
unfoldable pub query_packages : Collection → PackageQuery → List Package
query_packages c query =
    if query.match_partial_name
    then sort_packages (direct_matches query (raw_values c.raw_packages))
      ++ sort_packages (alias_matches query (raw_values c.raw_packages))
    else if not (is_empty query.tags)
    then sort_packages (tag_matches query (raw_values c.raw_packages))
    else elim (lookup_packages query.name c.packages) [
      | none ↦ []
      | some opts ↦
          sort_packages (direct_matches query opts) ++ sort_packages (alias_matches query opts)
    ]
