-- ===== src/Package/Examples.antt =====
-- The theorems on queries at concrete packages.
use tinyrange.Prelude.{All, ◌≡◌, refl, false, true, [], ◌∷◌, inl, inr}
use tinyrange.Package.Defs.{
  PackageQuery, PackageName, Package, package_matches, tags_match, parse_package_query,
  query_of_name, key,
}
use tinyrange.Package.Matching.{HasTag, package_matches-tags, package_matches-own}
use tinyrange.Package.Query.{parse_package_query-key}

abbrev lib_name : PackageName
lib_name = record { name = "lib"; version = "1.2:3"; tags = [] }

abbrev so_name : PackageName
so_name = record { name = "so:lib"; version = ""; tags = [] }

abbrev lib : Package
lib = record { name = lib_name; aliases = so_name ∷ []; tags = "a" ∷ "b" ∷ [] }

abbrev tagged : PackageQuery
tagged = record {
  match_direct = true;
  name = "other";
  match_partial_name = false;
  version = "";
  tags = "b" ∷ [];
}

parse_star : (parse_package_query "*").name ≡ ""
unfolding parse_package_query
parse_star = refl

parse_version : (parse_package_query "lib:1.2:3").version ≡ "1.2:3"
unfolding parse_package_query
parse_version = refl

tagged_matches : package_matches lib tagged ≡ true
unfolding package_matches tags_match
tagged_matches = refl

package_matches-tags_example :
    (package_matches lib tagged ≡ true → All (HasTag ("a" ∷ "b" ∷ [])) ("b" ∷ []))
    × (All (HasTag ("a" ∷ "b" ∷ [])) ("b" ∷ []) → package_matches lib tagged ≡ true)
package_matches-tags_example = package_matches-tags lib tagged refl refl

package_matches-own_example : package_matches lib (query_of_name so_name) ≡ true
package_matches-own_example = package_matches-own lib so_name (inr (inl refl))

parse_package_query-key_example : parse_package_query (key lib_name) ≡ query_of_name lib_name
parse_package_query-key_example = parse_package_query-key lib_name refl
