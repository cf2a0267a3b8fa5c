-- ===== src/Collection/Examples.antt =====
-- The theorems on the package index at concrete packages.
use tinyrange.Prelude.{String, ◌≡◌, refl, true, [], ◌∷◌, inl, inr, All}
use tinyrange.Package.Defs.{PackageQuery, PackageName, Package, package_matches, query_of_name}
use tinyrange.Collection.Query.{Collection, empty_collection, query_packages}
use tinyrange.Collection.Members.{In}
use tinyrange.Collection.Sound.{query_packages_sound}
use tinyrange.Collection.Complete.{add_packages, query_packages-add_package}

abbrev named : String → PackageName
named s = record { name = s; version = "1"; tags = [] }

abbrev lib : Package
lib = record { name = named "lib"; aliases = named "so:lib" ∷ []; tags = [] }

abbrev app : Package
app = record { name = named "app"; aliases = named "lib" ∷ []; tags = [] }

abbrev index : Collection
index = add_packages (lib ∷ app ∷ []) empty_collection

abbrev wanted : PackageQuery
wanted = query_of_name (named "lib")

query_packages_sound_example :
    All (λ x. package_matches x wanted ≡ true) (query_packages index wanted)
query_packages_sound_example = query_packages_sound index wanted

query_packages-add_package_example : In lib (query_packages index (query_of_name (named "so:lib")))
query_packages-add_package_example =
    query_packages-add_package empty_collection lib (app ∷ []) (named "so:lib") (inr (inl refl))
