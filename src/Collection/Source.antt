-- ===== src/Collection/Source.antt =====
-- A collection serves the planner: the interface `PackageSource`, with the names of the collection
-- for the known names. `InstallerFor` runs the script's installer callback, a parameter here.
use tinyrange.Prelude.{
  mem_text-append, String, ◌≡◌, true, Option, some, List, [], ◌∷◌, ◌++◌, arith, mem_text, All,
  eq_iff,
}
use tinyrange.Package.Defs.{PackageQuery, Package, Installer, TagList}
use tinyrange.Collection.Query.{Collection, raw_values, query_packages}
use tinyrange.Collection.Sound.{All-query_packages, AllListed, IfMatches}
use tinyrange.Plan.Types.{PackageSource}

abbrev names_of : List Package → List String
names_of [] = []
names_of (x ∷ xs) = x.name.name ∷ names_of xs

abbrev listed_names : List (String × List Package) → List String
listed_names [] = []
listed_names ((k, l) ∷ m) = names_of l ++ listed_names m

-- the names of all packages of a collection
unfoldable pub all_names : Collection → List String
all_names c = names_of (raw_values c.raw_packages) ++ listed_names c.packages

abbrev KnownIn : List String → Package → Type 0
KnownIn names x = mem_text x.name.name names ≡ true

module _ (q : PackageQuery) (names : List String) where
  known_packages :
      (xs : List Package)
      → ((k : String) → mem_text k (names_of xs) ≡ true → mem_text k names ≡ true)
      → All (IfMatches (KnownIn names) q) xs
  known_packages [] h = tt
  known_packages (x ∷ xs) h = (
    (λ m. h x.name.name (ground (arith, eq_iff x.name.name x.name.name))),
    known_packages xs (λ k m. h k (ground (arith, m))),
  )

  known_listed :
      (m : List (String × List Package))
      → ((k : String) → mem_text k (listed_names m) ≡ true → mem_text k names ≡ true)
      → AllListed (KnownIn names) q m
  known_listed [] h = tt
  known_listed ((k, l) ∷ m) h = (
    known_packages l
        (λ j e. h j (ground (arith, mem_text-append j (names_of l) (listed_names m), e))),
    known_listed m
        (λ j e. h j (ground (arith, mem_text-append j (names_of l) (listed_names m), e))),
  )

query_packages-known :
    (c : Collection) (q : PackageQuery) → All (KnownIn (all_names c)) (query_packages c q)
unfolding all_names
query_packages-known c q =
    let raw = names_of (raw_values c.raw_packages) in
    All-query_packages (KnownIn (all_names c)) q c
      (known_packages q (all_names c) (raw_values c.raw_packages)
        (λ k e. ground (arith, mem_text-append k raw (listed_names c.packages), e)))
      (known_listed q (all_names c) c.packages
        (λ k e. ground (arith, mem_text-append k raw (listed_names c.packages), e)))

pub collection_known :
    (c : Collection) (q : PackageQuery) (results : List Package)
    → some (query_packages c q) ≡ some results
    → All (KnownIn (all_names c)) results
collection_known c q results e =
    let same : query_packages c q ≡ results = cc e in rw same at (query_packages-known c q)

abbrev pub collection_source : Collection → (Package → TagList → Option Installer) → PackageSource
collection_source c installer_for = record {
  query = λ q. some (query_packages c q);
  installer_for = installer_for;
  known_names = all_names c;
  query_known = λ q results e. collection_known c q results e;
}
