-- ===== src/Collection/Sound.antt =====
-- The answer to a query by cases, and that it holds only packages that match.

use tinyrange.Prelude.{
  String, ◌≡◌, true, false, none, some, List, [], ◌∷◌, ◌++◌, arith, inl, inr, Bool-cases,
  Option-cases, All, str_eq,
}
use tinyrange.Package.Defs.{PackageQuery, Package, name_matches, package_matches, is_empty}
use tinyrange.Package.Matching.{name_matches-package_matches}
use tinyrange.Collection.Query.{
  Collection, lookup_packages, raw_values, direct_matches, alias_matches, tag_matches,
  sort_packages, query_packages,
}
use tinyrange.Collection.Members.{
  All-append, All-sort_packages, All-direct_matches, All-alias_matches, All-tag_matches,
}

-- The four ways in which a query is answered.
abbrev pub both : PackageQuery → List Package → List Package
both q l = sort_packages (direct_matches q l) ++ sort_packages (alias_matches q l)

module _ (c : Collection) (q : PackageQuery) where
  pub query_packages-partial :
      q.match_partial_name ≡ true → query_packages c q ≡ both q (raw_values c.raw_packages)
  unfolding query_packages
  query_packages-partial e = simp e

  pub query_packages-tags :
      q.match_partial_name ≡ false
      → is_empty q.tags ≡ false
      → query_packages c q ≡ sort_packages (tag_matches q (raw_values c.raw_packages))
  unfolding query_packages
  query_packages-tags e f = simp (e, f)

  pub query_packages-missing :
      q.match_partial_name ≡ false
      → is_empty q.tags ≡ true
      → lookup_packages q.name c.packages ≡ none
      → query_packages c q ≡ []
  unfolding query_packages
  query_packages-missing e f g = simp (e, f, g)

  pub query_packages-name :
      (l : List Package)
      → q.match_partial_name ≡ false
      → is_empty q.tags ≡ true
      → lookup_packages q.name c.packages ≡ some l
      → query_packages c q ≡ both q l
  unfolding query_packages
  query_packages-name l e f g = simp (e, f, g)

-- A predicate on the packages of a collection that match holds on the answer.
module _ (P : Package → Type 0) (q : PackageQuery) where
  abbrev pub IfMatches : Package → Type 0
  IfMatches x = package_matches x q ≡ true → P x

  direct_part :
      (xs : List Package) → All IfMatches xs → All (λ x. name_matches x.name q ≡ true → P x) xs
  direct_part [] h = tt
  direct_part (x ∷ xs) h = ((λ m. h.0 (name_matches-package_matches x q m)), direct_part xs h.1)

  both_parts :
      (xs : List Package)
      → All IfMatches xs
      → All P (sort_packages (direct_matches q xs) ++ sort_packages (alias_matches q xs))
  both_parts xs h =
      All-append P (sort_packages (direct_matches q xs)) (sort_packages (alias_matches q xs))
        (All-sort_packages P (direct_matches q xs) (All-direct_matches P q xs (direct_part xs h)))
        (All-sort_packages P (alias_matches q xs) (All-alias_matches P q xs h))

  abbrev pub AllListed : List (String × List Package) → Type 0
  AllListed [] = Unit
  AllListed ((k, l) ∷ m) = All IfMatches l × AllListed m

  AllListed-lookup :
      (k : String) (m : List (String × List Package)) (l : List Package)
      → AllListed m
      → lookup_packages k m ≡ some l
      → All IfMatches l
  unfolding lookup_packages
  AllListed-lookup k [] l h e = cc
  AllListed-lookup k ((j, x) ∷ m) l h e = elim (Bool-cases (str_eq j k)) [
    | inl f ↦ let same : x ≡ l = ground arith in rw (← same) h.0
    | inr f ↦ AllListed-lookup k m l h.1 (ground arith)
  ]

  pub All-query_packages :
      (c : Collection)
      → All IfMatches (raw_values c.raw_packages)
      → AllListed c.packages
      → All P (query_packages c q)
  All-query_packages c raw listed = elim (Bool-cases q.match_partial_name) [
    | inl e ↦ rw (query_packages-partial c q e) (both_parts (raw_values c.raw_packages) raw)
    | inr e ↦ elim (Bool-cases (is_empty q.tags)) [
      | inr f ↦ rw (query_packages-tags c q e f) (
          All-sort_packages P (tag_matches q (raw_values c.raw_packages))
            (All-tag_matches P q (raw_values c.raw_packages) raw))
      | inl f ↦ elim (Option-cases (lookup_packages q.name c.packages)) [
        | inl g ↦ rw (query_packages-missing c q e f g) tt
        | inr (l, g) ↦
            rw (query_packages-name c q l e f g)
              (both_parts l (AllListed-lookup q.name c.packages l listed g))
      ]
    ]
  ]

All-trivial :
    (q : PackageQuery) (xs : List Package) → All (IfMatches (λ x. package_matches x q ≡ true) q) xs
All-trivial q [] = tt
All-trivial q (x ∷ xs) = ((λ h. h), All-trivial q xs)

AllListed-trivial :
    (q : PackageQuery) (m : List (String × List Package))
    → AllListed (λ x. package_matches x q ≡ true) q m
AllListed-trivial q [] = tt
AllListed-trivial q ((k, l) ∷ m) = (All-trivial q l, AllListed-trivial q m)

-- Every package in the answer to a query matches the query.
pub query_packages_sound :
    (c : Collection) (q : PackageQuery) → All (λ x. package_matches x q ≡ true) (query_packages c q)
query_packages_sound c q =
    All-query_packages (λ x. package_matches x q ≡ true) q c
      (All-trivial q (raw_values c.raw_packages)) (AllListed-trivial q c.packages)
