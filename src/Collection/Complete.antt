-- ===== src/Collection/Complete.antt =====
-- A package that was added is found under its names, whatever version is asked for.
use mathlib.Core.Path.{subst}
use tinyrange.Prelude.{
  String, ◌≡◌, refl, List, [], ◌∷◌, arith, ◌⊎◌, inl, inr, Bool-cases, Option-cases,
}
use tinyrange.Package.Defs.{PackageQuery, PackageName, Package, name_matches, query_of_name}
use tinyrange.Package.Matching.{package_matches-version, package_matches-own, HasAlias}
use tinyrange.Collection.Query.{
  Collection, add_package, append_aliases, append_under, lookup_packages, direct_matches,
  alias_matches, tag_matches, sort_packages, query_packages,
}
use tinyrange.Collection.Members.{
  In, In-append_left, In-append_right, In-sort_packages, In-direct_matches, In-alias_matches, Under,
  Under-append_under, Under-append_under_self,
}
use tinyrange.Collection.Sound.{query_packages-name}

-- The calls of `add_package` that a script makes, in order.
abbrev pub add_packages : List Package → Collection → Collection
add_packages [] c = c
add_packages (p ∷ ps) c = add_packages ps (add_package p c)

Under-append_aliases :
    (k : String) (pkg new : Package) (names : List PackageName) (m : List (String × List Package))
    → Under k m pkg
    → Under k (append_aliases names new m) pkg
unfolding append_aliases
Under-append_aliases k pkg new [] m u = u
Under-append_aliases k pkg new (a ∷ names) m u =
    Under-append_aliases k pkg new names (append_under a.name new m)
      (Under-append_under k a.name pkg new m u)

Under-append_aliases_self :
    (n : PackageName) (pkg : Package) (names : List PackageName) (m : List (String × List Package))
    → HasAlias names n
    → Under n.name (append_aliases names pkg m) pkg
unfolding append_aliases
Under-append_aliases_self n pkg [] m h = absurd h
Under-append_aliases_self n pkg (a ∷ names) m (inl e) =
    subst
      (λ (x : PackageName). Under x.name (append_aliases names pkg (append_under a.name pkg m)) pkg)
      e
      (Under-append_aliases a.name pkg pkg names (append_under a.name pkg m)
        (Under-append_under_self a.name pkg m))
Under-append_aliases_self n pkg (a ∷ names) m (inr h) =
    Under-append_aliases_self n pkg names (append_under a.name pkg m) h

Under-add_package :
    (n : PackageName) (pkg : Package) (c : Collection)
    → (pkg.name ≡ n) ⊎ HasAlias pkg.aliases n
    → Under n.name (add_package pkg c).packages pkg
unfolding add_package
Under-add_package n pkg c (inl e) =
    subst
      (λ (x : PackageName).
        Under x.name (append_aliases pkg.aliases pkg (append_under pkg.name.name pkg c.packages))
          pkg)
      e
      (Under-append_aliases pkg.name.name pkg pkg pkg.aliases _
        (Under-append_under_self pkg.name.name pkg c.packages))
Under-add_package n pkg c (inr h) = Under-append_aliases_self n pkg pkg.aliases _ h

Under-add_packages :
    (k : String) (pkg : Package) (later : List Package) (c : Collection)
    → Under k c.packages pkg
    → Under k (add_packages later c).packages pkg
unfolding add_package
Under-add_packages k pkg [] c u = u
Under-add_packages k pkg (p ∷ later) c u =
    Under-add_packages k pkg later (add_package p c) (
      Under-append_aliases k pkg p p.aliases _
        (Under-append_under k p.name.name pkg p c.packages u))

-- A package that was added is in the answer to the query for its name, and for each of its aliases,
-- whatever was added before and after it.
pub query_packages-add_package :
    (c : Collection) (pkg : Package) (later : List Package) (n : PackageName)
    → (pkg.name ≡ n) ⊎ HasAlias pkg.aliases n
    → In pkg (query_packages (add_packages later (add_package pkg c)) (query_of_name n))
query_packages-add_package c pkg later n h =
    let u = Under-add_packages n.name pkg later (add_package pkg c) (Under-add_package n pkg c h) in
    let q = query_of_name n in
    let all = add_packages later (add_package pkg c) in
    rw
      (query_packages-name all q u.opts (unfold query_of_name in refl)
        (unfold query_of_name in refl) (unfold query_of_name in u.found))
      (elim (Bool-cases (name_matches pkg.name q)) [
        | inl e ↦
            In-append_left pkg (sort_packages (direct_matches q u.opts))
              (sort_packages (alias_matches q u.opts))
              (In-sort_packages pkg (direct_matches q u.opts)
                (In-direct_matches q pkg u.opts e u.member))
        | inr e ↦
            In-append_right pkg (sort_packages (direct_matches q u.opts))
              (sort_packages (alias_matches q u.opts))
              (In-sort_packages pkg (alias_matches q u.opts)
                (In-alias_matches q pkg u.opts e (package_matches-own pkg n h) u.member))
      ])

module _ (q : PackageQuery) (v : String) where
  abbrev other_version : PackageQuery
  other_version = record q { version = v }

  direct_matches-version :
      (xs : List Package) → direct_matches other_version xs ≡ direct_matches q xs
  unfolding direct_matches name_matches
  direct_matches-version [] = refl
  direct_matches-version (x ∷ xs) = ground (arith, direct_matches-version xs)

  alias_matches-version : (xs : List Package) → alias_matches other_version xs ≡ alias_matches q xs
  unfolding alias_matches name_matches
  alias_matches-version [] = refl
  alias_matches-version (x ∷ xs) =
      ground (arith, alias_matches-version xs, package_matches-version x q v)

  tag_matches-version : (xs : List Package) → tag_matches other_version xs ≡ tag_matches q xs
  unfolding tag_matches
  tag_matches-version [] = refl
  tag_matches-version (x ∷ xs) =
      ground (arith, tag_matches-version xs, package_matches-version x q v)

  -- The answer to a query does not depend on the version that it asks for.
  pub query_packages-version :
      (c : Collection) → query_packages c other_version ≡ query_packages c q
  unfolding query_packages
  query_packages-version c = elim (Option-cases (lookup_packages q.name c.packages)) [
    | inl e ↦ simp (direct_matches-version, alias_matches-version, tag_matches-version, e)
    | inr (l, e) ↦ simp (direct_matches-version, alias_matches-version, tag_matches-version, e)
  ]
