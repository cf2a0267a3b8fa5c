-- ===== src/Package/Matching.antt =====
-- What the tests of a query against a package mean.
use tinyrange.Prelude.{
  String, str_eq, mem_text, All, Bool-cases, sym, ◌∙◌, ◌≡◌, ap, refl, Bool, true, false, ◌||◌, List,
  [], ◌∷◌, arith, eq_iff, inl, inr, ◌⊎◌,
}
use tinyrange.Package.Defs.{
  PackageQuery, PackageName, Package, is_empty, name_matches, any_alias_matches, package_matches,
  query_of_name, tags_match,
}

pub name_matches-package_matches :
    (pkg : Package) (q : PackageQuery)
    → name_matches pkg.name q ≡ true
    → package_matches pkg q ≡ true
unfolding package_matches
name_matches-package_matches pkg q h = ground arith

any_alias_matches-version :
    (names : List PackageName) (q : PackageQuery) (v : String)
    → any_alias_matches names (record q { version = v }) ≡ any_alias_matches names q
unfolding any_alias_matches name_matches
any_alias_matches-version [] q v = refl
any_alias_matches-version (a ∷ names) q v =
    ap (λ (b : Bool). name_matches a q || b) (any_alias_matches-version names q v)

-- The version of a query plays no part in whether a package matches it.
pub package_matches-version :
    (pkg : Package) (q : PackageQuery) (v : String)
    → package_matches pkg (record q { version = v }) ≡ package_matches pkg q
unfolding package_matches name_matches
package_matches-version pkg q v = ground (arith, any_alias_matches-version pkg.aliases q v)

any_alias_matches-tags :
    (names : List PackageName) (q : PackageQuery)
    → q.match_partial_name ≡ false
    → is_empty q.tags ≡ false
    → any_alias_matches names q ≡ false
unfolding any_alias_matches name_matches
any_alias_matches-tags [] q p t = refl
any_alias_matches-tags (a ∷ names) q p t = ground (arith, any_alias_matches-tags names q p t)

-- A tag is one of the tags of a list.
abbrev pub HasTag : List String → String → Type 0
HasTag [] t = ⊥
HasTag (x ∷ tags) t = (x ≡ t) ⊎ HasTag tags t

mem_text-HasTag : (tags : List String) (t : String) → mem_text t tags ≡ true → HasTag tags t
mem_text-HasTag [] t h = absurd (ground arith)
mem_text-HasTag (x ∷ tags) t h = elim (Bool-cases (str_eq x t)) [
  | inl e ↦ inl (ground (arith, eq_iff x t))
  | inr e ↦ inr (mem_text-HasTag tags t (ground arith))
]

HasTag-mem_text : (tags : List String) (t : String) → HasTag tags t → mem_text t tags ≡ true
HasTag-mem_text [] t h = absurd h
HasTag-mem_text (x ∷ tags) t (inl e) = ground (arith, eq_iff x t)
HasTag-mem_text (x ∷ tags) t (inr h) = ground (arith, HasTag-mem_text tags t h)

tags_match-HasTag :
    (tags other : List String) → tags_match tags other ≡ true → All (HasTag other) tags
unfolding tags_match
tags_match-HasTag [] other h = tt
tags_match-HasTag (t ∷ tags) other h =
    (mem_text-HasTag other t (ground arith), tags_match-HasTag tags other (ground arith))

HasTag-tags_match :
    (tags other : List String) → All (HasTag other) tags → tags_match tags other ≡ true
unfolding tags_match
HasTag-tags_match [] other h = refl
HasTag-tags_match (t ∷ tags) other (h, hs) =
    ground (arith, HasTag-mem_text other t h, HasTag-tags_match tags other hs)

matches-tags_match :
    (pkg : Package) (q : PackageQuery)
    → q.match_partial_name ≡ false
    → is_empty q.tags ≡ false
    → package_matches pkg q ≡ tags_match q.tags pkg.tags
unfolding package_matches name_matches
matches-tags_match pkg q p t = ground (arith, any_alias_matches-tags pkg.aliases q p t)

-- A query with tags that does not ask for partial names matches a package just where each of its tags
-- is one of the tags of the package: the name, the version and the aliases play no part.
pub package_matches-tags :
    (pkg : Package) (q : PackageQuery)
    → q.match_partial_name ≡ false
    → is_empty q.tags ≡ false
    → (package_matches pkg q ≡ true → All (HasTag pkg.tags) q.tags)
      × (All (HasTag pkg.tags) q.tags → package_matches pkg q ≡ true)
package_matches-tags pkg q p t =
    let same = matches-tags_match pkg q p t in
    (
      λ e. tags_match-HasTag q.tags pkg.tags (sym same ∙ e),
      λ h. same ∙ HasTag-tags_match q.tags pkg.tags h,
    )

-- A name is one of the names of a package.
abbrev pub HasAlias : List PackageName → PackageName → Type 0
HasAlias [] n = ⊥
HasAlias (a ∷ names) n = (a ≡ n) ⊎ HasAlias names n

name_matches-query_of_name : (n : PackageName) → name_matches n (query_of_name n) ≡ true
unfolding name_matches query_of_name
name_matches-query_of_name n = ground (arith, eq_iff n.name n.name)

any_alias_matches-HasAlias :
    (names : List PackageName) (n : PackageName)
    → HasAlias names n
    → any_alias_matches names (query_of_name n) ≡ true
unfolding any_alias_matches
any_alias_matches-HasAlias [] n h = absurd h
any_alias_matches-HasAlias (a ∷ names) n (inl e) =
    rw e (ground (arith, name_matches-query_of_name n))
any_alias_matches-HasAlias (a ∷ names) n (inr h) =
    ground (arith, any_alias_matches-HasAlias names n h)

-- A package matches the query that is made from its name or from one of its aliases.
pub package_matches-own :
    (pkg : Package) (n : PackageName)
    → (pkg.name ≡ n) ⊎ HasAlias pkg.aliases n
    → package_matches pkg (query_of_name n) ≡ true
package_matches-own pkg n (inl e) =
    name_matches-package_matches pkg (query_of_name n) (rw e (name_matches-query_of_name n))
package_matches-own pkg n (inr h) =
    unfold package_matches query_of_name in
    ground (arith, any_alias_matches-HasAlias pkg.aliases n h)
