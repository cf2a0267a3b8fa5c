-- ===== src/Collection/Members.antt =====
-- Members of the lists that a query is answered from.
use tinyrange.Prelude.{
  String, ◌≡◌, refl, true, false, some, List, [], ◌∷◌, ◌++◌, arith, ◌⊎◌, inl, inr, Bool-cases, All,
  str_eq, eq_iff,
}
use text.Mathlib.Text.{is_le}
use Prim.Native.String.{compare}
use tinyrange.Package.Defs.{PackageQuery, Package, key, name_matches, package_matches}
use tinyrange.Collection.Query.{
  insert_sorted, sort_packages, direct_matches, alias_matches, tag_matches, append_under,
  lookup_packages,
}

abbrev pub In : Package → List Package → Type 0
In pkg [] = ⊥
In pkg (x ∷ xs) = (x ≡ pkg) ⊎ In pkg xs

pub In-append_left : (pkg : Package) (xs ys : List Package) → In pkg xs → In pkg (xs ++ ys)
In-append_left pkg [] ys h = absurd h
In-append_left pkg (x ∷ xs) ys (inl e) = inl e
In-append_left pkg (x ∷ xs) ys (inr h) = inr (In-append_left pkg xs ys h)

pub In-append_right : (pkg : Package) (xs ys : List Package) → In pkg ys → In pkg (xs ++ ys)
In-append_right pkg [] ys h = h
In-append_right pkg (x ∷ xs) ys h = inr (In-append_right pkg xs ys h)

In-insert_sorted_head : (pkg : Package) (xs : List Package) → In pkg (insert_sorted pkg xs)
unfolding insert_sorted
In-insert_sorted_head pkg [] = inl refl
In-insert_sorted_head pkg (x ∷ xs) =
    elim (Bool-cases (is_le (compare (key pkg.name) (key x.name)))) [
      | inl e ↦ rw e (inl refl)
      | inr e ↦ rw e (inr (In-insert_sorted_head pkg xs))
    ]

In-insert_sorted : (pkg y : Package) (xs : List Package) → In pkg xs → In pkg (insert_sorted y xs)
unfolding insert_sorted
In-insert_sorted pkg y [] h = absurd h
In-insert_sorted pkg y (x ∷ xs) (inl f) =
    elim (Bool-cases (is_le (compare (key y.name) (key x.name)))) [
      | inl e ↦ rw e (inr (inl f))
      | inr e ↦ rw e (inl f)
    ]
In-insert_sorted pkg y (x ∷ xs) (inr h) =
    elim (Bool-cases (is_le (compare (key y.name) (key x.name)))) [
      | inl e ↦ rw e (inr (inr h))
      | inr e ↦ rw e (inr (In-insert_sorted pkg y xs h))
    ]

pub In-sort_packages : (pkg : Package) (xs : List Package) → In pkg xs → In pkg (sort_packages xs)
unfolding sort_packages
In-sort_packages pkg [] h = absurd h
In-sort_packages pkg (x ∷ xs) (inl e) = rw e (In-insert_sorted_head pkg (sort_packages xs))
In-sort_packages pkg (x ∷ xs) (inr h) =
    In-insert_sorted pkg x (sort_packages xs) (In-sort_packages pkg xs h)

pub In-direct_matches :
    (q : PackageQuery) (pkg : Package) (xs : List Package)
    → name_matches pkg.name q ≡ true
    → In pkg xs
    → In pkg (direct_matches q xs)
unfolding direct_matches
In-direct_matches q pkg [] m h = absurd h
In-direct_matches q pkg (x ∷ xs) m (inl e) = rw (e, m) (inl refl)
In-direct_matches q pkg (x ∷ xs) m (inr h) = elim (Bool-cases (name_matches x.name q)) [
  | inl e ↦ rw e (inr (In-direct_matches q pkg xs m h))
  | inr e ↦ rw e (In-direct_matches q pkg xs m h)
]

pub In-alias_matches :
    (q : PackageQuery) (pkg : Package) (xs : List Package)
    → name_matches pkg.name q ≡ false
    → package_matches pkg q ≡ true
    → In pkg xs
    → In pkg (alias_matches q xs)
unfolding alias_matches
In-alias_matches q pkg [] n m h = absurd h
In-alias_matches q pkg (x ∷ xs) n m (inl e) = rw (e, n, m) (inl refl)
In-alias_matches q pkg (x ∷ xs) n m (inr h) = elim (Bool-cases (name_matches x.name q)) [
  | inl e ↦ rw e (In-alias_matches q pkg xs n m h)
  | inr e ↦ elim (Bool-cases (package_matches x q)) [
    | inl f ↦ rw (e, f) (inr (In-alias_matches q pkg xs n m h))
    | inr f ↦ rw (e, f) (In-alias_matches q pkg xs n m h)
  ]
]

pub In-tag_matches :
    (q : PackageQuery) (pkg : Package) (xs : List Package)
    → package_matches pkg q ≡ true
    → In pkg xs
    → In pkg (tag_matches q xs)
unfolding tag_matches
In-tag_matches q pkg [] m h = absurd h
In-tag_matches q pkg (x ∷ xs) m (inl e) = rw (e, m) (inl refl)
In-tag_matches q pkg (x ∷ xs) m (inr h) = elim (Bool-cases (package_matches x q)) [
  | inl f ↦ rw f (inr (In-tag_matches q pkg xs m h))
  | inr f ↦ rw f (In-tag_matches q pkg xs m h)
]

-- A predicate on every member passes through the filters and the sorting.
module _ (P : Package → Type 0) where
  pub All-append : (xs ys : List Package) → All P xs → All P ys → All P (xs ++ ys)
  All-append [] ys h k = k
  All-append (x ∷ xs) ys h k = (h.0, All-append xs ys h.1 k)

  All-insert_sorted :
      (y : Package) (xs : List Package) → P y → All P xs → All P (insert_sorted y xs)
  unfolding insert_sorted
  All-insert_sorted y [] p h = (p, tt)
  All-insert_sorted y (x ∷ xs) p h = elim (Bool-cases (is_le (compare (key y.name) (key x.name)))) [
    | inl e ↦ rw e (p, h)
    | inr e ↦ rw e (h.0, All-insert_sorted y xs p h.1)
  ]

  pub All-sort_packages : (xs : List Package) → All P xs → All P (sort_packages xs)
  unfolding sort_packages
  All-sort_packages [] h = tt
  All-sort_packages (x ∷ xs) h =
      All-insert_sorted x (sort_packages xs) h.0 (All-sort_packages xs h.1)

  module _ (q : PackageQuery) where
    pub All-direct_matches :
        (xs : List Package)
        → All (λ x. name_matches x.name q ≡ true → P x) xs
        → All P (direct_matches q xs)
    unfolding direct_matches
    All-direct_matches [] h = tt
    All-direct_matches (x ∷ xs) h = elim (Bool-cases (name_matches x.name q)) [
      | inl e ↦ rw e (h.0 e, All-direct_matches xs h.1)
      | inr e ↦ rw e (All-direct_matches xs h.1)
    ]

    pub All-alias_matches :
        (xs : List Package)
        → All (λ x. package_matches x q ≡ true → P x) xs
        → All P (alias_matches q xs)
    unfolding alias_matches
    All-alias_matches [] h = tt
    All-alias_matches (x ∷ xs) h = elim (Bool-cases (name_matches x.name q)) [
      | inl e ↦ rw e (All-alias_matches xs h.1)
      | inr e ↦ elim (Bool-cases (package_matches x q)) [
        | inl f ↦ rw (e, f) (h.0 f, All-alias_matches xs h.1)
        | inr f ↦ rw (e, f) (All-alias_matches xs h.1)
      ]
    ]

    pub All-tag_matches :
        (xs : List Package)
        → All (λ x. package_matches x q ≡ true → P x) xs
        → All P (tag_matches q xs)
    unfolding tag_matches
    All-tag_matches [] h = tt
    All-tag_matches (x ∷ xs) h = elim (Bool-cases (package_matches x q)) [
      | inl f ↦ rw f (h.0 f, All-tag_matches xs h.1)
      | inr f ↦ rw f (All-tag_matches xs h.1)
    ]

-- `pkg` stands in the list under the name `k`.
pub record Under (k : String) (m : List (String × List Package)) (pkg : Package) : Type 0 where
  pub opts : List Package
  pub found : lookup_packages k m ≡ some opts
  pub member : In pkg opts

pub Under-append_under_self :
    (k : String) (pkg : Package) (m : List (String × List Package))
    → Under k (append_under k pkg m) pkg
unfolding append_under lookup_packages
Under-append_under_self k pkg [] = record {
  opts = pkg ∷ [];
  found = ground (arith, eq_iff k k);
  member = inl refl;
}
Under-append_under_self k pkg ((j, old) ∷ m) = elim (Bool-cases (str_eq j k)) [
  | inl e ↦ record {
    opts = old ++ pkg ∷ [];
    found = ground arith;
    member = In-append_right pkg old (pkg ∷ []) (inl refl);
  }
  | inr e ↦
      let u = Under-append_under_self k pkg m in
      record { opts = u.opts; found = ground (arith, u.found); member = u.member }
]

pub Under-append_under :
    (k j : String) (pkg new : Package) (m : List (String × List Package))
    → Under k m pkg
    → Under k (append_under j new m) pkg
unfolding append_under lookup_packages
Under-append_under k j pkg new [] u = absurd (cc u.found)
Under-append_under k j pkg new ((i, old) ∷ m) u = elim (Bool-cases (str_eq i k)) [
  | inl e ↦ elim (Bool-cases (str_eq i j)) [
    | inl f ↦ record {
      opts = u.opts ++ new ∷ [];
      found = ground (arith, u.found);
      member = In-append_left pkg u.opts (new ∷ []) u.member;
    }
    | inr f ↦ record { opts = u.opts; found = ground (arith, u.found); member = u.member }
  ]
  | inr e ↦ elim (Bool-cases (str_eq i j)) [
    | inl f ↦ record { opts = u.opts; found = ground (arith, u.found); member = u.member }
    | inr f ↦
        let v =
          Under-append_under k j pkg new m
            (record { opts = u.opts; found = ground (arith, u.found); member = u.member }) in
        record { opts = v.opts; found = ground (arith, v.found); member = v.member }
  ]
]
