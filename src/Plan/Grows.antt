-- ===== src/Plan/Grows.antt =====
-- What the planner leaves alone, and the measure by which planning ends: each step down the
-- dependency graph installs one more of the known names.
use tinyrange.Prelude.{
  length, ℕ, ◌+◌, ◌≤◌, ◌<◌, String, ◌≡◌, refl, Bool, true, false, none, some, List, [], ◌∷◌, arith,
  eq_iff, str_eq, mem_text, if◌then◌else◌, inl, inr, Bool-cases,
}
use tinyrange.Package.Defs.{PackageName, Package, Directive}
use tinyrange.Plan.Types.{InstallationPlan}
use tinyrange.Plan.Add.{lookup_installed, add_name, add_names, add_directives}

abbrev pub is_installed : InstallationPlan → String → Bool
is_installed plan k = elim (lookup_installed k plan.installed_names) [
  | none ↦ false
  | some i ↦ true
]

-- What every operation of the planner keeps: the options of the plan, and the installed names.
pub record Grows (before after : InstallationPlan) : Type 0 where
  pub debug_eq : after.debug ≡ before.debug
  pub tags_eq : after.tags ≡ before.tags
  pub installed_kept : (k : String) → is_installed before k ≡ true → is_installed after k ≡ true

pub Grows-refl : (p : InstallationPlan) → Grows p p
Grows-refl p = record { debug_eq = refl; tags_eq = refl; installed_kept = λ k h. h }

pub Grows-trans : {p q r : InstallationPlan} → Grows p q → Grows q r → Grows p r
Grows-trans g h = record {
  debug_eq = cc (g.debug_eq, h.debug_eq);
  tags_eq = cc (g.tags_eq, h.tags_eq);
  installed_kept = λ k i. h.installed_kept k (g.installed_kept k i);
}

pub add_name-Grows :
    (name : PackageName) (pkg : Package) (p : InstallationPlan) → Grows p (add_name name pkg p)
unfolding add_name lookup_installed
add_name-Grows name pkg p = record {
  debug_eq = refl;
  tags_eq = refl;
  installed_kept = λ k h. ground arith;
}

pub add_names-Grows :
    (names : List PackageName) (pkg : Package) (p : InstallationPlan)
    → Grows p (add_names names pkg p)
unfolding add_names
add_names-Grows [] pkg p = Grows-refl p
add_names-Grows (a ∷ names) pkg p =
    Grows-trans (add_name-Grows a pkg p) (add_names-Grows names pkg (add_name a pkg p))

pub add_directives-Grows :
    (b : Bool) (new : List Directive) (p : InstallationPlan) → Grows p (add_directives b new p)
add_directives-Grows true new p = record {
  debug_eq = refl;
  tags_eq = refl;
  installed_kept = λ k h. h;
}
add_directives-Grows false new p = record {
  debug_eq = refl;
  tags_eq = refl;
  installed_kept = λ k h. h;
}

pub add_name-installed :
    (name : PackageName) (pkg : Package) (p : InstallationPlan)
    → is_installed (add_name name pkg p) name.name ≡ true
unfolding add_name lookup_installed
add_name-installed name pkg p = ground (arith, eq_iff name.name name.name)

-- how many of the known names are not installed
pub missing : List String → InstallationPlan → ℕ
missing [] p = 0
missing (k ∷ ks) p = (if is_installed p k then 0 else 1) + missing ks p

pub missing-Grows :
    (ks : List String) {p q : InstallationPlan} → Grows p q → missing ks q ≤ missing ks p
unfolding missing
missing-Grows [] g = omega arith
missing-Grows (k ∷ ks) g = ground (arith, missing-Grows ks g, g.installed_kept k)

pub missing_shrinks :
    (ks : List String) (k : String) {p q : InstallationPlan}
    → Grows p q
    → mem_text k ks ≡ true
    → is_installed p k ≡ false
    → is_installed q k ≡ true
    → missing ks q < missing ks p
unfolding missing
missing_shrinks [] k g m no_p yes_q = cc
missing_shrinks (j ∷ ks) k {p} {q} g m no_p yes_q = elim (Bool-cases (str_eq j k)) [
  | inl e ↦ let j-eq = (eq_iff j k).0 e in ground (arith, j-eq, missing-Grows ks g)
  | inr e ↦ ground (arith, missing_shrinks ks k g (ground arith) no_p yes_q, g.installed_kept j)
]

pub missing-le-length : (ks : List String) (p : InstallationPlan) → missing ks p ≤ length ks
unfolding missing
missing-le-length [] p = omega arith
missing-le-length (k ∷ ks) p = ground (arith, missing-le-length ks p)
