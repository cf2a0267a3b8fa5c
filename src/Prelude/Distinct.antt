-- ===== src/Prelude/Distinct.antt =====
-- Lists of texts without duplicates.
use mathlib.Core.Path.{◌≡◌, refl}
use mathlib.Core.Bool.{true, false}
use mathlib.Core.List.{List, [], ◌∷◌, ◌++◌}
use Prim.Native.String.{String}
use native.Mathlib.Omega.{arith}
use text.Mathlib.TextEquality.{eq_iff}
use tinyrange.Prelude.Tests.{if◌then◌else◌}
use tinyrange.Prelude.Lists.{mem_text}

abbrev pub Nodup : List String → Type 0
Nodup [] = Unit
Nodup (k ∷ ks) = (mem_text k ks ≡ false) × Nodup ks

pub mem_text-append :
    (k : String) (xs ys : List String)
    → mem_text k (xs ++ ys) ≡ (if mem_text k xs then true else mem_text k ys)
mem_text-append k [] ys = refl
mem_text-append k (x ∷ xs) ys = ground (arith, mem_text-append k xs ys)

pub Nodup-append :
    (xs ys : List String)
    → Nodup xs
    → Nodup ys
    → ((k : String) → mem_text k xs ≡ true → mem_text k ys ≡ false)
    → Nodup (xs ++ ys)
Nodup-append [] ys nx ny d = ny
Nodup-append (x ∷ xs) ys nx ny d = (
  ground (arith, mem_text-append x xs ys, d x, eq_iff x x, nx.0),
  Nodup-append xs ys nx.1 ny (λ k m. d k (ground (arith, m))),
)
