-- ===== src/Package/Defs.antt =====
-- pkg/common/package.go and pkg/common/tags.go: package names, queries, tags, installers and
-- packages, and the tests by which a query selects a package. The starlark methods (Attr, Type,
-- Hash, Truth, Freeze) are left out, and so is the `raw` value that the scripts attach.
use Prim.Native.String.{◌++◌ as append_text, [] as empty_text, ◌∷◌ as cons_char}
use Prim.Native.Char.{code}
use text.Mathlib.Text.{find?}
use tinyrange.Prelude.{
  String, Bool, true, false, ◌&&◌, ◌||◌, not, none, some, List, [], ◌∷◌, str_eq, ◌==◌,
  if◌then◌else◌, mem_text,
}

abbrev pub TagList : Type 0
TagList = List String

unfoldable pub contains_tag : TagList → String → Bool
contains_tag [] search = false
contains_tag (name ∷ lst) search = str_eq search name || contains_tag lst search

-- the map that `TagList.Matches` builds only answers membership
unfoldable pub tags_match : TagList → TagList → Bool
tags_match [] other = true
tags_match (k ∷ lst) other = mem_text k other && tags_match lst other

pub record PackageQuery : Type 0 where
  pub match_direct : Bool
  pub name : String
  pub match_partial_name : Bool
  pub version : String
  pub tags : TagList

pub record PackageName : Type 0 where
  pub name : String
  pub version : String
  pub tags : List String

-- `strings.Cut(s, ":")`
unfoldable pub cut_colon : String → String × String
cut_colon empty_text = ("", "")
cut_colon (cons_char c s) =
    let (before, after) = cut_colon s in
    if code c == b':' then ("", s) else (cons_char c before, after)

unfoldable pub parse_package_query : String → PackageQuery
unfolding cut_colon
parse_package_query s =
    let (name, version) = cut_colon s in
    if str_eq s "*"
    then record {
      match_direct = false;
      name = "";
      match_partial_name = false;
      version = "";
      tags = [];
    }
    else record {
      match_direct = false;
      name = name;
      match_partial_name = false;
      version = version;
      tags = [];
    }

-- `PackageName.Query`
unfoldable pub query_of_name : PackageName → PackageQuery
query_of_name n = record {
  match_direct = false;
  name = n.name;
  match_partial_name = false;
  version = n.version;
  tags = [];
}

-- `PackageName.Key` and `PackageName.String`
unfoldable pub key : PackageName → String
key n = append_text n.name (append_text ":" n.version)

-- `PackageQuery.Equals`
unfoldable pub query_equals : PackageQuery → PackageName → Bool
query_equals q n = str_eq q.name n.name && str_eq q.version n.version

-- `strings.Contains`
abbrev pub contains : String → String → Bool
contains s t = elim (find? s t) [ none ↦ false | some i ↦ true ]

abbrev pub is_empty {ℓ} : {A : Type ℓ} → List A → Bool
is_empty [] = true
is_empty (x ∷ xs) = false

-- `PackageName.Matches`
unfoldable pub name_matches : PackageName → PackageQuery → Bool
name_matches n query =
    if query.match_partial_name && str_eq query.name ""
    then true
    else if not (str_eq query.name "") && query.match_partial_name
    then contains n.name query.name
    else if not (str_eq query.name "") && not (str_eq n.name query.name)
    then false
    else if not (is_empty query.tags)
    then false
    else true

-- `Directive` is an interface; the planner copies its values, and `emit_dockerfile` looks at two
-- of the implementing types. `other` is any further one, by its tag.
pub data Directive : Type 0 where
  fetch_oci_image run_command other : String → Directive

pub record Installer : Type 0 where
  pub tags : TagList
  pub directives : List Directive
  pub dependencies : List PackageQuery

pub record Package : Type 0 where
  pub name : PackageName
  pub aliases : List PackageName
  pub tags : TagList

unfoldable pub any_alias_matches : List PackageName → PackageQuery → Bool
any_alias_matches [] query = false
any_alias_matches (a ∷ aliases) query = name_matches a query || any_alias_matches aliases query

-- `Package.Matches`
unfoldable pub package_matches : Package → PackageQuery → Bool
package_matches pkg query =
    if not (is_empty query.tags) && tags_match query.tags pkg.tags
    then true
    else if name_matches pkg.name query
    then true
    else if query.match_direct
    then false
    else any_alias_matches pkg.aliases query
