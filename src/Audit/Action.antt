-- ===== src/Audit/Action.antt =====
-- internal/audit/middleware.go: the action and the resource of a request, from its method, the pattern
-- of its route and the parameters of its path.
pub mod Laws
use Prim.Native.Char.{code}
use Prim.Native.String.{◌++◌, len, slice}
use tinydm.Prelude.{
  ℕ, zero, suc, ◌+◌, ◌-◌, String, Bool, true, false, ◌&&◌, ◌||◌, not, Option, none, some, List, [],
  ◌∷◌, eqb, leb, if◌then◌else◌, ◌==◌,
}
use tinydm.Prelude.Texts.{has_prefix, has_suffix}

abbrev alphabet : String
alphabet = "abcdefghijklmnopqrstuvwxyz"

-- `strings.ToLower`, of a text of ASCII
unfoldable pub to_lower : String → String
to_lower String.[] = ""
to_lower (String.◌∷◌ c s) =
    if leb b'A' (code c) && leb (code c) b'Z'
    then slice alphabet (code c - b'A') (code c - b'A' + 1) ++ to_lower s
    else String.◌∷◌ c (to_lower s)

abbrev onto_first : String → List String → List String
onto_first s [] = s ∷ []
onto_first s (part ∷ parts) = (s ++ part) ∷ parts

-- strings.Split(s, "/")
unfoldable pub split : String → List String
split String.[] = "" ∷ []
split (String.◌∷◌ c s) =
    let rest = split s in if eqb (code c) b'/' then "" ∷ rest else onto_first (String.◌∷◌ c "") rest

-- `methodVerb`
unfoldable pub method_verb : String → String
method_verb method =
    if method == "POST"
    then "create"
    else if method == "PUT"
    then "update"
    else if method == "DELETE"
    then "delete"
    else if method == "PATCH"
    then "patch"
    else to_lower method

-- `singularize`
unfoldable pub singularize : String → String
singularize s =
    if s == "tenants"
    then "tenant"
    else if s == "projects"
    then "project"
    else if s == "buckets"
    then "bucket"
    else if s == "documents"
    then "document"
    else if s == "versions"
    then "version"
    else if s == "tags"
    then "tag"
    else if s == "properties"
    then "property"
    else s

-- A segment that the walk passes over
abbrev is_skipped : String → Bool
is_skipped seg = seg == "" || (has_prefix seg "{" && has_suffix seg "}")

-- The action of the segment; `last` says that the pattern ends with it.
unfoldable pub action_of : String → String → Bool → String
action_of method seg last =
    if seg == "tags"
    then (if last
        then "document.tag.replace"
        else if method == "POST"
        then "document.tag.add"
        else "document.tag.remove")
    else if seg == "properties"
    then (if last
        then "document.property.replace"
        else if method == "PUT"
        then "document.property.set"
        else "document.property.delete")
    else singularize seg ++ ("." ++ method_verb method)

-- The walk from the right: the action of the last segment that is not passed over, if there is one.
abbrev or_here : String → String → Bool → Option String → Option String
or_here method seg last (some action) = some action
or_here method seg last none = if is_skipped seg then none else some (action_of method seg last)

abbrev is_nil : List String → Bool
is_nil [] = true
is_nil (s ∷ ss) = false

unfoldable pub walk : String → List String → Option String
walk method [] = none
walk method (seg ∷ segs) = or_here method seg (is_nil segs) (walk method segs)

abbrev or_lower : String → Option String → String
or_lower method none = to_lower method
or_lower method (some action) = action

-- `deriveAction`
unfoldable pub derive_action : String → String → String
derive_action method pattern =
    if has_suffix pattern "/restore"
    then "document.version.restore"
    else if has_suffix pattern "/login"
    then "auth.login"
    else or_lower method (walk method (split pattern))

abbrev first_nonempty : (String → String) → List String → String
first_nonempty url_param [] = ""
first_nonempty url_param (param ∷ params) =
    let rest = first_nonempty url_param params in
    if url_param param == "" then rest else url_param param

-- `deriveResource`
unfoldable pub derive_resource : (String → String) → String
derive_resource url_param =
    first_nonempty url_param
      ("key" ∷ "tag" ∷ "versionID" ∷ "documentID" ∷ "bucketID" ∷ "projectID" ∷ "tenantID" ∷ [])
