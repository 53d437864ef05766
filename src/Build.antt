-- ===== src/Build.antt =====
-- The values from which internal/kernel/singbox/config.go and internal/kernel/xray/config.go build
-- the configuration of a kernel. An M is a map[string]interface{}; a nil slice is an empty one.
pub mod Atoi
pub mod Library
pub mod Custom
pub mod CustomFile
pub mod Geo
pub mod Targets
pub mod Decision
pub mod Added
pub mod Credentials
pub mod Fields
pub mod Tags
pub mod Settings
pub mod Xray
pub mod Ss2022
pub mod SingBox
use xboard_node_plus.Prelude.{
  ◌&&◌, any, nat_beq, ℕ, Str, Bool, true, false, List, [], ◌∷◌, ◌++◌, Option, none, some,
  if◌then◌else◌, Map, str_beq, codes, map,
}
use xboard_node_plus.Model.Values.{Any, AnyMap, text, int, bool, items, null, float, arr, obj}
use Prim.Native.String.{String}

-- The dynamic types that the builders give to a field: what a decoder made, []string, []int, M and
-- []M.
mutual
  pub data Value : Type 0 where
    raw : Any → Value
    strings : List Str → Value
    ints : List ℕ → Value
    table : M → Value
    tables : Ms → Value

  pub data M : Type 0 where
    empty : M
    entry : Str → Value → M → M

  pub data Ms : Type 0 where
    nothing : Ms
    more : M → Ms → Ms

abbrev pub str : Str → Value
str s = raw (text s)

abbrev pub num : ℕ → Value
num n = raw (int n)

abbrev pub flag : Bool → Value
flag b = raw (bool b)

-- m[key], with its presence
unfoldable pub get : Str → M → Option Value
get k empty = none
get k (entry j v m) = if str_beq j k then some v else get k m

-- m[key] = v
unfoldable pub set : Str → Value → M → M
set k v empty = entry k v empty
set k v (entry j w m) = if str_beq j k then entry j v m else entry j w (set k v m)

abbrev pub put : String → Value → M → M
put k = set (codes k)

abbrev pub at : String → M → Option Value
at k = get (codes k)

-- A literal M{...}.
abbrev pub doc : List (String × Value) → M
doc [] = empty
doc ((k, v) ∷ l) = entry (codes k) v (doc l)

abbrev pub list_of : Ms → List M
list_of nothing = []
list_of (more m l) = m ∷ list_of l

unfoldable pub ms : List M → Ms
ms [] = nothing
ms (m ∷ l) = more m (ms l)

-- for k, v := range src { dst[k] = v }
unfoldable pub copy_into : M → Map Str Any → M
copy_into dst [] = dst
copy_into dst ((k, v) ∷ src) = copy_into (set k (raw v) dst) src

-- M(co), for a decoded map.
unfoldable pub as_m : Map Str Any → M
as_m [] = empty
as_m ((k, v) ∷ src) = entry k (raw v) (as_m src)

abbrev pub as_m_of : AnyMap → M
as_m_of m = as_m (items m)

-- set(m) where the condition holds.
abbrev pub when : Bool → (M → M) → M → M
when b f m = if b then f m else m

abbrev pub texts : List String → Value
texts l = strings (map codes l)

-- if v, ok := src[from]; ok { dst[to] = v }
abbrev pub copy_found : String → Option Any → M → M
copy_found to none dst = dst
copy_found to (some v) dst = put to (raw v) dst

-- v == "" for an interface value
abbrev pub is_empty_text : Any → Bool
is_empty_text (text []) = true
is_empty_text (text (c ∷ s)) = false
is_empty_text null = false
is_empty_text (bool b) = false
is_empty_text (int n) = false
is_empty_text (float b) = false
is_empty_text (arr l) = false
is_empty_text (obj m) = false

abbrev pub is_text : Str → List Str → Bool
is_text s = any (str_beq s)

-- strings.TrimPrefix(s, "*.")
abbrev pub trim_star : Str → Str
trim_star [] = []
trim_star (a ∷ []) = a ∷ []
trim_star (a ∷ b ∷ s) = if nat_beq a b'*' && nat_beq b b'.' then s else a ∷ b ∷ s

-- The entries but for these keys.
unfoldable pub without : List Str → Map Str Any → Map Str Any
without skipped [] = []
without skipped ((k, v) ∷ l) =
    let rest = without skipped l in if is_text k skipped then rest else (k, v) ∷ rest

-- v.([]M) and v.(M), none for another type
abbrev pub tables_of : Option Value → Option (List M)
tables_of (some (tables l)) = some (list_of l)
tables_of other = none

abbrev pub table_of : Option Value → Option M
table_of (some (table m)) = some m
table_of other = none
