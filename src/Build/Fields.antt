-- ===== src/Build/Fields.antt =====
-- The laws of the maps from which the configurations are built.
use xboard_node_plus.Prelude.{
  ◌∙◌, ap, ◌≡◌, ◌++◌, refl, Bool, true, false, Str, List, [], ◌∷◌, Option, none, some, Map,
  if◌then◌else◌, str_beq, str_beq_iff, lookup, str_eq, All, Bool-cases, inl, inr, arith, codes,
}
use xboard_node_plus.Build.{
  when, M, Value, empty, entry, get, set, ms, list_of, put, at, raw, copy_into, without, is_text,
  copy_found,
}
use xboard_node_plus.Model.Values.{Any}
use mathlib.Core.Path.{sym, subst}
use Prim.Native.String.{String}

pub get-set :
    (k i : Str) (v : Value) (m : M) → get i (set k v m) ≡ (if str_beq k i then some v else get i m)
unfolding get set
get-set k i v empty = refl
get-set k i v (entry j w m) =
    ground (arith, get-set k i v m, str_beq_iff k i, str_beq_iff j i, str_beq_iff j k)

pub list_of-ms : (l : List M) → list_of (ms l) ≡ l
unfolding ms
list_of-ms [] = refl
list_of-ms (m ∷ l) = ap (λ r. m ∷ r) (list_of-ms l)

-- Another field is not touched.
pub at-put :
    (k i : String) (v : Value) (m : M)
    → str_beq (codes k) (codes i) ≡ false
    → at i (put k v m) ≡ at i m
at-put k i v m other = ground (arith, get-set (codes k) (codes i) v m, other)

pub at-put_same : (k : String) (v : Value) (m : M) → at k (put k v m) ≡ some v
at-put_same k v m = ground (arith, get-set (codes k) (codes k) v m, str_beq_iff (codes k) (codes k))

pub at-copy_found :
    (k i : String) (o : Option Any) (m : M)
    → str_beq (codes k) (codes i) ≡ false
    → at i (copy_found k o m) ≡ at i m
at-copy_found k i none m other = refl
at-copy_found k i (some v) m other = at-put k i (raw v) m other

-- The value of the file where it has one.
abbrev pub from_file : Option Any → Option Value → Option Value
from_file none v = v
from_file (some a) v = some (raw a)

pub at-copy_found_same :
    (k : String) (o : Option Any) (m : M) → at k (copy_found k o m) ≡ from_file o (at k m)
at-copy_found_same k none m = refl
at-copy_found_same k (some v) m = at-put_same k (raw v) m

pub get-copy_into :
    (i : Str) (m : M) (src : Map Str Any) → lookup i src ≡ none → get i (copy_into m src) ≡ get i m
unfolding copy_into lookup
get-copy_into i m [] free = refl
get-copy_into i m ((k, v) ∷ src) free = elim (Bool-cases (str_beq k i)) [
  | inl same ↦ ground (arith, same, free)
  | inr other ↦
      get-copy_into i (set k (raw v) m) src (ground (arith, other, free))
      ∙ ground (arith, get-set k i (raw v) m, other)
]

pub lookup-without :
    (i : Str) (keys : List Str) (src : Map Str Any)
    → is_text i keys ≡ true
    → lookup i (without keys src) ≡ none
unfolding without lookup
lookup-without i keys [] listed = refl
lookup-without i keys ((k, v) ∷ src) listed = elim (Bool-cases (is_text k keys)) [
  | inl skipped ↦ ground (arith, skipped, lookup-without i keys src listed)
  | inr kept ↦ elim (Bool-cases (str_beq k i)) [
    | inl same ↦
        absurd (cc (sym listed ∙ ap (λ s. is_text s keys) (sym ((str_beq_iff k i).0 same)) ∙ kept))
    | inr other ↦ ground (arith, kept, other, lookup-without i keys src listed)
  ]
]

first_found {ℓ} :
    {V : Type ℓ} (k j : Str) (w : V) (m : Map Str V) {v : V}
    → str_beq j k ≡ true
    → lookup k ((j, w) ∷ m) ≡ some v
    → w ≡ v
unfolding lookup
first_found k j w m same found = ground (arith, same, found)

-- What holds of every entry of a table holds of the one that is found.
pub lookup-All {ℓ κ} :
    {V : Type ℓ} (P : Str → V → Type κ) (k : Str) (m : Map Str V) {v : V}
    → All (λ e. P e.0 e.1) m
    → lookup k m ≡ some v
    → P k v
unfolding lookup
lookup-All P k [] a found = ground arith
lookup-All P k ((j, w) ∷ m) {v} (p, a) found = elim (Bool-cases (str_beq j k)) [
  | inl same ↦
      subst (λ f. P k f) (first_found k j w m same found)
        (subst (λ s. P s w) ((str_beq_iff j k).0 same) p)
  | inr other ↦ lookup-All P k m a (ground (arith, other, found))
]

pub at-when :
    (k i : String) (b : Bool) (v : Value) (m : M)
    → str_beq (codes k) (codes i) ≡ false
    → at i (when b (put k v) m) ≡ at i m
at-when k i true v m other = at-put k i v m other
at-when k i false v m other = refl

pub All-append {ℓ κ} :
    {A : Type ℓ} (P : A → Type κ) (l k : List A) → All P l → All P k → All P (l ++ k)
All-append P [] k a b = b
All-append P (x ∷ l) k (p, a) b = (p, All-append P l k a b)
