-- ===== src/Build/Credentials.antt =====
-- What the entries of the users hold, whichever kernel reads them.
use xboard_node_plus.Prelude.{
  ◌≡◌, refl, Bool, false, Str, List, [], ◌∷◌, map, if◌then◌else◌, str_beq, str_eq, lookup, codes,
  ◌||◌,
}
use xboard_node_plus.Model.{NodeSpec, UserSpec}
use xboard_node_plus.Build.Library.{Library}
use xboard_node_plus.Build.Ss2022.{ss2022_methods, user_password}
use Prim.Native.String.{String}

abbrev pub is_one_of : Str → List String → Bool
is_one_of s [] = false
is_one_of s (t ∷ l) = str_beq s (codes t) || is_one_of s l

-- The UUID, or the key that is made of it.
abbrev pub secret : Library → NodeSpec → Str → UserSpec → Str
secret lib nc protocol u =
    if is_one_of protocol ("shadowsocks" ∷ [])
    then user_password lib (lookup nc.cipher ss2022_methods) u.uuid
    else u.uuid

pub map-map {ℓ κ ι} :
    {A : Type ℓ} {B : Type κ} {C : Type ι} (f : A → B) (g : B → C) (h : A → C)
    → ((a : A) → g (f a) ≡ h a)
    → (l : List A) → map g (map f l) ≡ map h l
map-map f g h e [] = refl
map-map f g h e (a ∷ l) = cc (e a, map-map f g h e l)
