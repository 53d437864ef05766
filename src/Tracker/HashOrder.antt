-- ===== src/Tracker/HashOrder.antt =====
-- The hash of internal/tracker/tracker.go's calcAliveIPsHash and the random order of Go's maps.
use mathlib.Core.List.{Permᴰ}
use mathlib.Core.List.Permᴰ
use xboard_node_plus.Prelude.{
  Bool, ℕ, ◌<◌, Str, List, [], ◌∷◌, Map, All, keys, lookup, or_else, word, sort, int_leb,
  sort-Perm_str, sort-Perm_int, ◌≡◌, refl, ap, nat_eq, ◌∙◌,
}
use xboard_node_plus.Tracker.{hash_users, calc_alive_ips_hash}

-- The addresses of a user, none when it has no entry.
abbrev pub ips_at : ℕ → Map ℕ (Map Str Bool) → List Str
ips_at uid m = keys (or_else (lookup uid m) [])

-- Two address maps with the same entries, up to the order of iteration of each map in them.
abbrev pub IsSameSet : Map ℕ (Map Str Bool) → Map ℕ (Map Str Bool) → Type 0
IsSameSet m n = Permᴰ (keys m) (keys n) × ((uid : ℕ) → Permᴰ (ips_at uid m) (ips_at uid n))

hash_users-same :
    (l : List ℕ) (m n : Map ℕ (Map Str Bool))
    → ((uid : ℕ) → Permᴰ (ips_at uid m) (ips_at uid n))
    → hash_users l m ≡ hash_users l n
unfolding hash_users
hash_users-same [] m n p = refl
hash_users-same (uid ∷ l) m n p = rw (sort-Perm_str (p uid), hash_users-same l m n p) refl

-- The hash of the connected addresses depends on the users and their addresses alone, not on the
-- order in which the maps give them. User IDs are `int` patterns.
pub calc_alive_ips_hash-order :
    (digest : Str → Str) (m n : Map ℕ (Map Str Bool))
    → All (λ uid. uid < word) (keys m)
    → IsSameSet m n
    → calc_alive_ips_hash digest m ≡ calc_alive_ips_hash digest n
unfolding calc_alive_ips_hash
calc_alive_ips_hash-order digest [] [] w p = refl
calc_alive_ips_hash-order digest [] (e ∷ n) w p = cc (Permᴰ.length-eq p.0)
calc_alive_ips_hash-order digest (e ∷ m) [] w p = cc (Permᴰ.length-eq p.0)
calc_alive_ips_hash-order digest (e ∷ m) (e' ∷ n) w p = ap digest (
    ap (λ l. hash_users l (e ∷ m)) (sort-Perm_int p.0 w)
    ∙ hash_users-same (sort int_leb (keys (e' ∷ n))) (e ∷ m) (e' ∷ n) p.1)
