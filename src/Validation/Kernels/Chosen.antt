-- ===== src/Validation/Kernels/Chosen.antt =====
-- internal/model/validate.go: which kernel is chosen for a node, and whether it has the transport, in
-- terms of the names that are given.
use xboard_node_plus.Prelude.{
  Str, some, true, [], ◌∷◌, List, ok, codes, ◌≡◌, ◌⊎◌, ◌↔◌, inl, inr, refl, arith, trim_space,
  to_lower, str_beq, str_beq_iff, lookup, ◌>>=◌, Result, trim_space-trim_space, if◌then◌else◌,
}
use xboard_node_plus.Validation.{Invalid, kernel_auto, kernel_sing_box, kernel_xray}
use xboard_node_plus.Validation.Kernels.{
  needs_xray, validate_transport_kernel, normalize_kernel_type, resolve_effective_kernel_type,
  non_empty_or,
}
use xboard_node_plus.Validation.Kernels.Choice.{IsKernel}
use xboard_node_plus.Model.{NodeSpec}

-- The transports that only xray has.
abbrev pub IsXrayOnly : Str → Type 0
IsXrayOnly network =
    let name = to_lower (trim_space network) in (name ≡ codes "xhttp") ⊎ (name ≡ codes "splithttp")

pub needs_xray_iff : (network : Str) → (needs_xray network ≡ true) ↔ IsXrayOnly network
unfolding lookup
needs_xray_iff network = ground (
  arith,
  str_beq_iff (codes "xhttp") (to_lower (trim_space network)),
  str_beq_iff (codes "splithttp") (to_lower (trim_space network)),
)

-- The kernel has the transport: xray has all, sing-box all but two.
abbrev pub Supports : Str → Str → Type 0
Supports network k = (k ≡ kernel_xray) ⊎ ((k ≡ kernel_sing_box) × (IsXrayOnly network → ⊥))

pub validate_transport_kernel_iff :
    (network k : Str)
    → IsKernel k
    → (validate_transport_kernel network k ≡ ok tt) ↔ Supports network k
unfolding validate_transport_kernel str_beq
validate_transport_kernel_iff network k (inl e) = rw e (ground (arith, needs_xray_iff network))
validate_transport_kernel_iff network k (inr e) = rw e (ground arith)

abbrev first_filled : List Str → Str
first_filled [] = []
first_filled (s ∷ l) = let rest = first_filled l in if str_beq s [] then rest else s

-- The strategy: that of the local configuration, or that of the node, or "auto".
abbrev given : Str → Str → Str
given local own = first_filled (trim_space local ∷ trim_space own ∷ codes "auto" ∷ [])

abbrev pub strategy : Str → Str → Str
strategy local own = to_lower (given local own)

-- A strategy that names a kernel chooses it. "auto" chooses sing-box, but xray for a transport that
-- sing-box does not have.
abbrev pub Chooses : Str → Str → Str → Type 0
Chooses network name k =
    (((name ≡ codes "singbox") ⊎ (name ≡ codes "sing-box")) × (k ≡ kernel_sing_box))
    ⊎ (((name ≡ codes "xray") × (k ≡ kernel_xray))
        ⊎ ((name ≡ codes "auto")
            × (((IsXrayOnly network → ⊥) × (k ≡ kernel_sing_box))
                ⊎ (IsXrayOnly network × (k ≡ kernel_xray)))))

trimmed-auto : trim_space (codes "auto") ≡ codes "auto"
unfolding trim_space
trimmed-auto = refl

trimmed-given : (local own : Str) → trim_space (given local own) ≡ given local own
unfolding str_beq
trimmed-given local own =
    filled (trim_space local) (trim_space own) (trim_space-trim_space local)
      (trim_space-trim_space own)
  where
    filled :
        (a b : Str)
        → trim_space a ≡ a
        → trim_space b ≡ b
        → trim_space (first_filled (a ∷ b ∷ codes "auto" ∷ []))
          ≡ first_filled (a ∷ b ∷ codes "auto" ∷ [])
    filled [] [] e f = trimmed-auto
    filled [] (c ∷ b) e f = f
    filled (c ∷ a) b e f = e

value-given :
    (a b : Str)
    → trim_space a ≡ a
    → trim_space b ≡ b
    → non_empty_or (non_empty_or (trim_space (if str_beq a [] then b else a)) b) kernel_auto
      ≡ first_filled (a ∷ b ∷ codes "auto" ∷ [])
unfolding str_beq
value-given [] [] e f = rw e refl
value-given [] (c ∷ b) e f = rw f refl
value-given (c ∷ a) b e f = rw e refl

abbrev chosen : Str → Str → Result Invalid Str
chosen network kernel_type =
    if str_beq kernel_type kernel_auto
    then if needs_xray network then ok kernel_xray else ok kernel_sing_box
    else ok kernel_type

named_iff :
    (network v k : Str)
    → trim_space v ≡ v
    → ((normalize_kernel_type v >>= chosen network) ≡ ok k) ↔ Chooses network (to_lower v) k
unfolding normalize_kernel_type str_beq
named_iff network v k e = rw e (
    ground (
      arith,
      str_beq_iff (to_lower v) (codes "auto"),
      str_beq_iff (to_lower v) (codes "singbox"),
      str_beq_iff (to_lower v) (codes "sing-box"),
      str_beq_iff (to_lower v) (codes "xray"),
      needs_xray_iff network,
    ))

-- ResolveEffectiveKernelType, given the type of the local configuration or else that of the node, gives
-- the kernel that the strategy chooses.
pub resolve_effective_iff :
    (n : NodeSpec) (local k : Str)
    → (resolve_effective_kernel_type
          (some n)
          (if str_beq (trim_space local) [] then trim_space n.kernel_type else trim_space local)
        ≡ ok k)
      ↔ Chooses n.network (strategy local n.kernel_type) k
unfolding resolve_effective_kernel_type
resolve_effective_iff n local k =
    rw
      (value-given (trim_space local) (trim_space n.kernel_type) (trim_space-trim_space local)
        (trim_space-trim_space n.kernel_type))
      (named_iff n.network (given local n.kernel_type) k (trimmed-given local n.kernel_type))

pub Chooses-IsKernel : (network name k : Str) → Chooses network name k → IsKernel k
Chooses-IsKernel network name k c = ground (arith, c)
