-- ===== src/Validation/Kernels/Choice.antt =====
-- internal/model/validate.go: the kernel that is chosen supports the transport.
use xboard_node_plus.Prelude.{
  str_beq_iff, bind-ok, Option, ◌∷◌, if◌then◌else◌, [], trim_space, to_lower, Str, some, false, ok,
  ◌≡◌, ◌⊎◌, ◌≢◌, inl, inr, arith, Bool-cases, refl, str_beq,
}
use xboard_node_plus.Validation.{kernel_auto, kernel_sing_box, kernel_xray}
use xboard_node_plus.Validation.Kernels.{
  kernel_of, non_empty_or, needs_xray, validate_transport_kernel, normalize_kernel_type,
  resolve_effective_kernel_type, resolve_kernel_for_transport,
}
use xboard_node_plus.Model.{NodeSpec}

abbrev pub IsKernel : Str → Type 0
IsKernel k = (k ≡ kernel_sing_box) ⊎ (k ≡ kernel_xray)

pub normalize-cases :
    (value : Str) {k : Str} → normalize_kernel_type value ≡ ok k → (k ≡ kernel_auto) ⊎ IsKernel k
unfolding normalize_kernel_type
normalize-cases value h = ground arith

-- validateTransportKernel refuses just sing-box with a transport that needs xray.
pub validate_transport-xray :
    (network : Str) → validate_transport_kernel network kernel_xray ≡ ok tt
unfolding validate_transport_kernel str_beq
validate_transport-xray network = refl

pub validate_transport-sing_box :
    (network : Str)
    → needs_xray network ≡ false
    → validate_transport_kernel network kernel_sing_box ≡ ok tt
unfolding validate_transport_kernel str_beq
validate_transport-sing_box network h = rw h refl

abbrev CanServe : Str → Str → Type 0
CanServe network k = IsKernel k × (validate_transport_kernel network k ≡ ok tt)

CanServe-xray : (network : Str) → CanServe network kernel_xray
CanServe-xray network = (inr refl, validate_transport-xray network)

CanServe-sing_box : (network : Str) → needs_xray network ≡ false → CanServe network kernel_sing_box
CanServe-sing_box network h = (inl refl, validate_transport-sing_box network h)

-- When resolveKernelForTransport is given the name of a kernel, its result is the name of sing-box
-- or of xray and passes validateTransportKernel for the same transport.
resolve_kernel_for_transport_lem :
    (network configured : Str) {k : Str}
    → normalize_kernel_type configured ≡ ok k
    → CanServe network (resolve_kernel_for_transport network configured)
unfolding resolve_kernel_for_transport str_beq
resolve_kernel_for_transport_lem network configured h = elim (normalize-cases configured h) [
  | inl e ↦ elim (Bool-cases (needs_xray network)) [
    | inl u ↦ rw (h, e, u) (CanServe-xray network)
    | inr u ↦ rw (h, e, u) (CanServe-sing_box network u)
  ]
  | inr (inl e) ↦ elim (Bool-cases (needs_xray network)) [
    | inl u ↦ rw (h, e, u) (CanServe-xray network)
    | inr u ↦ rw (h, e, u) (CanServe-sing_box network u)
  ]
  | inr (inr e) ↦ rw (h, e) (CanServe-xray network)
]

-- A kernel that serves a transport is kept: resolveKernelForTransport gives the kernel that is
-- configured when that is sing-box or xray and passes validateTransportKernel.
pub resolve_kernel-keeps :
    (network configured : Str) {k : Str}
    → normalize_kernel_type configured ≡ ok k
    → CanServe network k
    → resolve_kernel_for_transport network configured ≡ k
unfolding resolve_kernel_for_transport validate_transport_kernel str_beq
resolve_kernel-keeps network configured h (inl e, v) = elim (Bool-cases (needs_xray network)) [
  | inl u ↦ ground (arith, u, e, v)
  | inr u ↦ rw (h, e, u)
]
resolve_kernel-keeps network configured h (inr e, v) = rw (h, e)

non_blank-auto : (c : Str) → normalize_kernel_type c ≡ ok kernel_auto → c ≢ []
unfolding normalize_kernel_type to_lower str_beq trim_space
non_blank-auto [] h e = cc
non_blank-auto (b ∷ s) h e = cc

effective-kept :
    (n : NodeSpec) (c value : Str)
    → trim_space c ≡ value
    → value ≢ []
    → normalize_kernel_type value ≡ ok kernel_auto
    → resolve_effective_kernel_type (some n) c
      ≡ (if needs_xray n.network then ok kernel_xray else ok kernel_sing_box)
unfolding resolve_effective_kernel_type str_beq
effective-kept n c [] e filled h = absurd (filled refl)
effective-kept n c (b ∷ s) e filled h = rw (e, h)

-- For the strategy "auto" a node in standalone operation and one in machine operation get the same
-- kernel: ResolveEffectiveKernelType does not fail and gives what ResolveKernelForTransport gives
-- for the trimmed strategy.
pub resolve_effective-auto :
    (n : NodeSpec) (configured : Str)
    → normalize_kernel_type (trim_space configured) ≡ ok kernel_auto
    → resolve_effective_kernel_type (some n) configured
      ≡ ok (resolve_kernel_for_transport n.network (trim_space configured))
unfolding resolve_kernel_for_transport str_beq
resolve_effective-auto n configured h =
    let e = effective-kept n configured _ refl (non_blank-auto _ h) h in
    elim (Bool-cases (needs_xray n.network)) [ inl u ↦ rw (e, h, u) | inr u ↦ rw (e, h, u) ]

-- What ResolveEffectiveKernelType gives is the name of sing-box or of xray.
pub resolve_effective-IsKernel :
    (n : Option NodeSpec) (configured : Str) {k : Str}
    → resolve_effective_kernel_type n configured ≡ ok k
    → IsKernel k
unfolding resolve_effective_kernel_type
resolve_effective-IsKernel n configured {k = k} h =
    let (a, h1, h2) =
      bind-ok
        (normalize_kernel_type
          (non_empty_or (non_empty_or (trim_space configured) (kernel_of n)) kernel_auto))
        _ h in
    ground (arith, h2, normalize-cases _ h1, str_beq_iff a kernel_auto)
