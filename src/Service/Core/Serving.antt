-- ===== src/Service/Core/Serving.antt =====
-- internal/service/service.go: the kernel serves the users of the state. What is asked of a kernel is
-- what Start and UpdateUsers of internal/kernel/xray/xray.go and internal/kernel/singbox/singbox.go do.
use xboard_node_plus.Prelude.{
  str_beq, ℕ, Str, Bool, true, false, List, [], ◌∷◌, Option, none, some, Result, ok, err, ◌≡◌, ◌⊎◌,
  inl, inr, refl, Bool-cases, ◌∙◌,
}
use xboard_node_plus.Validation.{Invalid}
use xboard_node_plus.Service.Core.{
  kernel_name, Env, Core, TlsCert, start_kernel, ensure_running, ensure_kernel_type, started,
  start_resolved, start_last, resolve_kernel_type,
}
use xboard_node_plus.Model.{NodeSpec, UserSpec}

module _ {K C B : Type 0} (env : Env K C B) (served : K → List UserSpec) where
  -- A kernel that failed to start is as it was: an instance that runs still serves its users.
  abbrev pub IsUntouched : K → K → Type 0
  IsUntouched k k1 = (env.is_running k1 ≡ env.is_running k) × (served k1 ≡ served k)

  -- A failed update starts and stops nothing. The kernel serves the users before, or nobody: sing-box
  -- removes the inbound before it makes a new one, which can fail.
  abbrev pub IsLeft : K → K → Type 0
  IsLeft k k1 = (env.is_running k1 ≡ env.is_running k) × ((served k1 ≡ served k) ⊎ (served k1 ≡ []))

  -- A new kernel is stopped. A kernel that started serves the users that it was given, and so does one
  -- that took an update, but where it served nobody: sing-box, whose inbound is lost, makes it again only
  -- for users that differ from those before.
  pub record Laws : Type 0 where
    pub fresh : (name : Str) → env.is_running (env.new_kernel name) ≡ false
    pub start_ok :
        (nc : Option NodeSpec) (users : List UserSpec) (tls : TlsCert) (k k1 : K)
        → env.start nc users tls k ≡ (true, k1)
        → served k1 ≡ users
    pub start_failed :
        (nc : Option NodeSpec) (users : List UserSpec) (tls : TlsCert) (k k1 : K)
        → env.start nc users tls k ≡ (false, k1)
        → IsUntouched k k1
    pub update_ok :
        (users : List UserSpec) (k k1 : K)
        → env.update_users users k ≡ (true, k1)
        → (served k1 ≡ users) ⊎ ((served k ≡ []) × (served k1 ≡ []))
    pub update_failed :
        (users : List UserSpec) (k k1 : K) → env.update_users users k ≡ (false, k1) → IsLeft k k1

  -- The kernel is stopped, or it serves these users, or nobody.
  abbrev pub Serves : List UserSpec → K → Type 0
  Serves users k = (env.is_running k ≡ false) ⊎ ((served k ≡ users) ⊎ (served k ≡ []))

  abbrev pub IsServing : Core K C B → Type 0
  IsServing s = Serves s.last_users s.kernel

  IsLeft-Serves :
      (users : List UserSpec) (k k1 : K) → IsLeft k k1 → Serves users k → Serves users k1
  IsLeft-Serves users k k1 (r, l) (inl stopped) = inl (r ∙ stopped)
  IsLeft-Serves users k k1 (r, inl same) (inr (inl e)) = inr (inl (same ∙ e))
  IsLeft-Serves users k k1 (r, inl same) (inr (inr e)) = inr (inr (same ∙ e))
  IsLeft-Serves users k k1 (r, inr e) (inr o) = inr (inr e)

  module _ (laws : Laws) where
    ensure_kernel_type-Serves :
        (users : List UserSpec) (name : Str) (s : Core K C B)
        → Serves users s.kernel
        → Serves users (ensure_kernel_type env name s).kernel
    unfolding ensure_kernel_type
    ensure_kernel_type-Serves users name s h =
        elim (Bool-cases (str_beq s.kernel_type (kernel_name env name))) [
          | inl e ↦ rw (e) h
          | inr e ↦ rw (e) (inl (laws.fresh (kernel_name env name)))
        ]

    -- The users of a kernel that was to be started, and those when that failed.
    abbrev pub Outcome : List UserSpec → List UserSpec → Bool × Core K C B → Type 0
    Outcome users before (true, t) = Serves users t.kernel
    Outcome users before (false, t) = Serves before t.kernel

    started-Outcome :
        (now : ℕ) (nc : Option NodeSpec) (users before : List UserSpec) (tls : TlsCert) (k : K)
        (r : Bool × K) (s : Core K C B)
        → env.start nc users tls k ≡ r
        → Serves before k
        → Outcome users before (started env now nc users r s)
    started-Outcome now nc users before tls k (true, k1) s e h =
        inr (inl (laws.start_ok nc users tls k k1 e))
    started-Outcome now nc users before tls k (false, k1) s e h =
        let same = laws.start_failed nc users tls k k1 e in
        IsLeft-Serves before k k1 (same.0, inl same.1) h

    pub taken-Serves :
        (users : List UserSpec) (k k1 : K) → env.update_users users k ≡ (true, k1) → Serves users k1
    taken-Serves users k k1 e = elim (laws.update_ok users k k1 e) [
      | inl same ↦ inr (inl same)
      | inr lost ↦ inr (inr lost.1)
    ]

    pub updated-Serves :
        (users before : List UserSpec) (k k1 : K)
        → env.update_users users k ≡ (false, k1)
        → Serves before k
        → Serves before k1
    updated-Serves users before k k1 e h =
        IsLeft-Serves before k k1 (laws.update_failed users k k1 e) h

    pub start_kernel-Outcome :
        (now : ℕ) (nc : Option NodeSpec) (users before : List UserSpec) (s : Core K C B)
        → Serves before s.kernel
        → Outcome users before (start_kernel env now nc users s)
    unfolding start_kernel
    start_kernel-Outcome now nc users before s h = resolved (resolve_kernel_type env nc s)
      where
        resolved :
            (r : Result Invalid Str) → Outcome users before (start_resolved env now nc users r s)
        resolved (err e) = h
        resolved (ok name) =
            started-Outcome now nc users before _ _ _ (ensure_kernel_type env name s) refl
              (ensure_kernel_type-Serves before name s h)

    start_last-Outcome :
        (now : ℕ) (users before : List UserSpec) (nc : Option NodeSpec) (s : Core K C B)
        → Serves before s.kernel
        → Outcome users before (start_last env now users nc s)
    start_last-Outcome now users before none s h = h
    start_last-Outcome now [] before (some nc) s h = h
    start_last-Outcome now (u ∷ l) before (some nc) s h =
        start_kernel-Outcome now (some nc) (u ∷ l) before s h

    pub ensure_running-Outcome :
        (now : ℕ) (s : Core K C B)
        → IsServing s
        → Outcome s.last_users s.last_users (ensure_running env now s)
    unfolding ensure_running
    ensure_running-Outcome now s h = elim (Bool-cases (env.is_running s.kernel)) [
      | inl e ↦ rw (e) h
      | inr e ↦ rw (e) (start_last-Outcome now s.last_users s.last_users s.last_config s h)
    ]
