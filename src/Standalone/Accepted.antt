-- ===== src/Standalone/Accepted.antt =====
-- Which standalone configurations validateStandalone accepts.
use xboard_node_plus.Prelude.{
  ◌≡◌, ◌≢◌, ◌↔◌, refl, ℕ, ◌+◌, ◌≤◌, true, false, Str, List, [], ◌∷◌, some, map, has, insert, is_pos,
  KeySet, nat_eq, str_eq, str_beq, str_beq_iff, Result, ok, reject_if, >>-ok, reject_if-ok, All,
  NoRepeat, Avoids, Avoids-nil, Avoids-insert, Avoids-insert_inv, arith, not, ltb,
}
use xboard_node_plus.Model.{UserSpec}
use xboard_node_plus.Standalone.{
  StandaloneConfig, Config, Refusal, check_standalone_users, check_standalone, validate_standalone,
  no_users, is_bad_port, bad_id, uuid_required, duplicate_id, duplicate_uuid, nodes_not_supported,
  protocol_required, bad_server_port, bad_tls, users_empty,
}

-- A positive ID and a UUID that is not empty.
abbrev pub IsUser : UserSpec → Type 0
IsUser u = (is_pos u.id ≡ true) × (u.uuid ≢ [])

abbrev pub ids : List UserSpec → List ℕ
ids = map (λ u. u.id)

abbrev pub uuids : List UserSpec → List Str
uuids = map (λ u. u.uuid)

-- What the loop lets pass, given what it has seen.
abbrev Passes : KeySet ℕ → KeySet Str → List UserSpec → Type 0
Passes i s l =
    All IsUser l × Avoids i (ids l) × Avoids s (uuids l) × NoRepeat (ids l) × NoRepeat (uuids l)

module _ (n : ℕ) (i : KeySet ℕ) (s : KeySet Str) (u : UserSpec) (l : List UserSpec) where
  abbrev rest : Result Refusal (Unit {0})
  rest = check_standalone_users (n + 1) (insert u.id tt i) (insert u.uuid tt s) l

  check_users_head :
      check_standalone_users n i s (u ∷ l) ≡ ok tt
      → IsUser u × (has u.id i ≡ false) × (has u.uuid s ≡ false) × (rest ≡ ok tt)
  unfolding check_standalone_users
  check_users_head h =
      let (p, h1) = >>-ok (reject_if (not (is_pos u.id)) (bad_id n)) _ h in
      let (q, h2) = >>-ok (reject_if (str_beq u.uuid []) (uuid_required n)) _ h1 in
      let (r, h3) = >>-ok (reject_if (has u.id i) (duplicate_id n)) _ h2 in
      let (t, h4) = >>-ok (reject_if (has u.uuid s) (duplicate_uuid n)) _ h3 in
      let positive = reject_if-ok (not (is_pos u.id)) (bad_id n) p in
      let filled = reject_if-ok (str_beq u.uuid []) (uuid_required n) q in
      (
        (ground (arith, positive), λ e. ground (arith, filled, e, str_beq_iff u.uuid [])),
        reject_if-ok (has u.id i) (duplicate_id n) r,
        reject_if-ok (has u.uuid s) (duplicate_uuid n) t,
        h4,
      )

  check_users_step :
      IsUser u
      → has u.id i ≡ false
      → has u.uuid s ≡ false
      → rest ≡ ok tt
      → check_standalone_users n i s (u ∷ l) ≡ ok tt
  unfolding check_standalone_users
  check_users_step (positive, given) new_id new_uuid r =
      let filled : str_beq u.uuid [] ≡ false = ground (arith, given, str_beq_iff u.uuid []) in
      rw positive (rw filled (rw new_id (rw new_uuid r)))

check_standalone_users-Passes :
    (n : ℕ) (i : KeySet ℕ) (s : KeySet Str) (l : List UserSpec)
    → check_standalone_users n i s l ≡ ok tt
    → Passes i s l
check_standalone_users-Passes n i s [] h = (tt, tt, tt, tt, tt)
check_standalone_users-Passes n i s (u ∷ l) h =
    let (user, new_id, new_uuid, more) = check_users_head n i s u l h in
    let (users, a, b, c, d) = check_standalone_users-Passes (n + 1) _ _ l more in
    let (a0, a1) = Avoids-insert_inv u.id tt i (ids l) a in
    let (b0, b1) = Avoids-insert_inv u.uuid tt s (uuids l) b in
    ((user, users), (new_id, a0), (new_uuid, b0), (a1, c), (b1, d))

Passes-check_standalone_users :
    (n : ℕ) (i : KeySet ℕ) (s : KeySet Str) (l : List UserSpec)
    → Passes i s l
    → check_standalone_users n i s l ≡ ok tt
unfolding check_standalone_users
Passes-check_standalone_users n i s [] h = refl
Passes-check_standalone_users n i s (u ∷ l)
      ((user, users), (new_id, a), (new_uuid, b), (c1, c), (d1, d)) =
    check_users_step n i s u l user new_id new_uuid (
      Passes-check_standalone_users (n + 1) _ _ l (
        users,
        Avoids-insert u.id tt i (ids l) a c1,
        Avoids-insert u.uuid tt s (uuids l) b d1,
        c,
        d,
      ))

pub record IsRunnable (c : Config) (s : StandaloneConfig) : Type 0 where
  pub alone : c.nodes ≡ 0
  pub protocol : s.node.protocol ≢ []
  pub port : (1 ≤ s.node.server_port) × (s.node.server_port ≤ 65535)
  pub tls : s.node.tls ≤ 2
  pub some_users : s.users ≢ []
  pub users : All IsUser s.users
  pub distinct_ids : NoRepeat (ids s.users)
  pub distinct_uuids : NoRepeat (uuids s.users)

no_users_iff : (l : List UserSpec) → (no_users l ≡ false) ↔ (l ≢ [])
no_users_iff [] = (λ h e. absurd (cc h), λ h. absurd (h refl))
no_users_iff (u ∷ l) = (λ h e. absurd (cc e), λ h. refl)

module _ (c : Config) (s : StandaloneConfig) where
  checked :
      (check_standalone c.nodes s ≡ ok tt)
      → (ltb 0 c.nodes ≡ false)
        × (str_beq s.node.protocol [] ≡ false)
        × (is_bad_port s.node.server_port ≡ false)
        × (ltb 2 s.node.tls ≡ false)
        × (no_users s.users ≡ false)
        × (check_standalone_users 0 [] [] s.users ≡ ok tt)
  checked h =
      let (p, h1) = >>-ok (reject_if (ltb 0 c.nodes) nodes_not_supported) _ h in
      let (q, h2) = >>-ok (reject_if (str_beq s.node.protocol []) protocol_required) _ h1 in
      let (r, h3) = >>-ok (reject_if (is_bad_port s.node.server_port) bad_server_port) _ h2 in
      let (t, h4) = >>-ok (reject_if (ltb 2 s.node.tls) bad_tls) _ h3 in
      let (v, h5) = >>-ok (reject_if (no_users s.users) users_empty) _ h4 in
      (
        reject_if-ok (ltb 0 c.nodes) nodes_not_supported p,
        reject_if-ok (str_beq s.node.protocol []) protocol_required q,
        reject_if-ok (is_bad_port s.node.server_port) bad_server_port r,
        reject_if-ok (ltb 2 s.node.tls) bad_tls t,
        reject_if-ok (no_users s.users) users_empty v,
        h5,
      )

  check_standalone-IsRunnable : check_standalone c.nodes s ≡ ok tt → IsRunnable c s
  unfolding str_beq
  check_standalone-IsRunnable h =
      let (alone, protocol, port, tls, some_users, loop) = checked h in
      let (users, a, b, distinct_ids, distinct_uuids) =
        check_standalone_users-Passes 0 [] [] s.users loop in
      record {
        alone = ground (arith, alone);
        protocol = λ e. ground (arith, protocol, e);
        port = (ground (arith, port), ground (arith, port));
        tls = ground (arith, tls);
        some_users = (no_users_iff s.users).0 some_users;
        users = users;
        distinct_ids = distinct_ids;
        distinct_uuids = distinct_uuids;
      }

  IsRunnable-check_standalone : IsRunnable c s → check_standalone c.nodes s ≡ ok tt
  IsRunnable-check_standalone h =
      let alone : ltb 0 c.nodes ≡ false = ground (arith, h.alone) in
      let protocol : str_beq s.node.protocol [] ≡ false =
        ground (arith, h.protocol, str_beq_iff s.node.protocol []) in
      let port : is_bad_port s.node.server_port ≡ false = ground (arith, h.port.0, h.port.1) in
      let tls : ltb 2 s.node.tls ≡ false = ground (arith, h.tls) in
      let loop : check_standalone_users 0 [] [] s.users ≡ ok tt =
        Passes-check_standalone_users 0 [] [] s.users (
          h.users,
          Avoids-nil Unit (ids s.users),
          Avoids-nil Unit (uuids s.users),
          h.distinct_ids,
          h.distinct_uuids,
        ) in
      rw alone (rw protocol (rw port (rw tls (rw ((no_users_iff s.users).1 h.some_users) loop))))

module _ (c : Config) (s : StandaloneConfig) (given : c.standalone ≡ some s) where
  -- For a standalone node validateStandalone returns no error exactly when there are no top-level
  -- nodes, the protocol is not empty, the port is from 1 to 65535, the TLS mode from 0 to 2, and there
  -- are users, with positive IDs and UUIDs that are not empty, none of them twice.
  pub validate_standalone_iff : (validate_standalone c ≡ ok tt) ↔ IsRunnable c s
  unfolding validate_standalone
  validate_standalone_iff = (
    λ h. check_standalone-IsRunnable c s (rw given at h),
    λ h. rw given (IsRunnable-check_standalone c s h),
  )
