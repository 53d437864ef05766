-- ===== src/Limiter/Speed/Buckets.antt =====
-- The bucket of each user after UpdateBuckets of internal/limiter/speedtracker.go.
use mathlib.Core.Path.{subst}
use xboard_node_plus.Prelude.{
  nat_eq, str_eq, nat_beq_iff, ℕ, true, false, [], ◌∷◌, Option, none, some, Map, KeySet, lookup,
  insert, has, is_pos, lookup-insert, lookup-remove, ◌==◌, ◌≡◌, refl, sym, ◌∙◌, arith, inl, inr,
  Bool-cases, Option-cases, if◌then◌else◌,
}
use xboard_node_plus.Model.{UserSpec}
use xboard_node_plus.Model.Users.{values, IsKeyed}
use xboard_node_plus.Limiter.Speed.{
  uuid_index, SpeedTracker, bytes_per_sec, burst_of, update_bucket, update_all, active_ids,
  drop_inactive, update_buckets,
}

module _ {B : Type 0} (new_limiter : ℕ → ℕ → B) (set_limit set_burst : ℕ → B → B) where
  -- What one round of UpdateBuckets does with the bucket of a user.
  abbrev pub updated : Option UserSpec → Option B → Option B
  updated u none = none
  updated none (some lim) = some lim
  updated (some u) (some lim) =
      if is_pos u.speed_limit
      then some (
          set_burst (burst_of (bytes_per_sec u.speed_limit))
            (set_limit (bytes_per_sec u.speed_limit) lim))
      else none

  lookup-update_bucket :
      (id : ℕ) (u : UserSpec) (m : Map ℕ B)
      → lookup id (update_bucket new_limiter set_limit set_burst u m)
        ≡ (if u.id == id then updated (some u) (lookup id m) else lookup id m)
  unfolding update_bucket
  lookup-update_bucket id u m = elim (Option-cases (lookup u.id m)) [
    | inl missing ↦ elim (Bool-cases (u.id == id)) [
      | inl same ↦
          rw (update_bucket, missing, same) (ground (arith, missing, (nat_beq_iff u.id id).0 same))
      | inr other ↦ rw (update_bucket, missing, other) refl
    ]
    | inr there ↦
        let lim =
          set_burst (burst_of (bytes_per_sec u.speed_limit))
            (set_limit (bytes_per_sec u.speed_limit) there.0) in
        let write = lookup-insert u.id id lim m in
        let delete = lookup-remove u.id id m in
        elim (Bool-cases (u.id == id)) [
          | inl same ↦
              let here : lookup id m ≡ some there.0 =
                subst (λ i. lookup i m ≡ some there.0) ((nat_beq_iff u.id id).0 same) there.1 in
              elim (Bool-cases (is_pos u.speed_limit)) [
                | inl limited ↦
                    rw (update_bucket, there.1, same, here, limited, write) (ground (arith, same))
                | inr unlimited ↦
                    rw (update_bucket, there.1, same, here, unlimited, delete)
                      (ground (arith, same))
              ]
          | inr other ↦ elim (Bool-cases (is_pos u.speed_limit)) [
            | inl limited ↦
                rw (update_bucket, there.1, other, limited, write) (ground (arith, other))
            | inr unlimited ↦
                rw (update_bucket, there.1, other, unlimited, delete) (ground (arith, other))
          ]
        ]
  ]

  updated-none : (o : Option B) → updated none o ≡ o
  updated-none none = refl
  updated-none (some lim) = refl

  lookup-update_all :
      (id : ℕ) (users : Map ℕ UserSpec) (m : Map ℕ B)
      → IsKeyed users
      → lookup id (update_all new_limiter set_limit set_burst (values users) m)
        ≡ updated (lookup id users) (lookup id m)
  unfolding update_all lookup
  lookup-update_all id [] m h = sym (updated-none (lookup id m))
  lookup-update_all id ((k, u) ∷ users) m h = elim (Bool-cases (k == id)) [
    | inl same ↦
        let gone : lookup id users ≡ none =
          subst (λ i. lookup i users ≡ none) ((nat_beq_iff k id).0 same) h.0.0 in
        let mine : (u.id == id) ≡ true = rw (h.1.0) same in
        lookup-update_all id users (update_bucket new_limiter set_limit set_burst u m)
          (h.0.1, h.1.1)
        ∙ rw
            (
              gone,
              same,
              updated-none (lookup id (update_bucket new_limiter set_limit set_burst u m)),
              lookup-update_bucket id u m,
              mine,
            )
            refl
    | inr other ↦
        let others : (u.id == id) ≡ false = rw (h.1.0) other in
        lookup-update_all id users (update_bucket new_limiter set_limit set_burst u m)
          (h.0.1, h.1.1)
        ∙ rw (other, lookup-update_bucket id u m, others) refl
  ]

  lookup-drop_inactive :
      (id : ℕ) (ids : KeySet ℕ) (m : Map ℕ B)
      → lookup id (drop_inactive new_limiter set_limit set_burst ids m)
        ≡ (if has id ids then lookup id m else none)
  unfolding drop_inactive lookup
  lookup-drop_inactive id ids [] = ground arith
  lookup-drop_inactive id ids ((k, lim) ∷ m) = elim (Bool-cases (k == id)) [
    | inl same ↦
        let e = (nat_beq_iff k id).0 same in ground (arith, e, same, lookup-drop_inactive id ids m)
    | inr other ↦ ground (arith, other, lookup-drop_inactive id ids m)
  ]

  has-active_ids :
      (id : ℕ) (users : Map ℕ UserSpec) (ids : KeySet ℕ)
      → IsKeyed users
      → has id (active_ids new_limiter set_limit set_burst (values users) ids)
        ≡ (if has id users then true else has id ids)
  unfolding active_ids lookup
  has-active_ids id [] ids h = refl
  has-active_ids id ((k, u) ∷ users) ids h = ground (
    arith,
    h.1.0,
    has-active_ids id users (insert u.id tt ids) (h.0.1, h.1.1),
    lookup-insert u.id id tt ids,
  )

  pub lookup-update_buckets :
      (id : ℕ) (users : Map ℕ UserSpec) (t : SpeedTracker B)
      → IsKeyed users
      → lookup id (update_buckets new_limiter set_limit set_burst users t).buckets
        ≡ (if has id users then updated (lookup id users) (lookup id t.buckets) else none)
  unfolding update_buckets lookup
  lookup-update_buckets id users t h = ground (
    arith,
    lookup-drop_inactive id (active_ids new_limiter set_limit set_burst (values users) [])
        (update_all new_limiter set_limit set_burst (values users) t.buckets),
    has-active_ids id users [] h,
    lookup-update_all id users t.buckets h,
  )

  pub uuid_map-update_buckets :
      (users : Map ℕ UserSpec) (t : SpeedTracker B)
      → (update_buckets new_limiter set_limit set_burst users t).uuid_map
        ≡ uuid_index new_limiter set_limit set_burst (values users) []
  unfolding update_buckets
  uuid_map-update_buckets users t = refl
