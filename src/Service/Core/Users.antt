-- ===== src/Service/Core/Users.antt =====
-- internal/service/service.go: the updates of the users of a node, whole and by difference.
pub mod Synced
pub mod Stopped
pub mod Consistent
pub mod Atomic
use xboard_node_plus.Prelude.{
  ℕ, Str, Bool, true, false, List, [], ◌∷◌, Option, none, some, if◌then◌else◌, str_beq, nat_beq,
  ltb, leb, length, not, ◌&&◌, ◌||◌, codes, is_some,
}
use xboard_node_plus.Service.Core.{
  Env, Core, start_kernel, ensure_running, prepare_user_state, restore_user_state,
}
use xboard_node_plus.Service.Users.{reject_fetched_users, merge_users, subtract_users}
use xboard_node_plus.Model.Values.{Slice, items, clone_nonempty}
use xboard_node_plus.Model.{NodeSpec, UserSpec}

module _ {K C B : Type 0} (env : Env K C B) where
  -- Whether the fetched users may replace those before.
  unfoldable pub begin_user_sync : List UserSpec → Core K C B → Bool
  begin_user_sync users s = not (is_some (reject_fetched_users s.last_users users))

  -- newHash when there is one
  abbrev pub with_hash : Str → Core K C B → Core K C B
  with_hash [] s = s
  with_hash (c ∷ h) s = record s { last_user_hash = c ∷ h }

  abbrev pub or_restored : List UserSpec → Str → Bool × Core K C B → Core K C B
  or_restored users hash (true, s) = s
  or_restored users hash (false, s) = restore_user_state env users hash s

  abbrev updated :
      ℕ → List UserSpec → Str → List UserSpec → Str → Bool × K → Core K C B → Core K C B
  updated now users new_hash prev prev_hash (true, k) s =
      with_hash new_hash (record s { kernel = k })
  updated now users new_hash prev prev_hash (false, k) s =
      let s1 = record s { kernel = k } in
      or_restored prev prev_hash (start_kernel env now s1.last_config users s1)

  abbrev update_running : ℕ → List UserSpec → Str → Bool × Core K C B → Core K C B
  update_running now users new_hash (false, s) = s
  update_running now users new_hash (true, s) =
      let (prev, prev_hash, s1) = prepare_user_state env users s in
      updated now users new_hash prev prev_hash (env.update_users users s1.kernel) s1

  unfoldable pub apply_user_update_with_diagnostics :
      ℕ → List UserSpec → Str → Core K C B → Core K C B
  unfolding prepare_user_state restore_user_state
  apply_user_update_with_diagnostics now users new_hash s =
      update_running now users new_hash (ensure_running env now s)

  unfoldable pub apply_user_update : ℕ → List UserSpec → Str → Core K C B → Core K C B
  unfolding begin_user_sync apply_user_update_with_diagnostics
  apply_user_update now users new_hash s =
      if begin_user_sync users s then apply_user_update_with_diagnostics now users new_hash s else s

  -- The first user of the list with the ID and another UUID.
  abbrev changed_uuid : UserSpec → List UserSpec → Option UserSpec
  changed_uuid delta [] = none
  changed_uuid delta (old ∷ l) =
      let rest = changed_uuid delta l in
      if nat_beq old.id delta.id && not (str_beq old.uuid delta.uuid) then some old else rest

  abbrev remove_changed : Option UserSpec → K → K
  remove_changed none k = k
  remove_changed (some old) k = (env.remove_users (old ∷ []) k).1

  -- The users whose UUID changes are removed from the kernel first.
  unfoldable pub remove_old : List UserSpec → List UserSpec → K → K
  remove_old [] users k = k
  remove_old (delta ∷ l) users k = remove_old l users (remove_changed (changed_uuid delta users) k)

  abbrev or_update_all :
      List UserSpec → List UserSpec → Str → Option ℕ × K → Core K C B → Core K C B
  or_update_all users prev prev_hash (some n, k) s = record s { kernel = k }
  or_update_all users prev prev_hash (none, k) s =
      let (done, k1) = env.update_users users k in
      let s1 = record s { kernel = k1 } in
      if done then s1 else restore_user_state env prev prev_hash s1

  abbrev add_running : List UserSpec → List UserSpec → Bool × Core K C B → Core K C B
  add_running delta merged (false, s) = s
  add_running delta merged (true, s) =
      let s0 = record s { kernel = remove_old delta s.last_users s.kernel } in
      let (prev, prev_hash, s1) = prepare_user_state env merged s0 in
      or_update_all merged prev prev_hash (env.add_users delta s1.kernel) s1

  abbrev remove_running : List UserSpec → List UserSpec → Core K C B → Core K C B
  remove_running delta filtered s =
      let (prev, prev_hash, s1) = prepare_user_state env filtered s in
      or_update_all filtered prev prev_hash (env.remove_users delta s1.kernel) s1

  abbrev slice : List UserSpec → Slice UserSpec
  slice l = clone_nonempty (some l)

  unfoldable pub apply_user_delta : ℕ → Str → List UserSpec → Core K C B → Core K C B
  unfolding prepare_user_state restore_user_state remove_old
  apply_user_delta now action [] s = s
  apply_user_delta now action (d ∷ l) s =
      let merged = items (merge_users (slice s.last_users) (some (d ∷ l))) in
      let filtered = items (subtract_users (slice s.last_users) (some (d ∷ l))) in
      if str_beq action (codes "add")
      then add_running (d ∷ l) merged (ensure_running env now s)
      else if str_beq action (codes "remove")
      then if env.is_running s.kernel then remove_running (d ∷ l) filtered s else s
      else s
