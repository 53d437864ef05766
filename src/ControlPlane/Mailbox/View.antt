-- ===== src/ControlPlane/Mailbox/View.antt =====
-- NodeMailbox of internal/controlplane/mailbox.go against an abstract mailbox, which keeps the last
-- configuration, the last device map and the users as a table by ID: what the events do.
use mathlib.Core.Option
use mathlib.Core.Path.{fun_ext}
use xboard_node_plus.Prelude.{
  ◌≡◌, refl, ap, inl, inr, ℕ, Bool, true, Option, none, some, List, [], ◌∷◌, is_some, if◌then◌else◌,
  Str, codes, ◌==◌, str_eq, Bool-cases, ◌∙◌,
}
use xboard_node_plus.Model.{NodeSpec, UserSpec}
use xboard_node_plus.Model.Values.{Slice, items}
use xboard_node_plus.Model.Users.{user_at, or_at}
use xboard_node_plus.Service.Users.Tables.{user_at-merge_users, user_at-subtract_users}
use xboard_node_plus.ControlPlane.{
  Devices, Event, EventType, sync_config, sync_users, sync_user_delta, sync_devices, other,
}
use xboard_node_plus.ControlPlane.Clone.{clone_node_spec}
use xboard_node_plus.ControlPlane.Clone.Same.{clone_users_lem, clone_device_users_lem}
use xboard_node_plus.ControlPlane.Delta.{apply_user_delta}
use xboard_node_plus.ControlPlane.Delta.Effect.{found_at, found_at-apply_user_delta}
use xboard_node_plus.ControlPlane.Mailbox.{
  NodeMailbox, notify, apply_config, apply_users, apply_devices, apply_delta, dispatch, apply,
}

abbrev pub Table : Type 0
Table = ℕ → Option UserSpec

abbrev pub table_of : List UserSpec → Table
table_of l = λ j. user_at j l

-- The news since the last delivery, and the users if a full list is known.
pub record View : Type 0 where
  pub config : Option NodeSpec
  pub devices : Devices
  pub table : Option Table
  pub touched : Bool
  pub reconcile : Bool

abbrev pub view : NodeMailbox → View
view m = record {
  config = if m.dirty_config then m.config else none;
  devices = if m.dirty_devices then m.device_users else none;
  table = if m.has_full_user_state then some (table_of (items m.users)) else none;
  touched = m.dirty_users;
  reconcile = m.needs_reconcile;
}

-- The table after a delta, or `none` for an unknown action.
pub changed_table : Str → List UserSpec → Table → Option Table
changed_table action delta t =
    if action == codes "add"
    then some (λ j. or_at (user_at j delta) (t j))
    else if action == codes "remove"
    then some (λ j. if is_some (user_at j delta) then none else t j)
    else none

abbrev pub delta_step : Str → List UserSpec → View → View
delta_step action [] v = v
delta_step action (u ∷ l) v = elim v.table [
  | none ↦ record v { reconcile = true }
  | some t ↦ elim (changed_table action (u ∷ l) t) [
    | none ↦ record v { reconcile = true }
    | some t' ↦ record v { table = some t'; touched = true }
  ]
]

abbrev pub config_step : Option NodeSpec → View → View
config_step none v = v
config_step (some c) v = record v { config = some (clone_node_spec c) }

abbrev pub users_step : Slice UserSpec → View → View
users_step none v = v
users_step (some users) v = record v { table = some (table_of users); touched = true }

abbrev pub devices_step : Devices → View → View
devices_step none v = v
devices_step (some d) v = record v { devices = some d }

abbrev pub view_step : EventType → Event → View → View
view_step sync_config event v = config_step event.config v
view_step sync_users event v = users_step event.users v
view_step sync_devices event v = devices_step event.device_users v
view_step sync_user_delta event v = delta_step event.delta_action (items event.delta_users) v
view_step (other name) event v = v

view-apply_config :
    (c : Option NodeSpec) (m : NodeMailbox) → view (apply_config c m) ≡ config_step c (view m)
unfolding apply_config
view-apply_config none m = refl
view-apply_config (some c) m = refl

view-apply_users :
    (us : Slice UserSpec) (m : NodeMailbox) → view (apply_users us m) ≡ users_step us (view m)
unfolding apply_users
view-apply_users none m = refl
view-apply_users (some us) m = rw (clone_users_lem (some us))

view-apply_devices :
    (d : Devices) (m : NodeMailbox) → view (apply_devices d m) ≡ devices_step d (view m)
unfolding apply_devices
view-apply_devices none m = refl
view-apply_devices (some d) m = rw (clone_device_users_lem (some d))

table_ext :
    (o : Option (Slice UserSpec)) (t : Option Table)
    → ((j : ℕ) → found_at j o ≡ Option.map (λ s. s j) t)
    → Option.map (λ us. table_of (items us)) o ≡ t
table_ext none none h = refl
table_ext none (some t) h = let e = h 0 in cc e
table_ext (some us) none h = let e = h 0 in cc e
table_ext (some us) (some t) h = ap some (fun_ext (λ j. cc (h j)))

changed_at :
    (users : Slice UserSpec) (action : Str) (delta : List UserSpec) (j : ℕ)
    → found_at j (apply_user_delta users action delta)
      ≡ Option.map (λ s. s j) (changed_table action delta (table_of (items users)))
unfolding changed_table
changed_at users action delta j =
    rw (found_at-apply_user_delta users delta j action) (elim (Bool-cases (action == codes "add")) [
      | inl add ↦ rw add (ap some (user_at-merge_users j users (some delta)))
      | inr rest ↦ rw rest (elim (Bool-cases (action == codes "remove")) [
        | inl remove ↦ rw remove (ap some (user_at-subtract_users j users (some delta)))
        | inr unknown ↦ rw unknown
      ])
    ])

-- The table that a delta leaves in the mailbox.
table-apply_user_delta :
    (users : Slice UserSpec) (action : Str) (delta : List UserSpec)
    → Option.map (λ us. table_of (items us)) (apply_user_delta users action delta)
      ≡ changed_table action delta (table_of (items users))
table-apply_user_delta users action delta =
    table_ext (apply_user_delta users action delta) _ (changed_at users action delta)

module _ (event : Event) (u : UserSpec) (l : List UserSpec) (m : NodeMailbox)
    (full : m.has_full_user_state ≡ true) where
  view-apply_full :
      (o : Option (Slice UserSpec))
      → apply_user_delta m.users event.delta_action (u ∷ l) ≡ o
      → Option.map (λ us. table_of (items us)) o
        ≡ changed_table event.delta_action (u ∷ l) (table_of (items m.users))
      → view (apply_delta event (u ∷ l) m) ≡ delta_step event.delta_action (u ∷ l) (view m)
  unfolding apply_delta notify
  view-apply_full none e t = rw (full, e, ← t, delta_step)
  view-apply_full (some us) e t = rw (full, e, ← t, delta_step, full)

view-apply_delta :
    (event : Event) (l : List UserSpec) (m : NodeMailbox)
    → view (apply_delta event l m) ≡ delta_step event.delta_action l (view m)
unfolding apply_delta notify
view-apply_delta event [] m = refl
view-apply_delta event (u ∷ l) m = elim (Bool-cases m.has_full_user_state) [
  | inl full ↦
      view-apply_full event u l m full _ refl
        (table-apply_user_delta m.users event.delta_action (u ∷ l))
  | inr partial ↦ rw partial
]

-- An event changes the abstract mailbox as it says: the last configuration and the last devices
-- win, a full list replaces the table, and a delta is applied to a known table by ID; a delta
-- without a known table, or with an unknown action, asks for a reconciliation instead. A nil
-- payload, an empty delta and any other event change nothing.
pub view-apply :
    (event : Event) (m : NodeMailbox)
    → view (apply event m) ≡ view_step event.event_type event (view m)
unfolding apply
view-apply event m = go event.event_type
  where
    go : (t : EventType) → view (dispatch t event m) ≡ view_step t event (view m)
    go sync_config = view-apply_config event.config m
    go sync_users = view-apply_users event.users m
    go sync_devices = view-apply_devices event.device_users m
    go sync_user_delta = view-apply_delta event (items event.delta_users) m
    go (other name) = refl

unfoldable pub run : List Event → NodeMailbox → NodeMailbox
run [] m = m
run (e ∷ es) m = run es (apply e m)

unfoldable pub view_run : List Event → View → View
view_run [] v = v
view_run (e ∷ es) v = view_run es (view_step e.event_type e v)

-- After any sequence of events the mailbox shows what the abstract mailbox holds: the last
-- configuration and device map since the last delivery, the users as a table by ID, and whether to
-- reconcile.
pub view-run : (es : List Event) (m : NodeMailbox) → view (run es m) ≡ view_run es (view m)
unfolding run view_run
view-run [] m = refl
view-run (e ∷ es) m = view-run es (apply e m) ∙ ap (view_run es) (view-apply e m)
