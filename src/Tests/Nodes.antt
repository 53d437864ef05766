-- ===== src/Tests/Nodes.antt =====
-- The examples for the configurations and the users of a node.
use xboard_node_plus.Prelude.{
  true, none, some, codes, List, [], ◌∷◌, ◌≡◌, ◌↔◌, refl, ◌==◌, str_eq, if◌then◌else◌,
}
use xboard_node_plus.Model.Values.{items}
use xboard_node_plus.Model.Users.{user_at}
use xboard_node_plus.Model.Conversion.{from_panel, to_panel}
use xboard_node_plus.Model.Conversion.RoundTrip.{from_panel-to_panel}
use xboard_node_plus.ControlPlane.{Event, sync_config, sync_users, sync_user_delta}
use xboard_node_plus.ControlPlane.Delta.{apply_user_delta}
use xboard_node_plus.ControlPlane.Delta.Effect.{found_at, found_at-apply_user_delta}
use xboard_node_plus.ControlPlane.Mailbox.{NodeMailbox, new_node_mailbox, drain_if_ready}
use xboard_node_plus.ControlPlane.Mailbox.View.{view, run, view_run, view-run}
use xboard_node_plus.ControlPlane.Mailbox.Delivery.{Delivers, delivered, drain-run}
use xboard_node_plus.Kernel.{user_diff}
use xboard_node_plus.Service.Users.{merge_users, subtract_users, reject_fetched_users}
use xboard_node_plus.Service.Users.Tables.{uuid_at, uuid_at-user_diff}
use xboard_node_plus.Service.Users.Acceptance.{IsAcceptable, reject_fetched_users_iff}
use xboard_node_plus.Tests.Samples.{panel_node, node, bob, new_ann, both}

from_panel-to_panel_example :
    from_panel (to_panel (from_panel (some panel_node))) ≡ from_panel (some panel_node)
from_panel-to_panel_example = from_panel-to_panel (some panel_node)

found_at-apply_user_delta_example :
    found_at 1 (apply_user_delta (some both) (codes "add") (new_ann ∷ [])) ≡ (
      if codes "add" == codes "add"
      then some (user_at 1 (items (merge_users (some both) (some (new_ann ∷ [])))))
      else if codes "add" == codes "remove"
      then some (user_at 1 (items (subtract_users (some both) (some (new_ann ∷ [])))))
      else none)
found_at-apply_user_delta_example =
    found_at-apply_user_delta (some both) (new_ann ∷ []) 1 (codes "add")

abbrev users_event : Event
users_event = record {
  event_type = sync_users;
  config = none;
  users = some both;
  delta_action = [];
  delta_users = none;
  device_users = none;
}

abbrev delta_event : Event
delta_event = record {
  event_type = sync_user_delta;
  config = none;
  users = none;
  delta_action = codes "remove";
  delta_users = some (bob ∷ []);
  device_users = none;
}

abbrev config_event : Event
config_event = record {
  event_type = sync_config;
  config = some node;
  users = none;
  delta_action = [];
  delta_users = none;
  device_users = none;
}

abbrev events : List Event
events = users_event ∷ config_event ∷ delta_event ∷ []

abbrev ready_mailbox : NodeMailbox
ready_mailbox = record new_node_mailbox { ready = true }

view-run_example : view (run events ready_mailbox) ≡ view_run events (view ready_mailbox)
view-run_example = view-run events ready_mailbox

drain-run_example :
    Delivers (drain_if_ready (run events ready_mailbox)).0 (view_run events (view ready_mailbox))
    × (view (drain_if_ready (run events ready_mailbox)).1
        ≡ delivered (view_run events (view ready_mailbox)))
drain-run_example = drain-run events ready_mailbox refl

uuid_at-user_diff_example :
    uuid_at 1 (
      items (
        merge_users
          (subtract_users (some both) (some (user_diff both (new_ann ∷ [])).1))
          (some (user_diff both (new_ann ∷ [])).0)))
    ≡ uuid_at 1 (new_ann ∷ [])
uuid_at-user_diff_example = uuid_at-user_diff both (new_ann ∷ []) 1 (refl, (refl, tt)) (refl, tt)

reject_fetched_users_iff_example :
    (reject_fetched_users both (new_ann ∷ []) ≡ none) ↔ IsAcceptable both (new_ann ∷ [])
reject_fetched_users_iff_example = reject_fetched_users_iff both (new_ann ∷ [])
