-- ===== src/Scenario/Reader/ActionNames.antt =====
-- The names of event actions.
use painless_mesh_simulator.Prelude.{
  String, ◌≡◌, refl, ◌↔◌, ◌⊎◌, inl, inr, eq_iff, str_eq, Bool, subst, Option, if◌then◌else◌, true,
  false, some, none,
}
use painless_mesh_simulator.Result.{Exception, ok, err}
use painless_mesh_simulator.Text.Lower.{lower}
use painless_mesh_simulator.Scenario.{EventAction}
use painless_mesh_simulator.Scenario.Reader.Names.{named_action, string_to_event_action}

-- The name of an action in a scenario file.
pub action_name : EventAction → String
action_name EventAction.stop_node = "stop_node"
action_name EventAction.start_node = "start_node"
action_name EventAction.restart_node = "restart_node"
action_name EventAction.crash_node = "crash_node"
action_name EventAction.remove_node = "remove_node"
action_name EventAction.add_nodes = "add_nodes"
action_name EventAction.partition_network = "partition_network"
action_name EventAction.heal_partition = "heal_partition"
action_name EventAction.break_link = "break_link"
action_name EventAction.restore_link = "restore_link"
action_name EventAction.inject_message = "inject_message"
action_name EventAction.set_network_quality = "set_network_quality"
action_name EventAction.connection_drop = "connection_drop"
action_name EventAction.connection_restore = "connection_restore"
action_name EventAction.connection_degrade = "connection_degrade"

-- The names that an action goes by, in lower case.
abbrev pub IsNameOf : EventAction → String → Type 0
IsNameOf EventAction.crash_node name = (name ≡ "crash_node") ⊎ (name ≡ "node_crash")
IsNameOf action name = name ≡ action_name action

-- One test of the chain: either it gives the action, or the tests behind it do.
pick_on :
    (name : String) (found : EventAction) (test : Bool) (action : EventAction)
    (rest : Option EventAction)
    → (test ≡ true → IsNameOf found name)
    → (rest ≡ some action → IsNameOf action name)
    → (if test then some found else rest) ≡ some action
    → IsNameOf action name
pick_on name found true action rest f g h =
    let same : found ≡ action = cc in subst (λ c. IsNameOf c name) same (f refl)
pick_on name found false action rest f g h = g h

pick :
    (name key : String) (found action : EventAction) (rest : Option EventAction)
    → (name ≡ key → IsNameOf found name)
    → (rest ≡ some action → IsNameOf action name)
    → (if str_eq name key then some found else rest) ≡ some action
    → IsNameOf action name
pick name key found action rest f g h =
    pick_on name found (str_eq name key) action rest (λ e. f ((eq_iff name key).0 e)) g h

named_action-IsNameOf :
    (name : String) (action : EventAction) → named_action name ≡ some action → IsNameOf action name
unfolding named_action action_name
named_action-IsNameOf name action =
    pick name "stop_node" EventAction.stop_node action _ (λ e. e)
      (pick name "start_node" EventAction.start_node action _ (λ e. e)
        (pick name "restart_node" EventAction.restart_node action _ (λ e. e)
          (pick name "crash_node" EventAction.crash_node action _ inl (
            pick name "node_crash" EventAction.crash_node action _ inr (
              pick name "remove_node" EventAction.remove_node action _ (λ e. e)
                (pick name "add_nodes" EventAction.add_nodes action _ (λ e. e)
                  (pick name "partition_network" EventAction.partition_network action _ (λ e. e)
                    (pick name "heal_partition" EventAction.heal_partition action _ (λ e. e)
                      (pick name "break_link" EventAction.break_link action _ (λ e. e)
                        (pick name "restore_link" EventAction.restore_link action _ (λ e. e)
                          (pick name "inject_message" EventAction.inject_message action _ (λ e. e)
                            (pick name "set_network_quality" EventAction.set_network_quality action
                              _ (λ e. e)
                              (pick name "connection_drop" EventAction.connection_drop action _
                                (λ e. e)
                                (pick name "connection_restore" EventAction.connection_restore
                                  action _ (λ e. e)
                                  (pick name "connection_degrade" EventAction.connection_degrade
                                    action _ (λ e. e) (λ h. cc))))))))))))))))

unwrapped :
    (found : Option EventAction) (e : Exception) {action : EventAction}
    → (elim found [ some a ↦ ok a | none ↦ err e ]) ≡ ok action
    → found ≡ some action
unwrapped none e h = cc
unwrapped (some a) e h = cc

wrapped :
    (found : Option EventAction) (e : Exception) {action : EventAction}
    → found ≡ some action
    → (elim found [ some a ↦ ok a | none ↦ err e ]) ≡ ok action
wrapped none e h = cc
wrapped (some a) e h = cc

named_action_of :
    (name : String) (action : EventAction) → IsNameOf action name → named_action name ≡ some action
unfolding named_action action_name
named_action_of name EventAction.stop_node h = rw h refl
named_action_of name EventAction.start_node h = rw h refl
named_action_of name EventAction.restart_node h = rw h refl
named_action_of name EventAction.crash_node (inl h) = rw h refl
named_action_of name EventAction.crash_node (inr h) = rw h refl
named_action_of name EventAction.remove_node h = rw h refl
named_action_of name EventAction.add_nodes h = rw h refl
named_action_of name EventAction.partition_network h = rw h refl
named_action_of name EventAction.heal_partition h = rw h refl
named_action_of name EventAction.break_link h = rw h refl
named_action_of name EventAction.restore_link h = rw h refl
named_action_of name EventAction.inject_message h = rw h refl
named_action_of name EventAction.set_network_quality h = rw h refl
named_action_of name EventAction.connection_drop h = rw h refl
named_action_of name EventAction.connection_restore h = rw h refl
named_action_of name EventAction.connection_degrade h = rw h refl

-- A text is read as an action exactly when it is, in lower case, a name of the action: the one that the
-- enumerator has, or "node_crash" for a crash. Every other text is refused, also
-- "network_partition", "network_heal" and "start_all_nodes", which docs/PARTITION_EVENTS.md uses.
pub string_to_event_action_iff :
    (action_str : String) (action : EventAction)
    → (string_to_event_action action_str ≡ ok action) ↔ IsNameOf action (lower action_str)
unfolding string_to_event_action
string_to_event_action_iff action_str action = (
  λ h. named_action-IsNameOf (lower action_str) action (unwrapped _ _ h),
  λ h. wrapped _ _ (named_action_of (lower action_str) action h),
)
