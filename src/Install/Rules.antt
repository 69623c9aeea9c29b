-- ===== src/Install/Rules.antt =====
-- core/runtime.py, install_classifier: in-ports, priorities, cookies, and the listed rules.
use pyretic.Base.{
  ℕ, Bool, false, ◌||◌, Option, none, some, List, [], ◌∷◌, ◌++◌, map, any, if◌then◌else◌, bind,
  map_option, cons_option, String, ℤ, pos, pred,
}
use pyretic.Packet.{header, switch, port, Value, num, option_eq}
use pyretic.Ipaddr.{Ipaddr}
use pyretic.Classifier.{Classifier}
use pyretic.Install.{switchify}
use pyretic.Install.Concrete.{
  ofpp_in_port, ofpp_controller, custom_next_table_port, Dict, set_port, ConcreteAction, dict,
  object, ConcreteRule, is_aggregate, concretize, set_next_table_port, check_of_rules,
}

-- The ports of OpenFlow that are no physical ones.
abbrev pub is_reserved : Option Value → Bool
is_reserved p =
    option_eq p (some (num ofpp_controller))
    || (option_eq p (some (num ofpp_in_port)) || option_eq p (some (num custom_next_table_port)))

-- a['port'], unless it is reserved; `none` is a KeyError
abbrev pub outport_of :
    Option (Option Value) → Option (List (Option Value)) → Option (List (Option Value))
outport_of none rest = none
outport_of (some p) rest = if is_reserved p then rest else cons_option (some p) rest

-- outports_used
unfoldable pub outports_used : List ConcreteAction → Option (List (Option Value))
outports_used [] = some []
outports_used (dict d ∷ acts) = outport_of (d (header port)) (outports_used acts)
outports_used (object a ∷ acts) =
    let rest = outports_used acts in if is_aggregate (object a) then rest else none

abbrev pub sends_entry : Option (Option Value) → Option Value → Bool
sends_entry none outport = false
sends_entry (some p) outport = option_eq p outport

abbrev pub sends_to : Dict → Option Value → Bool
sends_to d outport = sends_entry (d (header port)) outport

abbrev pub specialize_action : Option Value → ConcreteAction → ConcreteAction
specialize_action outport (dict d) =
    dict (if sends_to d outport then set_port d (some (num ofpp_in_port)) else d)
specialize_action outport (object a) = object a

-- specialize_actions, on actions that outports_used has found to have ports
unfoldable pub specialize_actions : List ConcreteAction → Option Value → List ConcreteAction
specialize_actions acts outport = map (specialize_action outport) acts

-- x in xs
abbrev pub in_ports : Option Value → List (Option Value) → Bool
in_ports p ps = any (λ q. option_eq p q) ps

-- The rules for a rule that uses these ports, by its match on an in-port and on a switch.
unfoldable pub inportize_with :
    ConcreteRule
    → List (Option Value)
    → Option (Option Value)
    → Option (Option Value)
    → Option (List ConcreteRule)
unfolding specialize_actions
inportize_with r ports none none = none
inportize_with r ports none (some s) = some (
    map (λ p. record { mat = set_port r.mat p; actions = specialize_actions r.actions p }) ports
    ++ r ∷ [])
inportize_with r ports (some p) s = some (
    (if in_ports p ports
      then record { mat = r.mat; actions = specialize_actions r.actions p }
      else r)
    ∷ [])

unfoldable pub inportize_rule : ConcreteRule → Option (List ConcreteRule)
unfolding outports_used inportize_with
inportize_rule r =
    bind (outports_used r.actions)
      (λ ports. inportize_with r ports (r.mat (header port)) (r.mat (header switch)))

abbrev pub append_option : {A : Type 0} → Option (List A) → Option (List A) → Option (List A)
append_option (some xs) (some ys) = some (xs ++ ys)
append_option _ _ = none

unfoldable pub of_inportize : List ConcreteRule → Option (List ConcreteRule)
unfolding inportize_rule
of_inportize [] = some []
of_inportize (r ∷ rs) = append_option (inportize_rule r) (of_inportize rs)

-- The fields `parents` and `op`, which only diagnostics read, are left out.
pub record ListedRule : Type 0 where
  pub mat : Dict
  pub priority : ℤ
  pub actions : List ConcreteAction
  pub version : ℕ
  pub cookie : ℕ
  pub table_id : ℕ
  pub notify : Bool

abbrev pub table_start_priority : ℕ
table_start_priority = 60000

-- The dictionary `priority`, by the switch.
abbrev pub Priorities : Type 0
Priorities = Option Value → Option ℤ

-- priority[s] -= 1, or the first priority on a KeyError
abbrev pub next_priority : Option ℤ → ℤ
next_priority none = pos table_start_priority
next_priority (some z) = pred z

abbrev pub set_priority : Priorities → Option Value → ℤ → Priorities
set_priority priority s z t = if option_eq s t then some z else priority t

abbrev pub list_rule : ConcreteRule → ℤ → ListedRule
list_rule r z = record {
  mat = r.mat;
  priority = z;
  actions = r.actions;
  version = 0;
  cookie = 0;
  table_id = 0;
  notify = false;
}

-- The loop of prioritize; `none` is that a rule has no switch.
unfoldable pub prioritize_from : Priorities → List ConcreteRule → Option (List ListedRule)
prioritize_from priority [] = some []
prioritize_from priority (r ∷ rs) = bind (r.mat (header switch)) (λ s.
    let z = next_priority (priority s) in
    cons_option (some (list_rule r z)) (prioritize_from (set_priority priority s z) rs))

unfoldable pub prioritize : List ConcreteRule → Option (List ListedRule)
unfolding prioritize_from
prioritize rs = prioritize_from (λ s. none) rs

abbrev pub add_cookie : ℕ → ListedRule → ListedRule
add_cookie cookie r = record {
  mat = r.mat;
  priority = r.priority;
  actions = r.actions;
  version = cookie;
  cookie = cookie;
  table_id = r.table_id;
  notify = false;
}

abbrev pub add_table_id : ℕ → ListedRule → ListedRule
add_table_id table_id r = record {
  mat = r.mat;
  priority = r.priority;
  actions = r.actions;
  version = r.version;
  cookie = r.cookie;
  table_id = table_id;
  notify = false;
}

module _ ⦃i : Ipaddr⦄ where
  open i use {Network}

  -- get_new_rules, for the switches of the network and a cookie
  unfoldable pub get_new_rules :
      (Network → String) → Bool → List ℕ → ℕ → ℕ → Classifier → Option (List ListedRule)
  unfolding switchify concretize set_next_table_port check_of_rules of_inportize prioritize
  get_new_rules network_to_string use_nx switches cookie table_id c =
      let rules = concretize network_to_string use_nx (switchify c switches) in
      bind (if use_nx then set_next_table_port rules else some rules) (λ next.
        bind (check_of_rules next) (λ sound. bind (of_inportize sound) (λ specialized.
          map_option (map (λ r. add_table_id table_id (add_cookie cookie r)))
            (prioritize specialized))))
