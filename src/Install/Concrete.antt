-- ===== src/Install/Concrete.antt =====
-- core/runtime.py, install_classifier: rules as dictionaries, and the checks on them.
use pyretic.Base.{
  true≢false, ap, ◌∙◌, sym, ◌≡◌, Option-cases, inl, inr, ℕ, suc, leb, Bool, true, false, ◌&&◌, ◌||◌,
  not, Option, none, some, List, [], ◌∷◌, ◌++◌, map, all, if◌then◌else◌, bind, map_all, map_option,
  cons_option, String,
}
use pyretic.Packet.{Field, ip, tag, header, port, Value, num, str, ModifyMap, all_fields}
use pyretic.Ipaddr.{Ipaddr}
use pyretic.Match.{PatternOf, Pred, identity, drop, match, is_none}
use pyretic.Action.{Action, count_bucket, netflow_bucket}
use pyretic.Policy.{port_map}
use pyretic.Classifier.{Rule, Classifier}

-- core/network.py
abbrev pub ofpp_in_port : ℕ
ofpp_in_port = 0xfff8

abbrev pub ofpp_controller : ℕ
ofpp_controller = 0xfffd

abbrev pub custom_next_table_port : ℕ
custom_next_table_port = 0xfff4

-- A Python dictionary from fields to values.
abbrev pub Dict : Type 0
Dict = ModifyMap

-- k in d
abbrev pub has_key : Dict → Field → Bool
has_key d f = not (is_none (d f))

pub key_entry : (d : Dict) (f : Field) → has_key d f ≡ true → (v : Option Value) × (d f ≡ some v)
key_entry d f h = elim (Option-cases (d f)) [
  | inl e ↦ absurd (true≢false (sym h ∙ ap (λ o. not (is_none o)) e))
  | inr found ↦ found
]

-- d['port'] = p
abbrev pub set_port : Dict → Option Value → Dict
set_port d p (header port) = some p
set_port d p f = d f

-- An action is a dictionary, or the object that it was.
pub data ConcreteAction : Type 0 where
  dict : Dict → ConcreteAction
  object : Action → ConcreteAction

pub record ConcreteRule : Type 0 where
  pub mat : Dict
  pub actions : List ConcreteAction

-- isinstance(a, Query)
abbrev pub is_query : ConcreteAction → Bool
is_query (object (Action.query b)) = true
is_query _ = false

-- isinstance(a, MatchingAggregateBucket)
abbrev pub is_aggregate : ConcreteAction → Bool
is_aggregate (object (Action.query (count_bucket n))) = true
is_aggregate (object (Action.query (netflow_bucket n))) = true
is_aggregate _ = false

unfoldable pub concretize_action : Bool → Action → ConcreteAction
concretize_action use_nx Action.controller = dict (port_map ofpp_controller)
concretize_action use_nx (Action.modify m) = dict m
concretize_action use_nx Action.identity =
    if use_nx then dict (port_map custom_next_table_port) else object Action.identity
concretize_action use_nx (Action.query b) = object (Action.query b)

module _ ⦃i : Ipaddr⦄ where
  open i use {Network}

  -- `network_to_string` is core/util.py's printing of the network's attributes.
  module _ (network_to_string : Network → String) where
    abbrev pub concrete_entry : (f : Field) → Option (PatternOf f) → Option (Option Value)
    concrete_entry f none = none
    concrete_entry (ip _) (some n) = some (some (str (network_to_string n)))
    concrete_entry (header _) (some p) = some p
    concrete_entry (tag _) (some p) = some p

    -- `none` is None, for the predicate false; the empty match is true.
    unfoldable pub concretize_match : Pred → Option Dict
    concretize_match identity = some (λ f. none)
    concretize_match drop = none
    concretize_match (match m) = some (λ f. concrete_entry f (m f))

    abbrev pub concretize_rule : Bool → Rule → Option ConcreteRule
    concretize_rule use_nx r =
        map_option (λ m. record { mat = m; actions = map (concretize_action use_nx) r.actions })
          (concretize_match r.mat)

    abbrev pub keep : Option ConcreteRule → List ConcreteRule → List ConcreteRule
    keep none rs = rs
    keep (some r) rs = r ∷ rs

    unfoldable pub concretize : Bool → Classifier → List ConcreteRule
    unfolding concretize_match concretize_action
    concretize use_nx [] = []
    concretize use_nx (r ∷ c) = keep (concretize_rule use_nx r) (concretize use_nx c)

-- Each step below gives `none` where the source raises.

-- act['port'] = custom_next_table_port, if there is no port
abbrev pub next_table_action : ConcreteAction → Option ConcreteAction
next_table_action (dict d) =
    some
      (dict (if has_key d (header port) then d else set_port d (some (num custom_next_table_port))))
next_table_action (object (Action.query b)) = some (object (Action.query b))
next_table_action (object a) = none

unfoldable pub set_next_table_port : List ConcreteRule → Option (List ConcreteRule)
set_next_table_port rs =
    map_all
      (λ r.
        map_option (λ acts. record { mat = r.mat; actions = acts })
          (map_all next_table_action r.actions))
      rs

-- len(d)
abbrev pub key_count : Dict → ℕ
key_count d = count all_fields
  where
    count : List Field → ℕ
    count [] = 0
    count (f ∷ fs) = if has_key d f then suc (count fs) else count fs

-- sorted(..., key=len), which is stable
unfoldable pub insert_by_length : Dict → List Dict → List Dict
insert_by_length d [] = d ∷ []
insert_by_length d (e ∷ es) =
    let rest = insert_by_length d es in
    if leb (key_count d) (key_count e) then d ∷ e ∷ es else e ∷ rest

unfoldable pub sort_by_length : List Dict → List Dict
unfolding insert_by_length
sort_by_length [] = []
sort_by_length (d ∷ ds) = insert_by_length d (sort_by_length ds)

-- The actions that are no queries; an object among them has no length.
abbrev pub modify_acts : List ConcreteAction → Option (List Dict)
modify_acts [] = some []
modify_acts (dict d ∷ acts) = cons_option (some d) (modify_acts acts)
modify_acts (object (Action.query b) ∷ acts) = modify_acts acts
modify_acts (object a ∷ acts) = none

abbrev pub query_acts : List ConcreteAction → List ConcreteAction
query_acts [] = []
query_acts (a ∷ acts) = if is_query a then a ∷ query_acts acts else query_acts acts

unfoldable pub has_outport : List Dict → Bool
has_outport acts = all (λ d. has_key d (header port)) acts

-- not prev_moded_fields - curr_moded_fields
abbrev pub keys_in : Dict → Dict → Bool
keys_in prev curr = all (λ f. not (has_key prev f) || has_key curr f) all_fields

unfoldable pub growing : Dict → List Dict → Bool
growing prev [] = true
growing prev (d ∷ ds) = keys_in prev d && growing d ds

unfoldable pub has_compilable_action_list : List Dict → Bool
unfolding growing
has_compilable_action_list [] = true
has_compilable_action_list (d ∷ []) = true
has_compilable_action_list (d ∷ ds) = growing d (d ∷ ds)

abbrev pub checked : Dict → List Dict → List ConcreteAction → Option ConcreteRule
checked mat ds queries =
    if has_outport ds && has_compilable_action_list ds
    then some (record { mat = mat; actions = map dict ds ++ queries })
    else none

unfoldable pub check_of_rule : ConcreteRule → Option ConcreteRule
unfolding sort_by_length has_outport has_compilable_action_list
check_of_rule r =
    bind (modify_acts r.actions) (λ ds. checked r.mat (sort_by_length ds) (query_acts r.actions))

unfoldable pub check_of_rules : List ConcreteRule → Option (List ConcreteRule)
unfolding check_of_rule
check_of_rules rs = map_all check_of_rule rs
