-- ===== src/Install/Messages.antt =====
-- core/runtime.py, install_classifier: the messages that an installation sends to the switches.
pub mod Failure
use pyretic.Base.{
  ℕ, ◌+◌, ◌==◌, Bool, true, false, ◌||◌, Option, none, some, List, [], ◌∷◌, ◌++◌, map,
  if◌then◌else◌, ℤ, pos, bind,
}
use pyretic.Packet.{header, switch, port, ethtype, Value, num}
use pyretic.Policy.{port_map}
use pyretic.Cookie.{get_cookie}
use pyretic.Install.Concrete.{Dict, ConcreteAction, dict, ofpp_controller}
use pyretic.Install.Rules.{ListedRule, table_start_priority}
use pyretic.Install.Diff.{
  DiffLists, get_incremental_diff, get_nuclear_diff, remove_matching_aggregate_buckets,
}
use pyretic.Install.Bookkeeping.{Books, bookkeep_count_buckets}

-- to_tuple
pub record RuleTuple : Type 0 where
  pub mat : Dict
  pub priority : ℤ
  pub actions : List ConcreteAction
  pub cookie : ℕ
  pub notify : Bool
  pub table_id : ℕ

unfoldable pub to_tuple : ListedRule → RuleTuple
to_tuple r = record {
  mat = r.mat;
  priority = r.priority;
  actions = r.actions;
  cookie = r.cookie;
  notify = r.notify;
  table_id = r.table_id;
}

pub data Message : Type 0 where
  send_barrier : ℕ → Message
  send_clear : ℕ → ℕ → Message
  install_rule modify_rule : RuleTuple → Message

pub data Mode : Type 0 where
  proactive0 proactive1 : Mode

abbrev pub is_nuclear : Mode → Bool
is_nuclear proactive0 = true
is_nuclear proactive1 = false

-- get_diff_lists, from the old rules: the lists, and the old rules afterwards
unfoldable pub get_diff_lists :
    Mode → List ListedRule → List ListedRule → DiffLists × List ListedRule
unfolding get_nuclear_diff get_incremental_diff
get_diff_lists proactive0 old_rules new_rules = get_nuclear_diff old_rules new_rules
get_diff_lists proactive1 old_rules new_rules = get_incremental_diff old_rules new_rules

abbrev switch_dict : ℕ → Dict
switch_dict s (header switch) = some (some (num s))
switch_dict s _ = none

abbrev switch_ethtype_dict : ℕ → ℕ → Dict
switch_ethtype_dict s n (header switch) = some (some (num s))
switch_ethtype_dict s n (header ethtype) = some (some (num n))
switch_ethtype_dict s n _ = none

abbrev default_rule : Dict → ℕ → List ConcreteAction → ℕ → ℕ → Message
default_rule m priority acts cookie table_id = install_rule (record {
  mat = m;
  priority = pos priority;
  actions = acts;
  cookie = cookie;
  notify = false;
  table_id = table_id;
})

-- A table miss and LLDP packets go to the controller, and IPv6 packets are dropped.
unfoldable pub install_defaults : ℕ → ℕ → ℕ → List Message
unfolding get_cookie
install_defaults default_cookie s table_id =
    let cookie = get_cookie default_cookie table_id in
    let to_controller = dict (port_map ofpp_controller) ∷ [] in
    default_rule (switch_dict s) 0 to_controller cookie table_id
    ∷ default_rule (switch_ethtype_dict s 0x88cc) (table_start_priority + 2) to_controller cookie
        table_id
    ∷ default_rule (switch_ethtype_dict s 0x86dd) (table_start_priority + 1) [] cookie table_id
    ∷ []

-- The loop that clears the switches.
abbrev pub clear_switches : ℕ → ℕ → List ℕ → List Message
clear_switches default_cookie table_id [] = []
clear_switches default_cookie table_id (s ∷ ss) =
    (send_barrier s ∷ send_clear s table_id ∷ send_barrier s ∷ [])
    ++ (install_defaults default_cookie s table_id ++ clear_switches default_cookie table_id ss)

-- The loop over the rules to delete; `none` is the ValueError of taking a tuple of six apart
-- into four names.
abbrev pub delete_rules : List RuleTuple → Option (List Message)
delete_rules [] = some []
delete_rules (r ∷ rs) = none

abbrev pub around : List Message → Option (List Message) → List Message → Option (List Message)
around before none after = none
around before (some ms) after = some (before ++ (ms ++ after))

-- install_diff_lists, on the tuples of convert_to_tuple, for the switches of the network
unfoldable pub install_diff_lists : Mode → ℕ → ℕ → ℕ → List ℕ → DiffLists → Option (List Message)
unfolding to_tuple install_defaults
install_diff_lists mode default_cookie version table_id switches d =
    around
      (if version == 1 || is_nuclear mode
        then clear_switches default_cookie table_id switches
        else [])
      (if is_nuclear mode then some [] else delete_rules (map to_tuple d.to_delete))
      (map (λ r. install_rule (to_tuple r)) d.to_add
        ++ ((if is_nuclear mode then [] else map (λ r. modify_rule (to_tuple r)) d.to_modify)
            ++ map send_barrier switches))

-- The end of install_classifier, for rules without a NetflowBucket, whose bookkeeping then changes
-- nothing: the messages, where `none` is an exception, the old rules for the next time, and the
-- books, where `none` is an exception in bookkeep_count_buckets.
unfoldable pub install_rules :
    Mode
    → ℕ
    → ℕ
    → ℕ
    → List ℕ
    → Bool
    → Books
    → List ListedRule
    → List ListedRule
    → Option (List Message) × List ListedRule × Option Books
unfolding get_diff_lists remove_matching_aggregate_buckets install_diff_lists bookkeep_count_buckets
install_rules mode default_cookie version table_id switches use_nx books old_rules new_rules =
    let diff = get_diff_lists mode old_rules new_rules in
    let books' = bookkeep_count_buckets use_nx table_id switches diff.0 books in
    let messages =
      install_diff_lists mode default_cookie version table_id switches
        (remove_matching_aggregate_buckets diff.0) in
    (bind books' (λ _. messages), diff.1, books')
