-- ===== src/Counting.antt =====
-- core/language.py, MatchingAggregateBucket and CountBucket, with the pulls of core/runtime.py.
pub mod Operations
pub mod Steps
pub mod Invariant
pub mod Answered
use pyretic.Base.{
  ℕ, zero, suc, ◌+◌, ◌==◌, Bool, true, false, ◌&&◌, ◌||◌, not, Option, none, some, List, [], ◌∷◌,
  ◌++◌, map, any, has, if◌then◌else◌, bind, map_option, ℤ, int_eq,
}
use pyretic.Packet.{Packet, header, switch, payload_len, Value, num}
use pyretic.Match.{num?}
use pyretic.Action.{entry_eq}
use pyretic.Install.{filter}
use pyretic.Install.Concrete.{Dict}

-- rule_entry: of the match, it keeps the switch.
pub record RuleEntry : Type 0 where
  pub switch : Option (Option Value)
  pub priority : ℤ
  pub version : ℕ

unfoldable pub rule_entry : Dict → ℤ → ℕ → RuleEntry
rule_entry m priority version = record {
  switch = m (header switch);
  priority = priority;
  version = version;
}

unfoldable pub rule_entry_eq : RuleEntry → RuleEntry → Bool
rule_entry_eq a b =
    entry_eq a.switch b.switch && (int_eq a.priority b.priority && a.version == b.version)

pub record MatchStatus : Type 0 where
  pub to_be_deleted : Bool
  pub existing_rule : Bool

-- The dictionary `matches`.
abbrev pub Matches : Type 0
Matches = List (RuleEntry × MatchStatus)

unfoldable pub get_status : RuleEntry → Matches → Option MatchStatus
unfolding rule_entry_eq
get_status k [] = none
get_status k (e ∷ es) = if rule_entry_eq k e.0 then some e.1 else get_status k es

unfoldable pub delete_entry : RuleEntry → Matches → Matches
unfolding rule_entry_eq
delete_entry k [] = []
delete_entry k (e ∷ es) =
    let rest = delete_entry k es in if rule_entry_eq k e.0 then rest else e ∷ rest

-- self.matches[k].to_be_deleted = True
unfoldable pub mark_entry : RuleEntry → Matches → Matches
unfolding rule_entry_eq
mark_entry k [] = []
mark_entry k (e ∷ es) =
    let rest = mark_entry k es in
    (if rule_entry_eq k e.0
      then (e.0, record { to_be_deleted = true; existing_rule = e.1.existing_rule })
      else e)
    ∷ rest

-- A count of packets and one of bytes.
pub record Counts : Type 0 where
  pub packets : ℕ
  pub bytes : ℕ

abbrev pub no_counts : Counts
no_counts = record { packets = 0; bytes = 0 }

infixl 65 ◌⊕◌
abbrev pub ◌⊕◌ : Counts → Counts → Counts
a ⊕ b = record { packets = a.packets + b.packets; bytes = a.bytes + b.bytes }

-- The sets are lists; `delivered` is what the registered callbacks have been called with, the last
-- call first. The flags tell whether the two functions of the runtime are set.
pub record CountBucket : Type 0 where
  pub matches : Matches
  pub in_update : Bool
  pub runtime_stats_query_fun : Bool
  pub runtime_existing_stats_query_fun : Bool
  pub outstanding_switches : List ℕ
  pub switches_in_query : List ℕ
  pub table : Counts
  pub persistent : Counts
  pub persistent_apply : Counts
  pub persistent_removed : Counts
  pub new_bucket : Bool
  pub max_num_callbacks : ℕ
  pub bucket : List Packet
  pub delivered : List Counts

-- __init__
unfoldable pub new_count_bucket : CountBucket
new_count_bucket = record {
  matches = [];
  in_update = false;
  runtime_stats_query_fun = false;
  runtime_existing_stats_query_fun = false;
  outstanding_switches = [];
  switches_in_query = [];
  table = no_counts;
  persistent = no_counts;
  persistent_apply = no_counts;
  persistent_removed = no_counts;
  new_bucket = true;
  max_num_callbacks = 0;
  bucket = [];
  delivered = [];
}

-- A flow that a switch reports; `none` is that it has no key 'match'.
pub record FlowStat : Type 0 where
  pub mat : Option Dict
  pub priority : ℤ
  pub cookie : ℕ
  pub counts : Counts
