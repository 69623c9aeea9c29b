-- ===== src/Counting/Operations.antt =====
-- core/language.py, class CountBucket: its operations; and the pulls of core/runtime.py.
use pyretic.Base.{
  all, any, ℕ, zero, suc, ◌==◌, Bool, true, false, ◌&&◌, not, Option, none, some, List, [], ◌∷◌,
  ◌++◌, map, has, if◌then◌else◌, bind, map_option, ℤ,
}
use pyretic.Packet.{option_eq, all_fields, Packet, header, payload_len, Value, num}
use pyretic.Match.{num?}
use pyretic.Install.{filter}
use pyretic.Install.Concrete.{Dict}
use pyretic.Counting.{
  RuleEntry, rule_entry, MatchStatus, Matches, get_status, delete_entry, mark_entry, Counts,
  no_counts, ◌⊕◌, CountBucket, FlowStat,
}

abbrev pub is_none_status : Option MatchStatus → Bool
is_none_status none = true
is_none_status (some _) = false

unfoldable pub add_match : Dict → ℤ → ℕ → CountBucket → CountBucket
unfolding rule_entry get_status
add_match m priority version b =
    let k = rule_entry m priority version in
    if is_none_status (get_status k b.matches)
    then record b {
      matches = (k, record { to_be_deleted = false; existing_rule = false }) ∷ b.matches;
    }
    else b

unfoldable pub delete_match : Dict → ℤ → ℕ → Bool → CountBucket → CountBucket
unfolding rule_entry delete_entry mark_entry
delete_match m priority version to_be_deleted b =
    let k = rule_entry m priority version in
    record b {
      matches = if to_be_deleted then delete_entry k b.matches else mark_entry k b.matches;
    }

-- Packet.__eq__
abbrev pub packet_eq : Packet → Packet → Bool
packet_eq p q = all (λ f. option_eq (p.header f) (q.header f)) all_fields

-- Query.eval, which adds to a set
unfoldable pub collect_packet : Packet → CountBucket → CountBucket
collect_packet pkt b =
    if any (λ q. packet_eq pkt q) b.bucket then b else record b { bucket = pkt ∷ b.bucket }

-- The loop of apply; `none` is that a packet has no number for its payload_len.
abbrev pub count_packets : List Packet → Option Counts
count_packets [] = some no_counts
count_packets (pkt ∷ pkts) =
    bind (num? (some (pkt.header (header payload_len))))
      (λ len. map_option (λ c. record { packets = 1; bytes = len } ⊕ c) (count_packets pkts))

unfoldable pub apply : CountBucket → Option CountBucket
apply b =
    map_option
      (λ c. record b {
        persistent = b.persistent ⊕ c;
        persistent_apply = b.persistent_apply ⊕ c;
        bucket = [];
      })
      (count_packets b.bucket)

unfoldable pub clear_transient_counters : CountBucket → CountBucket
clear_transient_counters b = record b { table = no_counts }

unfoldable pub start_update : CountBucket → CountBucket
unfolding clear_transient_counters
start_update b = clear_transient_counters (record b {
  in_update = true;
  runtime_stats_query_fun = false;
  outstanding_switches = [];
  switches_in_query = [];
})

unfoldable pub add_pull_stats : CountBucket → CountBucket
add_pull_stats b = record b { runtime_stats_query_fun = true }

unfoldable pub add_pull_existing_stats : CountBucket → CountBucket
add_pull_existing_stats b = record b { runtime_existing_stats_query_fun = true }

-- set.add
abbrev pub add_switch : ℕ → List ℕ → List ℕ
add_switch s ss = if has s ss then ss else s ∷ ss

unfoldable pub add_outstanding_switch_query : ℕ → CountBucket → CountBucket
add_outstanding_switch_query s b = record b {
  outstanding_switches = add_switch s b.outstanding_switches;
  switches_in_query = add_switch s b.switches_in_query;
}

-- The loop of pull_switches_for_preds over the switches of the predicates.
abbrev pub switches_of : List ℕ → List (Option (Option Value)) → List ℕ → List ℕ
switches_of up [] acc = acc
switches_of up (none ∷ preds) acc = up
switches_of up (some (some (num s)) ∷ preds) acc =
    switches_of up preds (if not (has s acc) && has s up then acc ++ s ∷ [] else acc)
switches_of up (_ ∷ preds) acc = switches_of up preds acc

unfoldable pub add_queries : List ℕ → CountBucket → CountBucket
unfolding add_outstanding_switch_query
add_queries [] b = b
add_queries (s ∷ ss) b = add_queries ss (add_outstanding_switch_query s b)

abbrev pub is_empty_list : List ℕ → Bool
is_empty_list [] = true
is_empty_list (_ ∷ _) = false

-- pull_switches_for_preds, for the switches that are up: was a query issued?
unfoldable pub pull_switches_for_preds :
    List ℕ → List (Option (Option Value)) → CountBucket → Bool × CountBucket
unfolding add_queries
pull_switches_for_preds up preds b =
    let ss = switches_of up preds [] in
    if is_empty_list ss then (false, b) else (true, add_queries ss b)

-- pull_helper clears switches_to_query, which nothing reads.
unfoldable pub pull_helper : Bool → List ℕ → Matches → CountBucket → Bool × CountBucket
unfolding pull_switches_for_preds
pull_helper fun up entries b =
    if fun
    then pull_switches_for_preds up (map (λ e. e.0.switch) entries)
        (record b { outstanding_switches = [] })
    else (false, b)

abbrev pub call_left : ℕ → Counts → CountBucket → CountBucket
call_left zero args b = b
call_left (suc n) args b = record b { max_num_callbacks = n; delivered = args ∷ b.delivered }

unfoldable pub call_callbacks : Counts → CountBucket → CountBucket
call_callbacks args b = call_left b.max_num_callbacks args b

unfoldable pub increment_max_num_callbacks : CountBucket → CountBucket
increment_max_num_callbacks b = record b { max_num_callbacks = suc b.max_num_callbacks }

-- if not queries_issued
abbrev pub after_pull : Bool → CountBucket → CountBucket
after_pull true b = b
after_pull false b = let c = record b { table = no_counts } in call_callbacks c.persistent c

unfoldable pub pull_stats : List ℕ → CountBucket → CountBucket
unfolding pull_helper increment_max_num_callbacks call_callbacks
pull_stats up b =
    let r = pull_helper b.runtime_stats_query_fun up b.matches b in
    after_pull r.0 (increment_max_num_callbacks r.1)

unfoldable pub pull_existing_stats : List ℕ → CountBucket → CountBucket
unfolding pull_helper
pull_existing_stats up b =
    (pull_helper b.runtime_existing_stats_query_fun up (filter (λ e. e.1.existing_rule) b.matches)
      b).1

unfoldable pub finish_update : List ℕ → CountBucket → CountBucket
unfolding pull_existing_stats
finish_update up b =
    let c = record b { in_update = false } in
    if c.new_bucket then record (pull_existing_stats up c) { new_bucket = false } else c

-- The branch of handle_flow_removed for an entry; `none` is the failed assertion.
abbrev pub removed_entry :
    RuleEntry → Counts → Option MatchStatus → CountBucket → Option CountBucket
removed_entry k c none b = some b
removed_entry k c (some status) b =
    if status.to_be_deleted
    then some (
        if status.existing_rule then record b { matches = delete_entry k b.matches } else record b {
          matches = delete_entry k b.matches;
          persistent = b.persistent ⊕ c;
          persistent_removed = b.persistent_removed ⊕ c;
        })
    else none

unfoldable pub handle_flow_removed : Dict → ℤ → ℕ → Counts → CountBucket → Option CountBucket
unfolding rule_entry get_status delete_entry
handle_flow_removed m priority version c b =
    let k = rule_entry m priority version in removed_entry k c (get_status k b.matches) b

-- f['switch'] = s, and the entry
abbrev pub stat_entry : ℕ → FlowStat → RuleEntry
stat_entry s f = record { switch = some (some (num s)); priority = f.priority; version = f.cookie }

-- What a flow adds to the table's counts; `none` is that the source raises: for a flow without a
-- match, and in clear_existing_rule_flag, whose assertion names an unknown `k`.
abbrev pub counted : Counts → Option Dict → Option MatchStatus → Option Counts
counted c none status = none
counted c (some m) none = some no_counts
counted c (some m) (some status) = if status.existing_rule then none else some c

unfoldable pub count_stats : Matches → ℕ → List FlowStat → Option Counts
unfolding get_status
count_stats ms s [] = some no_counts
count_stats ms s (f ∷ fs) =
    bind (counted f.counts f.mat (get_status (stat_entry s f) ms))
      (λ c. map_option (λ d. c ⊕ d) (count_stats ms s fs))

-- set.remove
abbrev pub remove_switch : ℕ → List ℕ → List ℕ
remove_switch s ss = filter (λ t. not (s == t)) ss

-- The last lines of handle_flow_stats_reply.
abbrev pub report_counts : CountBucket → CountBucket
report_counts b =
    if is_empty_list b.outstanding_switches
    then record (call_callbacks (b.table ⊕ b.persistent) b) { table = no_counts }
    else b

unfoldable pub handle_flow_stats_reply : ℕ → List FlowStat → CountBucket → Option CountBucket
unfolding count_stats call_callbacks
handle_flow_stats_reply s stats b =
    if has s b.outstanding_switches
    then map_option
        (λ c. report_counts (record b {
          table = b.table ⊕ c;
          outstanding_switches = remove_switch s b.outstanding_switches;
        }))
        (count_stats b.matches s stats)
    else some (report_counts b)
