-- ===== src/Examples/Buckets.antt =====
-- The theorems on counting buckets, for a bucket with one rule.
use pyretic.Base.{◌&&◌, none, some, [], ◌∷◌, ◌≡◌, refl, any, has, pos, int_eq}
use pyretic.Packet.{header, switch, num, option_eq, value_eq}
use pyretic.Match.{is_none}
use pyretic.Install.Concrete.{Dict}
use pyretic.Counting.{
  ◌⊕◌, CountBucket, FlowStat, new_count_bucket, rule_entry, get_status, rule_entry_eq,
}
use pyretic.Counting.Operations.{
  add_match, start_update, finish_update, add_pull_stats, pull_stats, handle_flow_stats_reply,
  clear_transient_counters, pull_existing_stats, pull_helper, pull_switches_for_preds, add_queries,
  add_outstanding_switch_query, increment_max_num_callbacks,
}
use pyretic.Counting.Steps.{Run, created, then_, starting, adding, setting, finishing, pulling}
use pyretic.Counting.Invariant.{IsValid, Run-IsValid, handle_flow_stats_reply-error}
use pyretic.Counting.Answered.{handle_replies, answers, sum_of_replies, pull_stats-answered}

abbrev at_switch_1 : Dict
at_switch_1 (header switch) = some (some (num 1))
at_switch_1 _ = none

-- One rule on switch 1, in an update.
abbrev filled : CountBucket
filled = add_pull_stats (add_match at_switch_1 (pos 60000) 1 (start_update new_count_bucket))

abbrev ready : CountBucket
ready = finish_update (1 ∷ 2 ∷ []) filled

ready-Run : Run 0 ready
ready-Run =
    then_
      (then_
        (then_ (then_ created (starting new_count_bucket)) (adding at_switch_1 (pos 60000) 1 _))
        (setting _))
      (finishing (1 ∷ 2 ∷ []) filled)

abbrev flow : FlowStat
flow = record {
  mat = some at_switch_1;
  priority = pos 60000;
  cookie = 1;
  counts = record { packets = 4; bytes = 300 };
}

pulled-Run : Run 1 (pull_stats (1 ∷ 2 ∷ []) ready)
unfolding new_count_bucket start_update clear_transient_counters add_match rule_entry get_status
    rule_entry_eq add_pull_stats finish_update pull_existing_stats pull_helper
    pull_switches_for_preds
pulled-Run = then_ ready-Run (pulling (1 ∷ 2 ∷ []) ready refl)

Run-IsValid_example : IsValid 1 (pull_stats (1 ∷ 2 ∷ []) ready)
Run-IsValid_example = Run-IsValid pulled-Run

handle_flow_stats_reply-error_example :
    is_none (handle_flow_stats_reply 1 (flow ∷ []) (pull_stats (1 ∷ 2 ∷ []) ready)) ≡ (
      has 1 (pull_stats (1 ∷ 2 ∷ []) ready).outstanding_switches
      && any (λ f. is_none f.mat) (flow ∷ []))
handle_flow_stats_reply-error_example = handle_flow_stats_reply-error 1 (flow ∷ []) pulled-Run

pull_stats-answered_example :
    (after : CountBucket) × (handle_replies ((1, flow ∷ []) ∷ []) (pull_stats (1 ∷ 2 ∷ []) ready)
      ≡ some after)
    × (after.delivered
        ≡ ((ready.table ⊕ sum_of_replies ready.matches ((1, flow ∷ []) ∷ [])) ⊕ ready.persistent)
          ∷ ready.delivered)
    × (after.max_num_callbacks ≡ ready.max_num_callbacks)
    × (after.outstanding_switches ≡ [])
unfolding new_count_bucket start_update clear_transient_counters add_match rule_entry get_status
    rule_entry_eq add_pull_stats finish_update pull_existing_stats pull_helper
    pull_switches_for_preds pull_stats add_queries add_outstanding_switch_query
    increment_max_num_callbacks answers option_eq value_eq int_eq
pull_stats-answered_example =
    pull_stats-answered (1 ∷ 2 ∷ []) ready (1, flow ∷ []) [] refl refl refl (refl, tt)
      ((refl, tt), tt)
