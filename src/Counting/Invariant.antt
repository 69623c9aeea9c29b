-- ===== src/Counting/Invariant.antt =====
-- CountBucket: what its state keeps to, whatever calls it gets.
use pyretic.Base.{
  any, ℕ, zero, suc, ◌+◌, Bool, true, false, ◌&&◌, ◌||◌, Option, none, some, List, [], ◌∷◌, map,
  length, All, ◌≡◌, refl, sym, ◌∙◌, ap, arith, inl, inr, Bool-cases, bind, map_option, ℤ, has,
  some_inj, none≢some, OnSome, OnSome-map_option, OnSome-some,
}
use pyretic.Match.{is_none}
use pyretic.Install.{filter}
use pyretic.Install.Concrete.{Dict}
use pyretic.Counting.{
  RuleEntry, rule_entry, rule_entry_eq, MatchStatus, Matches, get_status, delete_entry, mark_entry,
  Counts, no_counts, ◌⊕◌, CountBucket, FlowStat, new_count_bucket,
}
use pyretic.Counting.Operations.{
  packet_eq, remove_switch, stat_entry, add_match, delete_match, collect_packet, apply,
  start_update, finish_update, add_pull_stats, add_pull_existing_stats, pull_stats,
  handle_flow_removed, handle_flow_stats_reply, add_queries, add_outstanding_switch_query,
  pull_switches_for_preds, pull_helper, call_callbacks, pull_existing_stats, report_counts,
  removed_entry, after_pull, increment_max_num_callbacks, clear_transient_counters, counted,
  count_stats, call_left, count_packets, switches_of, is_empty_list, is_none_status,
}
use pyretic.Counting.Steps.{
  Step, count, adding, deleting, collecting, applying, starting, setting, setting_existing,
  finishing, removing, pulling, replying, Run, created, then_,
}

-- No entry is marked as a rule from before the bucket.
abbrev pub NoExisting : Matches → Type 0
NoExisting = All (λ e. e.1.existing_rule ≡ false)

-- After `n` pulls: each call of the callbacks has used up one, the persistent counts are those of
-- the packets that the controller saw and of the removed rules, and no entry is an existing rule.
pub record IsValid (n : ℕ) (b : CountBucket) : Type 0 where
  pub paced : b.max_num_callbacks + length b.delivered ≡ n
  pub packets_counted :
      b.persistent.packets ≡ b.persistent_apply.packets + b.persistent_removed.packets
  pub bytes_counted : b.persistent.bytes ≡ b.persistent_apply.bytes + b.persistent_removed.bytes
  pub no_existing : NoExisting b.matches

NoExisting-delete_entry :
    (k : RuleEntry) (ms : Matches) → NoExisting ms → NoExisting (delete_entry k ms)
unfolding delete_entry
NoExisting-delete_entry k [] h = tt
NoExisting-delete_entry k (e ∷ es) (h, hs) = elim (Bool-cases (rule_entry_eq k e.0)) [
  | inl c ↦ rw c (NoExisting-delete_entry k es hs)
  | inr c ↦ rw c (h, NoExisting-delete_entry k es hs)
]

NoExisting-mark_entry :
    (k : RuleEntry) (ms : Matches) → NoExisting ms → NoExisting (mark_entry k ms)
unfolding mark_entry
NoExisting-mark_entry k [] h = tt
NoExisting-mark_entry k (e ∷ es) (h, hs) = elim (Bool-cases (rule_entry_eq k e.0)) [
  | inl c ↦ rw c (h, NoExisting-mark_entry k es hs)
  | inr c ↦ rw c (h, NoExisting-mark_entry k es hs)
]

module _ {n : ℕ} where
  call_left-IsValid :
      (m : ℕ) (args : Counts) (b : CountBucket)
      → b.max_num_callbacks ≡ m
      → IsValid n b
      → IsValid n (call_left m args b)
  call_left-IsValid zero args b e v = v
  call_left-IsValid (suc m) args b e v = ground (arith, v, e)

  call_callbacks-IsValid :
      (args : Counts) (b : CountBucket) → IsValid n b → IsValid n (call_callbacks args b)
  unfolding call_callbacks
  call_callbacks-IsValid args b v = call_left-IsValid b.max_num_callbacks args b refl v

  add_queries-IsValid : (ss : List ℕ) (b : CountBucket) → IsValid n b → IsValid n (add_queries ss b)
  unfolding add_queries add_outstanding_switch_query
  add_queries-IsValid [] b v = v
  add_queries-IsValid (s ∷ ss) b v =
      add_queries-IsValid ss (add_outstanding_switch_query s b) (record {
        paced = v.paced;
        packets_counted = v.packets_counted;
        bytes_counted = v.bytes_counted;
        no_existing = v.no_existing;
      })

  start_update-IsValid : (b : CountBucket) → IsValid n b → IsValid n (start_update b)
  unfolding start_update clear_transient_counters
  start_update-IsValid b v = ground (arith, v)

  add_match-IsValid :
      (m : Dict) (p : ℤ) (w : ℕ) (b : CountBucket) → IsValid n b → IsValid n (add_match m p w b)
  unfolding add_match
  add_match-IsValid m p w b v =
      elim (Bool-cases (is_none_status (get_status (rule_entry m p w) b.matches))) [
        | inl e ↦ rw e (ground (arith, v))
        | inr e ↦ rw e v
      ]

  delete_match-IsValid :
      (m : Dict) (p : ℤ) (w : ℕ) (now : Bool) (b : CountBucket)
      → IsValid n b
      → IsValid n (delete_match m p w now b)
  unfolding delete_match
  delete_match-IsValid m p w true b v =
      ground (arith, v, NoExisting-delete_entry (rule_entry m p w) b.matches v.no_existing)
  delete_match-IsValid m p w false b v =
      ground (arith, v, NoExisting-mark_entry (rule_entry m p w) b.matches v.no_existing)

  apply-IsValid : (b : CountBucket) → IsValid n b → OnSome (IsValid n) (apply b)
  unfolding apply
  apply-IsValid b v =
      OnSome-map_option (IsValid n) _ (count_packets b.bucket) (λ c e. ground (arith, v))

  pull_helper-IsValid :
      (fun : Bool) (up : List ℕ) (ms : Matches) (b : CountBucket)
      → IsValid n b
      → IsValid n (pull_helper fun up ms b).1
  unfolding pull_helper pull_switches_for_preds
  pull_helper-IsValid false up ms b v = v
  pull_helper-IsValid true up ms b v =
      let ss = switches_of up (map (λ e. e.0.switch) ms) [] in
      let c = record b { outstanding_switches = [] } in
      let w : IsValid n c = ground (arith, v) in
      elim (Bool-cases (is_empty_list ss)) [
        | inl e ↦ rw e w
        | inr e ↦ rw e (add_queries-IsValid ss c w)
      ]

  pull_existing_stats-IsValid :
      (up : List ℕ) (b : CountBucket) → IsValid n b → IsValid n (pull_existing_stats up b)
  unfolding pull_existing_stats
  pull_existing_stats-IsValid up b v =
      pull_helper-IsValid b.runtime_existing_stats_query_fun up
        (filter (λ e. e.1.existing_rule) b.matches) b v

  finish_update-IsValid :
      (up : List ℕ) (b : CountBucket) → IsValid n b → IsValid n (finish_update up b)
  unfolding finish_update
  finish_update-IsValid up b v =
      let c = record b { in_update = false } in
      let w : IsValid n c = ground (arith, v) in
      elim (Bool-cases b.new_bucket) [
        | inl e ↦ rw e (ground (arith, pull_existing_stats-IsValid up c w))
        | inr e ↦ rw e (ground (arith, v))
      ]

  report_counts-IsValid : (b : CountBucket) → IsValid n b → IsValid n (report_counts b)
  unfolding call_callbacks
  report_counts-IsValid b v =
      let w = call_callbacks-IsValid (b.table ⊕ b.persistent) b v in
      elim (Bool-cases (is_empty_list b.outstanding_switches)) [
        | inl e ↦ rw e (ground (arith, w))
        | inr e ↦ rw e v
      ]

  handle_flow_stats_reply-IsValid :
      (s : ℕ) (stats : List FlowStat) (b : CountBucket)
      → IsValid n b
      → OnSome (IsValid n) (handle_flow_stats_reply s stats b)
  unfolding handle_flow_stats_reply
  handle_flow_stats_reply-IsValid s stats b v = elim (Bool-cases (has s b.outstanding_switches)) [
    | inl e ↦ rw e (
        OnSome-map_option (IsValid n) _ (count_stats b.matches s stats) (λ c k.
          report_counts-IsValid
            (record b {
              table = b.table ⊕ c;
              outstanding_switches = remove_switch s b.outstanding_switches;
            })
            (ground (arith, v))))
    | inr e ↦ rw e (report_counts-IsValid b v)
  ]

  removed_entry-IsValid :
      (k : RuleEntry) (c : Counts) (o : Option MatchStatus) (b : CountBucket)
      → IsValid n b
      → OnSome (IsValid n) (removed_entry k c o b)
  removed_entry-IsValid k c none b v = v
  removed_entry-IsValid k c (some status) b v =
      let ms = NoExisting-delete_entry k b.matches v.no_existing in
      elim (Bool-cases status.to_be_deleted) [
        | inl e ↦ rw e (elim (Bool-cases status.existing_rule) [
          | inl f ↦ rw f (ground (arith, v, ms))
          | inr f ↦ rw f (ground (arith, v, ms))
        ])
        | inr e ↦ rw e tt
      ]

after_pull-IsValid : {n : ℕ} (r : Bool) (b : CountBucket) → IsValid n b → IsValid n (after_pull r b)
after_pull-IsValid true b v = v
after_pull-IsValid false b v =
    call_callbacks-IsValid b.persistent (record b { table = no_counts }) (ground (arith, v))

pull_stats-IsValid :
    {n : ℕ} (up : List ℕ) (b : CountBucket) → IsValid n b → IsValid (suc n) (pull_stats up b)
unfolding pull_stats increment_max_num_callbacks
pull_stats-IsValid up b v =
    let r = pull_helper b.runtime_stats_query_fun up b.matches b in
    let w = pull_helper-IsValid b.runtime_stats_query_fun up b.matches b v in
    after_pull-IsValid r.0 (record r.1 { max_num_callbacks = suc r.1.max_num_callbacks })
      (ground (arith, w))

Step-IsValid :
    {n : ℕ} {pull : Bool} {b c : CountBucket}
    → Step pull b c
    → IsValid n b
    → IsValid (count pull n) c
unfolding collect_packet add_pull_stats add_pull_existing_stats handle_flow_removed
Step-IsValid (adding m p w b) v = add_match-IsValid m p w b v
Step-IsValid (deleting m p w now b) v = delete_match-IsValid m p w now b v
Step-IsValid (collecting pkt b) v = elim (Bool-cases (any (λ q. packet_eq pkt q) b.bucket)) [
  | inl e ↦ rw e v
  | inr e ↦ rw e (ground (arith, v))
]
Step-IsValid {n} (applying b c e) v = OnSome-some (IsValid n) (apply b) (apply-IsValid b v) e
Step-IsValid (starting b) v = start_update-IsValid b v
Step-IsValid (setting b) v = ground (arith, v)
Step-IsValid (setting_existing b) v = ground (arith, v)
Step-IsValid (finishing up b) v = finish_update-IsValid up b v
Step-IsValid {n} (removing m p w d b c q e) v =
    OnSome-some (IsValid n) (handle_flow_removed m p w d b)
      (removed_entry-IsValid (rule_entry m p w) d (get_status (rule_entry m p w) b.matches) b v) e
Step-IsValid (pulling up b q) v = pull_stats-IsValid up b v
Step-IsValid {n} (replying s stats b c q e) v =
    OnSome-some (IsValid n) (handle_flow_stats_reply s stats b)
      (handle_flow_stats_reply-IsValid s stats b v) e

-- Whatever calls a bucket gets, after n pulls of the application the callbacks that are still
-- allowed and the calls made add up to n, the persistent counts are the sum of those from packets
-- at the controller and those from removed rules, and no entry is marked as an existing rule.
pub Run-IsValid : {n : ℕ} {b : CountBucket} → Run n b → IsValid n b
unfolding new_count_bucket
Run-IsValid created = ground arith
Run-IsValid (then_ r s) = Step-IsValid s (Run-IsValid r)

status_NoExisting :
    (k : RuleEntry) (ms : Matches) {status : MatchStatus}
    → NoExisting ms
    → get_status k ms ≡ some status
    → status.existing_rule ≡ false
unfolding get_status
status_NoExisting k [] h e = absurd (none≢some e)
status_NoExisting k (m ∷ ms) {status} (h, hs) e = elim (Bool-cases (rule_entry_eq k m.0)) [
  | inl c ↦ sym (ap (λ o. o.existing_rule) (some_inj (rw c at e))) ∙ h
  | inr c ↦ status_NoExisting k ms hs (rw c at e)
]

counted_error :
    (c : Counts) (m : Option Dict) (o : Option MatchStatus)
    → ((status : MatchStatus) → o ≡ some status → status.existing_rule ≡ false)
    → is_none (counted c m o) ≡ is_none m
counted_error c none o h = refl
counted_error c (some m) none h = refl
counted_error c (some m) (some status) h = rw (h status refl) refl

is_none-bind :
    {A B : Type 0} (o : Option A) (f : A → Option B) (p : Option B)
    → ((a : A) → is_none (f a) ≡ is_none p)
    → is_none (bind o f) ≡ (is_none o || is_none p)
is_none-bind none f p h = refl
is_none-bind (some a) f p h = h a

is_none-map_option :
    {A B : Type 0} (f : A → B) (o : Option A) → is_none (map_option f o) ≡ is_none o
is_none-map_option f none = refl
is_none-map_option f (some a) = refl

count_stats-error :
    (ms : Matches) (s : ℕ) (stats : List FlowStat)
    → NoExisting ms
    → is_none (count_stats ms s stats) ≡ any (λ f. is_none f.mat) stats
unfolding count_stats
count_stats-error ms s [] h = refl
count_stats-error ms s (f ∷ fs) h =
    let o = get_status (stat_entry s f) ms in
    is_none-bind (counted f.counts f.mat o) _ (count_stats ms s fs)
      (λ c. is_none-map_option (λ d. c ⊕ d) (count_stats ms s fs))
    ∙ rw
        (
          counted_error f.counts f.mat o (λ status. status_NoExisting (stat_entry s f) ms h),
          count_stats-error ms s fs h,
        )
        refl

-- In every state that a bucket can reach, a reply raises an error just when the switch is
-- outstanding and one of the flows that it reports has no match.
pub handle_flow_stats_reply-error :
    {n : ℕ} {b : CountBucket} (s : ℕ) (stats : List FlowStat)
    → Run n b
    → is_none (handle_flow_stats_reply s stats b)
      ≡ (has s b.outstanding_switches && any (λ f. is_none f.mat) stats)
unfolding handle_flow_stats_reply
handle_flow_stats_reply-error {b = b} s stats r = elim (Bool-cases (has s b.outstanding_switches)) [
  | inl e ↦ rw e (
      is_none-map_option _ (count_stats b.matches s stats)
      ∙ count_stats-error b.matches s stats (Run-IsValid r).no_existing)
  | inr e ↦ rw e refl
]
