-- ===== src/Counting/Answered.antt =====
-- CountBucket: a pull whose switches all reply calls the callbacks once, with the sum.
use pyretic.Base.{
  subst, ℕ, suc, Bool, true, false, ◌&&◌, Option, some, List, [], ◌∷◌, map, ◌≡◌, refl, sym, ◌∙◌, ap,
  arith, inl, inr, Option-cases, bind, map_option, has, some_inj, none≢some, and-true, true≢false,
  not, ◌||◌, ◌==◌, false, none, All, Bool-cases, OnSome, int_eq, if◌then◌else◌,
}
use pyretic.Packet.{num}
use pyretic.Match.{is_none}
use pyretic.Action.{entry_eq}
use pyretic.Install.Concrete.{Dict}
use pyretic.Counting.{
  MatchStatus, get_status, rule_entry_eq, Matches, Counts, no_counts, ◌⊕◌, CountBucket, FlowStat,
}
use pyretic.Counting.Operations.{
  pull_stats, handle_flow_stats_reply, add_queries, add_switch, add_outstanding_switch_query,
  pull_switches_for_preds, pull_helper, call_callbacks, report_counts, after_pull,
  increment_max_num_callbacks, count_stats, switches_of, remove_switch, is_empty_list, stat_entry,
  counted,
}

-- A reply: the switch and its flows.
abbrev pub Reply : Type 0
Reply = ℕ × List FlowStat

-- The bucket after the replies, one after the other.
unfoldable pub handle_replies : List Reply → CountBucket → Option CountBucket
handle_replies [] b = some b
handle_replies (r ∷ rs) b = bind (handle_flow_stats_reply r.0 r.1 b) (handle_replies rs)

-- Do the replies come from the outstanding switches, one from each?
unfoldable pub answers : List Reply → List ℕ → Bool
answers [] ss = is_empty_list ss
answers (r ∷ rs) ss = has r.0 ss && answers rs (remove_switch r.0 ss)

-- The bucket has a rule of this switch with the flow's priority, whose version is its cookie.
abbrev pub is_counted : ℕ → FlowStat → Matches → Bool
is_counted s f [] = false
is_counted s f (e ∷ es) =
    (entry_eq (some (some (num s))) e.0.switch
      && (int_eq f.priority e.0.priority && f.cookie == e.0.version))
    || is_counted s f es

-- The counts of a reply's flows, for the rules of the bucket only.
abbrev pub sum_of_flows : Matches → ℕ → List FlowStat → Counts
sum_of_flows ms s [] = no_counts
sum_of_flows ms s (f ∷ fs) =
    (if is_counted s f ms then f.counts else no_counts) ⊕ sum_of_flows ms s fs

-- What the replies add up to.
abbrev pub sum_of_replies : Matches → List Reply → Counts
sum_of_replies ms [] = no_counts
sum_of_replies ms (r ∷ rs) = sum_of_flows ms r.0 r.1 ⊕ sum_of_replies ms rs

-- No entry is marked as one of an existing rule, and every flow of a reply has a match.
abbrev pub NoneExisting : Matches → Type 0
NoneExisting ms = All (λ e. e.1.existing_rule ≡ false) ms

abbrev pub AllMatched : Reply → Type 0
AllMatched r = All (λ f. is_none f.mat ≡ false) r.1

get_status-is_counted :
    (s : ℕ) (f : FlowStat) (ms : Matches)
    → NoneExisting ms
    → OnSome (λ status. status.existing_rule ≡ false) (get_status (stat_entry s f) ms)
      × (is_none (get_status (stat_entry s f) ms) ≡ not (is_counted s f ms))
unfolding get_status rule_entry_eq
get_status-is_counted s f [] h = (tt, refl)
get_status-is_counted s f (e ∷ es) (h, hs) =
    elim (Bool-cases (rule_entry_eq (stat_entry s f) e.0)) [
      | inl here ↦ rw here (h, refl)
      | inr other ↦ rw other (get_status-is_counted s f es hs)
    ]

counted_flow :
    (c : Counts) (m : Option Dict) (status : Option MatchStatus) (b : Bool)
    → is_none m ≡ false
    → OnSome (λ st. st.existing_rule ≡ false) status
    → is_none status ≡ not b
    → counted c m status ≡ some (if b then c else no_counts)
counted_flow c none status b h k e = absurd (true≢false h)
counted_flow c (some m) none true h k e = absurd (true≢false e)
counted_flow c (some m) none false h k e = refl
counted_flow c (some m) (some st) true h k e = rw k refl
counted_flow c (some m) (some st) false h k e = absurd (true≢false (sym e))

count_stats-sum_of_flows :
    (ms : Matches) (s : ℕ) (fs : List FlowStat)
    → NoneExisting ms
    → All (λ f. is_none f.mat ≡ false) fs
    → count_stats ms s fs ≡ some (sum_of_flows ms s fs)
unfolding count_stats
count_stats-sum_of_flows ms s [] h k = refl
count_stats-sum_of_flows ms s (f ∷ fs) h (k, ks) =
    let (fresh, present) = get_status-is_counted s f ms h in
    rw
      (
        counted_flow f.counts f.mat (get_status (stat_entry s f) ms) (is_counted s f ms) k fresh
            present,
        count_stats-sum_of_flows ms s fs h ks,
      )
      refl

-- The code's own sum of the replies.
unfoldable total_of : Matches → List Reply → Option Counts
total_of ms [] = some no_counts
total_of ms (r ∷ rs) = bind (count_stats ms r.0 r.1) (λ c. map_option (λ d. c ⊕ d) (total_of ms rs))

total_of-sum_of_replies :
    (ms : Matches) (rs : List Reply)
    → NoneExisting ms
    → All AllMatched rs
    → total_of ms rs ≡ some (sum_of_replies ms rs)
unfolding total_of
total_of-sum_of_replies ms [] h k = refl
total_of-sum_of_replies ms (r ∷ rs) h (k, ks) =
    rw (count_stats-sum_of_flows ms r.0 r.1 h k, total_of-sum_of_replies ms rs h ks) refl

⊕_assoc : (a b c : Counts) → (a ⊕ b) ⊕ c ≡ a ⊕ (b ⊕ c)
⊕_assoc a b c = ground arith

-- The callbacks called with these counts, and nothing outstanding.
record Reported (m : ℕ) (args : Counts) (before : List Counts) (result : Option CountBucket)
    : Type 0 where
  after : CountBucket
  is_result : result ≡ some after
  delivered_args : after.delivered ≡ args ∷ before
  one_less : after.max_num_callbacks ≡ m
  answered : after.outstanding_switches ≡ []

is_empty_list_eq : (ss : List ℕ) → is_empty_list ss ≡ true → ss ≡ []
is_empty_list_eq [] h = refl
is_empty_list_eq (s ∷ ss) h = absurd (true≢false (sym h))

has_not_empty : (s : ℕ) (ss : List ℕ) → has s ss ≡ true → is_empty_list ss ≡ false
has_not_empty s [] h = absurd (true≢false (sym h))
has_not_empty s (t ∷ ss) h = refl

-- The bucket with the counts of a reply, before it reports them.
abbrev with_reply : ℕ → Counts → CountBucket → CountBucket
with_reply s c b = record b {
  table = b.table ⊕ c;
  outstanding_switches = remove_switch s b.outstanding_switches;
}

reply_counts :
    (s : ℕ) (stats : List FlowStat) (b : CountBucket) {c : Counts}
    → has s b.outstanding_switches ≡ true
    → count_stats b.matches s stats ≡ some c
    → handle_flow_stats_reply s stats b ≡ some (report_counts (with_reply s c b))
unfolding handle_flow_stats_reply
reply_counts s stats b h e = rw (h, e) refl

report-Reported :
    (b : CountBucket) {m : ℕ}
    → is_empty_list b.outstanding_switches ≡ true
    → b.max_num_callbacks ≡ suc m
    → Reported m (b.table ⊕ b.persistent) b.delivered (some (report_counts b))
unfolding call_callbacks
report-Reported b h k = record {
  after = report_counts b;
  is_result = refl;
  delivered_args = rw (h, k) refl;
  one_less = rw (h, k) refl;
  answered = rw (h, k) (is_empty_list_eq b.outstanding_switches h);
}

-- The counts of the first reply, and of the others.
total_split :
    (ms : Matches) (r : Reply) (rs : List Reply) {c : Counts}
    → total_of ms (r ∷ rs) ≡ some c
    → (d e : Counts) × (count_stats ms r.0 r.1 ≡ some d) × (total_of ms rs ≡ some e) × (d ⊕ e ≡ c)
unfolding total_of
total_split ms r rs h = elim (Option-cases (count_stats ms r.0 r.1)) [
  | inl e ↦ absurd (none≢some (rw e at h))
  | inr (d, e) ↦ elim (Option-cases (total_of ms rs)) [
    | inl f ↦ absurd (none≢some (rw (e, f) at h))
    | inr (g, f) ↦ (d, g, e, f, some_inj (rw (e, f) at h))
  ]
]

total_single : (ms : Matches) {c d e : Counts} → total_of ms [] ≡ some e → d ⊕ e ≡ c → d ≡ c
unfolding total_of
total_single ms {c} {d} {e} h k =
    let zero_counts : d ≡ d ⊕ no_counts = ground arith in
    zero_counts ∙ ap (λ x. d ⊕ x) (some_inj h) ∙ k

handle_replies-Reported :
    (r : Reply) (rs : List Reply) (b : CountBucket) (c : Counts) {m : ℕ}
    → answers (r ∷ rs) b.outstanding_switches ≡ true
    → total_of b.matches (r ∷ rs) ≡ some c
    → b.max_num_callbacks ≡ suc m
    → Reported m ((b.table ⊕ c) ⊕ b.persistent) b.delivered (handle_replies (r ∷ rs) b)
unfolding handle_replies answers
handle_replies-Reported r [] b c {m} h t k =
    let (here, rest) =
      (and-true (has r.0 b.outstanding_switches)
          (is_empty_list (remove_switch r.0 b.outstanding_switches))).0
        h in
    let (d, e, counts, none_left, sum) = total_split b.matches r [] t in
    let b1 = with_reply r.0 d b in
    let d_is_c : d ≡ c = total_single b.matches none_left sum in
    rw (reply_counts r.0 r.1 b here counts) (
      subst (λ x. Reported m ((b.table ⊕ x) ⊕ b.persistent) b.delivered (some (report_counts b1)))
        d_is_c (report-Reported b1 rest k))
handle_replies-Reported r (q ∷ rs) b c {m} h t k =
    let (here, rest) =
      (and-true (has r.0 b.outstanding_switches)
          (answers (q ∷ rs) (remove_switch r.0 b.outstanding_switches))).0
        h in
    let (d, e, counts, others, sum) = total_split b.matches r (q ∷ rs) t in
    let b1 = with_reply r.0 d b in
    let more : is_empty_list b1.outstanding_switches ≡ false =
      has_not_empty q.0 b1.outstanding_switches
        ((and-true (has q.0 b1.outstanding_switches)
            (answers rs (remove_switch q.0 b1.outstanding_switches))).0
          rest).0 in
    let next = handle_replies-Reported q rs b1 e rest others k in
    let args : ((b.table ⊕ d) ⊕ e) ⊕ b.persistent ≡ (b.table ⊕ c) ⊕ b.persistent =
      ap (λ x. x ⊕ b.persistent) (⊕_assoc b.table d e ∙ ap (λ x. b.table ⊕ x) sum) in
    rw (reply_counts r.0 r.1 b here counts, more)
      (subst (λ x. Reported m x b.delivered (handle_replies (q ∷ rs) b1)) args next)

-- The outstanding switches after a pull.
abbrev add_switches : List ℕ → List ℕ → List ℕ
add_switches [] ss = ss
add_switches (t ∷ ts) ss = add_switches ts (add_switch t ss)

add_queries-add_switches :
    (ts : List ℕ) (b : CountBucket)
    → add_queries ts b ≡ record b {
      outstanding_switches = add_switches ts b.outstanding_switches;
      switches_in_query = add_switches ts b.switches_in_query;
    }
unfolding add_queries add_outstanding_switch_query
add_queries-add_switches [] b = refl
add_queries-add_switches (t ∷ ts) b = add_queries-add_switches ts (add_outstanding_switch_query t b)

-- The switches that a pull asks.
abbrev pulled : List ℕ → CountBucket → List ℕ
pulled up b = switches_of up (map (λ e. e.0.switch) b.matches) []

pull_helper_lem :
    (fun : Bool) (up : List ℕ) (b : CountBucket)
    → fun ≡ true
    → is_empty_list (pulled up b) ≡ false
    → pull_helper fun up b.matches b ≡ (
      true,
      record b {
        outstanding_switches = add_switches (pulled up b) [];
        switches_in_query = add_switches (pulled up b) b.switches_in_query;
      },
    )
unfolding pull_helper pull_switches_for_preds
pull_helper_lem false up b f e = absurd (true≢false (sym f))
pull_helper_lem true up b f e = rw e (
    ap (λ x. (true, x))
      (add_queries-add_switches (pulled up b) (record b { outstanding_switches = [] })))

pull_stats_lem :
    (up : List ℕ) (b : CountBucket)
    → b.runtime_stats_query_fun ≡ true
    → is_empty_list (pulled up b) ≡ false
    → pull_stats up b ≡ record b {
      outstanding_switches = add_switches (pulled up b) [];
      switches_in_query = add_switches (pulled up b) b.switches_in_query;
      max_num_callbacks = suc b.max_num_callbacks;
    }
unfolding pull_stats increment_max_num_callbacks
pull_stats_lem up b f e =
    ap (λ x. after_pull x.0 (record x.1 { max_num_callbacks = suc x.1.max_num_callbacks }))
      (pull_helper_lem b.runtime_stats_query_fun up b f e)

-- A pull that asks some switch, of a bucket that has its query function and no entry marked as one
-- of an existing rule, answered by one reply from each of the switches asked, in any order, where
-- each flow has a match, calls the callbacks once: with the sum of what the table's counts were, of
-- the counts of those flows that have the switch, the priority and the version of an entry of the
-- bucket, and of the persistent counts. Nothing is outstanding then.
pub pull_stats-answered :
    (up : List ℕ) (b : CountBucket) (r : Reply) (rs : List Reply)
    → b.runtime_stats_query_fun ≡ true
    → is_empty_list (pulled up b) ≡ false
    → answers (r ∷ rs) (pull_stats up b).outstanding_switches ≡ true
    → NoneExisting b.matches
    → All AllMatched (r ∷ rs)
    → (after : CountBucket) × (handle_replies (r ∷ rs) (pull_stats up b) ≡ some after)
      × (after.delivered
          ≡ ((b.table ⊕ sum_of_replies b.matches (r ∷ rs)) ⊕ b.persistent) ∷ b.delivered)
      × (after.max_num_callbacks ≡ b.max_num_callbacks)
      × (after.outstanding_switches ≡ [])
pull_stats-answered up b r rs f e h fresh matched =
    let same = pull_stats_lem up b f e in
    let asked = record b {
      outstanding_switches = add_switches (pulled up b) [];
      switches_in_query = add_switches (pulled up b) b.switches_in_query;
      max_num_callbacks = suc b.max_num_callbacks;
    } in
    let answered : answers (r ∷ rs) asked.outstanding_switches ≡ true =
      subst (λ x. answers (r ∷ rs) x.outstanding_switches ≡ true) same h in
    let result =
      handle_replies-Reported r rs asked (sum_of_replies b.matches (r ∷ rs)) answered
        (total_of-sum_of_replies b.matches (r ∷ rs) fresh matched) refl in
    (
      result.after,
      ap (handle_replies (r ∷ rs)) same ∙ result.is_result,
      result.delivered_args,
      result.one_less,
      result.answered,
    )
