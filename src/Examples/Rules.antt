-- ===== src/Examples/Rules.antt =====
-- The theorems on the rules installed, for rules on switch 1.
use pyretic.Base.{
  not, any, ◌&&◌, ◌||◌, ℕ, Bool, true, false, Option, none, some, List, [], ◌∷◌, ◌≡◌, refl, All,
  inl, In, map_option, pos, int_lt, int_eq, Distinct, find,
}
use pyretic.Packet.{
  Packet, Field, ip, dstip, header, switch, port, ethtype, dstport, Value, num, option_eq,
  option_eq_iff, value_eq, all_fields,
}
use pyretic.Match.{Pred, MatchMap, is_none}
use pyretic.Action.{Action, count_bucket, path_bucket, modify_eq}
use pyretic.Policy.{port_map}
use pyretic.Classifier.{Classifier, lookup}
use pyretic.Install.{ip_type, switchify, prepare}
use pyretic.Install.Prepare.{prepared, lookup-install}
use pyretic.Install.Concrete.{
  Dict, ConcreteAction, dict, object, ConcreteRule, check_of_rule, sort_by_length, insert_by_length,
  has_outport, has_compilable_action_list, growing,
}
use pyretic.Install.Rules.{
  ListedRule, table_start_priority, is_reserved, of_inportize, prioritize, list_rule,
}
use pyretic.Install.Checked.{Nested, check_of_rule-Nested}
use pyretic.Install.Inports.{Matching, first_match, sent_back, of_inportize-first_match}
use pyretic.Install.Priorities.{Falling, prioritize-Falling}
use pyretic.Install.Diff.{same_rule, listed_same, find_same_rule, get_incremental_diff}
use pyretic.Install.Messages.{proactive1, is_nuclear, install_rules}
use pyretic.Counting.{new_count_bucket}
use pyretic.Install.Bookkeeping.{Books}
use pyretic.Install.Bookkeeping.Steps.{flags}
use pyretic.Install.Messages.Failure.{blocked, install_rules-error}
use pyretic.Install.Diff.Refines.{Agree, get_incremental_diff-Agree}
use pyretic.Examples.Sample.{prefixes, private_network}

abbrev to_private_network : MatchMap
to_private_network (ip dstip) = some private_network
to_private_network _ = none

-- match(dstip=10.0.0.0/8): counted and sent to port 2; anything else into a path bucket
abbrev counting : Classifier
counting =
    record {
      mat = Pred.match to_private_network;
      actions = Action.query (count_bucket 1) ∷ Action.modify (port_map 2) ∷ [];
    }
    ∷ record { mat = Pred.identity; actions = Action.query (path_bucket 3) ∷ Action.identity ∷ [] }
    ∷ []

abbrev fields : Field → Option Value
fields (header switch) = some (num 1)
fields (header port) = some (num 2)
fields (header ethtype) = some (num ip_type)
fields (ip dstip) = some (num 167837701)
fields _ = none

abbrev frame : Packet
frame = record { header = fields }

lookup-install_example :
    lookup (switchify (prepare false counting) (1 ∷ 2 ∷ [])) frame
    ≡ map_option (prepared false) (lookup counting frame)
lookup-install_example =
    lookup-install false counting (λ t. refl, (tt, tt)) (1 ∷ 2 ∷ []) 1 frame (inl refl) refl refl

-- Switch 1, to port 2 and counted
abbrev on_switch : Dict
on_switch (header switch) = some (some (num 1))
on_switch _ = none

abbrev web_to_2 : Dict
web_to_2 (header port) = some (some (num 2))
web_to_2 (header dstport) = some (some (num 80))
web_to_2 _ = none

abbrev two_ways : ConcreteRule
two_ways = record {
  mat = on_switch;
  actions = dict web_to_2 ∷ object (Action.query (count_bucket 1)) ∷ dict (port_map 3) ∷ [];
}

abbrev two_ways_checked : ConcreteRule
two_ways_checked = record {
  mat = on_switch;
  actions = dict (port_map 3) ∷ dict web_to_2 ∷ object (Action.query (count_bucket 1)) ∷ [];
}

check_of_rule-Nested_example :
    (two_ways_checked.mat ≡ two_ways.mat)
    × Nested two_ways_checked.actions
    × ((a : ConcreteAction) → In a two_ways.actions → In a two_ways_checked.actions)
unfolding check_of_rule sort_by_length insert_by_length has_outport has_compilable_action_list
    growing all_fields
check_of_rule-Nested_example = check_of_rule-Nested two_ways two_ways_checked refl

-- A switch that only looks at the in-port, where the packet is the number of the port.
abbrev port_test : Option (Option Value) → ℕ → Bool
port_test none p = true
port_test (some v) p = option_eq (some (num p)) v

abbrev by_port : Matching ℕ
by_port = record {
  admits = λ d p. port_test (d (header port)) p;
  in_port = λ p. some (num p);
  admits-set_port = λ d p pkt e. rw e refl;
  admits_port = λ d p pkt e h.
      let test : port_test (d (header port)) pkt ≡ true = h in
      (option_eq_iff (some (num pkt)) p).0 (rw e at test);
}

of_inportize-first_match_example :
    (out : List ConcreteRule) × (of_inportize (two_ways ∷ []) ≡ some out)
    × ((pkt : ℕ)
        → is_reserved (some (num pkt)) ≡ false
        → first_match by_port out pkt
          ≡ map_option (sent_back by_port pkt) (first_match by_port (two_ways ∷ []) pkt))
of_inportize-first_match_example =
    of_inportize-first_match by_port (two_ways ∷ []) ((refl, (refl, (refl, (refl, tt)))), tt)

prioritize-Falling_example :
    (out : List ListedRule) × (prioritize (two_ways ∷ two_ways_checked ∷ []) ≡ some out)
    × Falling out
    × All (λ r. int_lt (pos table_start_priority) r.priority ≡ false) out
    × Distinct out
prioritize-Falling_example =
    prioritize-Falling (two_ways ∷ two_ways_checked ∷ []) (refl, (refl, tt))

-- One rule, and afterwards another action for it and a second rule
abbrev olds : List ListedRule
olds = list_rule two_ways (pos 60000) ∷ []

abbrev news : List ListedRule
news =
    list_rule (record { mat = on_switch; actions = dict (port_map 4) ∷ [] }) (pos 60000)
    ∷ list_rule two_ways (pos 59999)
    ∷ []

news-Distinct : Distinct news
unfolding find int_eq same_rule modify_eq all_fields option_eq value_eq
news-Distinct = (refl, (refl, tt))

get_incremental_diff-Agree_example :
    Distinct (get_incremental_diff olds news).1
    × ((t : ListedRule)
        → Agree (find_same_rule t (get_incremental_diff olds news).1) (find_same_rule t news))
unfolding find
get_incremental_diff-Agree_example = get_incremental_diff-Agree olds news (refl, tt) news-Distinct

-- The second rule is no longer there, and bucket 1 is new.
abbrev books : Books
books = record { buckets = λ n. new_count_bucket; outstanding_deletes = [] }

install_rules-error_example :
    is_none (install_rules proactive1 0 2 0 (1 ∷ []) false books news olds).0 ≡ (
      not (is_nuclear proactive1)
      && (any (λ r. blocked (flags books.buckets) r (find_same_rule r olds)) news
          || any (λ r. is_none (find_same_rule r olds)) news))
install_rules-error_example =
    install_rules-error proactive1 0 2 0 (1 ∷ []) false books news olds (refl, (refl, tt))
      (refl, tt) news-Distinct
