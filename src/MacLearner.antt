-- ===== src/MacLearner.antt =====
-- modules/mac_learner.py: the policy of the MAC learner, and what it learns from a packet.
pub mod Forward
use pyretic.Base.{ℕ, Option, none, some, List, [], ◌∷◌, bind, map_option}
use pyretic.Packet.{Field, header, srcmac, dstmac, switch, port, Value, num, Packet}
use pyretic.Ipaddr.{Ipaddr}
use pyretic.Match.{MatchMap}
use pyretic.Policy.{Policy, match, fwd, if_policy, policy_add}

-- pkt['port'], a number; `none` is a KeyError
abbrev pub number : Option Value → Option ℕ
number (some (num n)) = some n
number _ = none

module _ ⦃i : Ipaddr⦄ where
  pub record MacLearner : Type 0 where
    pub query : Policy
    pub forward : Policy
    pub policy : Policy

  -- match(dstmac=mac, switch=s)
  abbrev pub match_host : Value → Value → MatchMap
  match_host mac s (header dstmac) = some (some mac)
  match_host mac s (header switch) = some (some s)
  match_host mac s _ = none

  unfoldable pub update_policy : MacLearner → MacLearner
  unfolding policy_add
  update_policy l = record l { policy = policy_add l.forward l.query }

  -- `flood` and packets(1, ['srcmac', 'switch']) are the arguments.
  unfoldable pub set_initial_state : Policy → Policy → MacLearner
  unfolding update_policy
  set_initial_state flood packets =
      update_policy (record { query = packets; forward = flood; policy = flood })

  abbrev pub learned : MacLearner → Value → Value → ℕ → Policy
  learned l mac s outport = if_policy (match (match_host mac s)) (fwd outport) l.forward

  -- learn_new_MAC; `none` is a KeyError
  unfoldable pub learn_new_mac : Packet → MacLearner → Option MacLearner
  unfolding update_policy
  learn_new_mac pkt l = bind (pkt.header (header srcmac)) (λ mac.
      bind (pkt.header (header switch)) (λ s.
        map_option (λ outport. update_policy (record l { forward = learned l mac s outport }))
          (number (pkt.header (header port)))))

  -- The packets that the query has reported, one after another.
  unfoldable pub learn_all : List Packet → MacLearner → Option MacLearner
  unfolding learn_new_mac
  learn_all [] l = some l
  learn_all (pkt ∷ pkts) l = bind (learn_new_mac pkt l) (learn_all pkts)
