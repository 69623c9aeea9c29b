-- ===== src/Examples/Learner.antt =====
-- The theorem on the MAC learner, at two hosts on one switch.
use pyretic.Base.{ℕ, Option, none, some, List, [], ◌∷◌, ◌++◌, ◌≡◌, refl}
use pyretic.Packet.{
  Field, header, srcmac, dstmac, switch, port, Value, num, Packet, option_eq, value_eq,
}
use pyretic.Action.{fwd_bucket}
use pyretic.Policy.{drop, query, eval}
use pyretic.MacLearner.{MacLearner, set_initial_state, learn_all}
use pyretic.MacLearner.Forward.{HasSource, routed, last_seen, learn_all-eval}
use pyretic.Examples.Sample.{prefixes}

-- From host `src` to host `dst`, at port `inport` of switch 1
abbrev between : ℕ → ℕ → ℕ → Field → Option Value
between src dst inport (header srcmac) = some (num src)
between src dst inport (header dstmac) = some (num dst)
between src dst inport (header switch) = some (num 1)
between src dst inport (header port) = some (num inport)
between src dst inport _ = none

abbrev sent : ℕ → ℕ → ℕ → Packet
sent src dst inport = record { header = between src dst inport }

-- Host 5 is at port 3 first, and then at port 4.
abbrev sightings : List Packet
sightings = sent 5 6 3 ∷ sent 6 5 2 ∷ sent 5 7 4 ∷ []

source : (src dst inport : ℕ) → HasSource (sent src dst inport)
source src dst inport = record {
  mac = num src;
  place = num 1;
  inport = inport;
  is_mac = refl;
  is_place = refl;
  is_inport = refl;
}

last_seen_run : last_seen (sent 6 5 2) sightings none ≡ some 4
unfolding option_eq value_eq
last_seen_run = refl

learn_all-eval_example :
    (l : MacLearner) × (learn_all sightings (set_initial_state drop (query (fwd_bucket 1)))
      ≡ some l)
    × (eval l.policy (sent 6 5 2)
        ≡ routed drop (sent 6 5 2) (last_seen (sent 6 5 2) sightings none)
          ++ eval (query (fwd_bucket 1)) (sent 6 5 2))
learn_all-eval_example =
    learn_all-eval drop (query (fwd_bucket 1)) sightings (sent 6 5 2)
      (source 5 6 3, (source 6 5 2, (source 5 7 4, tt)))
