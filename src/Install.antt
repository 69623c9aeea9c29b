-- ===== src/Install.antt =====
-- core/runtime.py, install_classifier: the rewriting of a classifier before it becomes OpenFlow rules.
pub mod Prepare
pub mod Concrete
pub mod Rules
pub mod Checked
pub mod Inports
pub mod Priorities
pub mod Diff
pub mod Bookkeeping
pub mod Messages
use pyretic.Base.{
  ℕ, ◌==◌, Bool, true, false, ◌&&◌, ◌||◌, not, Option, none, some, List, [], ◌∷◌, ◌++◌, map, any,
  if◌then◌else◌,
}
use pyretic.Packet.{Field, ip, srcip, dstip, header, switch, port, ethtype, Value, num, ModifyMap}
use pyretic.Ipaddr.{Ipaddr}
use pyretic.Match.{MatchMap, PatternOf, Pred, identity, drop, match, is_none, intersect}
use pyretic.Action.{Action, Bucket, path_bucket, count_bucket, netflow_bucket}
use pyretic.Classifier.{Rule, Classifier}

-- core/network.py
abbrev pub ip_type : ℕ
ip_type = 0x800

abbrev pub arp_type : ℕ
arp_type = 0x806

-- filter
abbrev pub filter {ℓ} : {A : Type ℓ} → (A → Bool) → List A → List A
filter p [] = []
filter p (x ∷ xs) = if p x then x ∷ filter p xs else filter p xs

abbrev pub is_controller : Action → Bool
is_controller Action.controller = true
is_controller _ = false

-- a != identity
abbrev pub not_identity : Action → Bool
not_identity Action.identity = false
not_identity _ = true

-- the action that remove_path_buckets puts in its place
abbrev pub without_path_bucket : Action → Action
without_path_bucket (Action.query (path_bucket n)) = Action.controller
without_path_bucket a = a

-- the actions of controllerify_rule
abbrev pub controller_only : List Action → List Action
controller_only acts = if any is_controller acts then Action.controller ∷ [] else acts

module _ ⦃i : Ipaddr⦄ where
  -- Rule(rule.match, f(rule.actions))
  abbrev pub map_actions : (List Action → List Action) → Rule → Rule
  map_actions f r = record { mat = r.mat; actions = f r.actions }

  -- `use_nx` is that the switches have several tables.
  unfoldable pub remove_identity : Bool → Classifier → Classifier
  remove_identity use_nx c = if use_nx then c else map (map_actions (filter not_identity)) c

  -- remove_path_buckets, but for the functions that it gives to the buckets
  unfoldable pub remove_path_buckets : Classifier → Classifier
  remove_path_buckets c = map (map_actions (map without_path_bucket)) c

  unfoldable pub controllerify : Classifier → Classifier
  controllerify c = map (map_actions controller_only) c

  -- match(ethtype=n) and match(switch=s)
  abbrev pub ethtype_match : ℕ → MatchMap
  ethtype_match n (header ethtype) = some (some (num n))
  ethtype_match n _ = none

  abbrev pub switch_match : ℕ → MatchMap
  switch_match s (header switch) = some (some (num s))
  switch_match s _ = none

  -- Does the rule match on IP addresses and not on ethtype?
  abbrev pub is_layer_3 : Pred → Bool
  is_layer_3 (match m) =
      (not (is_none (m (ip srcip))) || not (is_none (m (ip dstip)))) && is_none (m (header ethtype))
  is_layer_3 _ = false

  abbrev pub with_match : Rule → MatchMap → Rule
  with_match r m = record { mat = intersect r.mat (match m); actions = r.actions }

  -- Its flag arp_bug is never set, so both rules keep the actions.
  unfoldable pub layer_3_specialize : Classifier → Classifier
  layer_3_specialize [] = []
  layer_3_specialize (r ∷ c) =
      (if is_layer_3 r.mat
        then with_match r (ethtype_match ip_type) ∷ with_match r (ethtype_match arp_type) ∷ []
        else r ∷ [])
      ++ layer_3_specialize c

  -- rule.match.map['switch'], for a match that has it
  abbrev pub switch_entry : Pred → Option (Option Value)
  switch_entry (match m) = m (header switch)
  switch_entry _ = none

  -- v in switches
  abbrev pub in_switches : Option Value → List ℕ → Bool
  in_switches (some (num s)) switches = any (λ t. s == t) switches
  in_switches _ switches = false

  abbrev pub switchify_at : Option (Option Value) → Rule → List ℕ → Classifier
  switchify_at none r switches = map (λ s. with_match r (switch_match s)) switches
  switchify_at (some v) r switches = if in_switches v switches then r ∷ [] else []

  unfoldable pub switchify_rule : Rule → List ℕ → Classifier
  switchify_rule r switches = switchify_at (switch_entry r.mat) r switches

  unfoldable pub switchify : Classifier → List ℕ → Classifier
  unfolding switchify_rule
  switchify [] switches = []
  switchify (r ∷ c) switches = switchify_rule r switches ++ switchify c switches

  -- The steps of install_classifier before get_new_rules.
  unfoldable pub prepare : Bool → Classifier → Classifier
  unfolding remove_identity remove_path_buckets controllerify layer_3_specialize
  prepare use_nx c =
      layer_3_specialize (controllerify (remove_path_buckets (remove_identity use_nx c)))
