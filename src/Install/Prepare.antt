-- ===== src/Install/Prepare.antt =====
-- core/runtime.py, install_classifier: what the rewriting does to the actions that a packet gets.
use pyretic.Base.{
  ℕ, ◌==◌, Bool, true, false, ◌&&◌, Option, none, some, List, [], ◌∷◌, map, any, ◌≡◌, refl, sym,
  ◌∙◌, ap, arith, ◌⊎◌, inl, inr, Bool-cases, Option-cases, if◌then◌else◌, map_option, map_option_id,
  true≢false,
}
use pyretic.Packet.{Packet, all_fields, header, switch, ethtype, Value, num, value_eq, value_eq_iff}
use pyretic.Ipaddr.{Ipaddr}
use pyretic.Match.{
  Pred, match, intersect, pred_eval, match_eval, accepts_at, accepts, accepts_value,
}
use pyretic.Match.Meaning.{match_eval_iff, UntaggedPred, Untagged}
use pyretic.Match.Intersect.{intersect-eval, intersect-UntaggedPred}
use pyretic.Action.{Action, count_bucket, path_bucket, netflow_bucket}
use pyretic.Classifier.{Rule, Classifier, lookup}
use pyretic.Classifier.Lookup.{UntaggedRules, lookup-append}
use pyretic.Install.{
  ip_type, arp_type, filter, not_identity, without_path_bucket, controller_only, map_actions,
  is_controller, remove_identity, remove_path_buckets, controllerify, ethtype_match, switch_match,
  is_layer_3, with_match, layer_3_specialize, switch_entry, switchify_rule, switchify, prepare,
}

-- Is one of the actions to the controller, or into a path bucket?
abbrev pub reaches_controller : List Action → Bool
reaches_controller [] = false
reaches_controller (Action.controller ∷ acts) = true
reaches_controller (Action.query (path_bucket n) ∷ acts) = true
reaches_controller (a ∷ acts) = reaches_controller acts

-- The actions that stay: with one table, all but identity.
abbrev pub kept_actions : Bool → List Action → List Action
kept_actions true acts = acts
kept_actions false [] = []
kept_actions false (Action.identity ∷ acts) = kept_actions false acts
kept_actions false (a ∷ acts) = a ∷ kept_actions false acts

-- What the actions of a rule should become: the controller alone where one of them reaches it.
unfoldable pub prepared : Bool → List Action → List Action
prepared use_nx acts =
    if reaches_controller acts then Action.controller ∷ [] else kept_actions use_nx acts

controller_in :
    (acts : List Action)
    → any is_controller (map without_path_bucket acts) ≡ reaches_controller acts
controller_in [] = refl
controller_in (Action.controller ∷ acts) = refl
controller_in (Action.identity ∷ acts) = controller_in acts
controller_in (Action.modify m ∷ acts) = controller_in acts
controller_in (Action.query (path_bucket n) ∷ acts) = refl
controller_in (Action.query (count_bucket n) ∷ acts) = controller_in acts
controller_in (Action.query (netflow_bucket n) ∷ acts) = controller_in acts

filtered_reaches :
    (acts : List Action) → reaches_controller (filter not_identity acts) ≡ reaches_controller acts
filtered_reaches [] = refl
filtered_reaches (Action.controller ∷ acts) = refl
filtered_reaches (Action.identity ∷ acts) = filtered_reaches acts
filtered_reaches (Action.modify m ∷ acts) = filtered_reaches acts
filtered_reaches (Action.query (path_bucket n) ∷ acts) = refl
filtered_reaches (Action.query (count_bucket n) ∷ acts) = filtered_reaches acts
filtered_reaches (Action.query (netflow_bucket n) ∷ acts) = filtered_reaches acts

filtered_kept : (acts : List Action) → filter not_identity acts ≡ kept_actions false acts
filtered_kept [] = refl
filtered_kept (Action.controller ∷ acts) = ap (λ as'. Action.controller ∷ as') (filtered_kept acts)
filtered_kept (Action.identity ∷ acts) = filtered_kept acts
filtered_kept (Action.modify m ∷ acts) = ap (λ as'. Action.modify m ∷ as') (filtered_kept acts)
filtered_kept (Action.query b ∷ acts) = ap (λ as'. Action.query b ∷ as') (filtered_kept acts)

-- Actions that do not reach the controller have no path bucket to replace.
untouched :
    (acts : List Action) → reaches_controller acts ≡ false → map without_path_bucket acts ≡ acts
untouched [] h = refl
untouched (Action.controller ∷ acts) h = absurd (true≢false h)
untouched (Action.identity ∷ acts) h = ap (λ as'. Action.identity ∷ as') (untouched acts h)
untouched (Action.modify m ∷ acts) h = ap (λ as'. Action.modify m ∷ as') (untouched acts h)
untouched (Action.query (path_bucket n) ∷ acts) h = absurd (true≢false h)
untouched (Action.query (count_bucket n) ∷ acts) h =
    ap (λ as'. Action.query (count_bucket n) ∷ as') (untouched acts h)
untouched (Action.query (netflow_bucket n) ∷ acts) h =
    ap (λ as'. Action.query (netflow_bucket n) ∷ as') (untouched acts h)

rewritten :
    (acts : List Action)
    → controller_only (map without_path_bucket acts)
      ≡ (if reaches_controller acts then Action.controller ∷ [] else acts)
rewritten acts = elim (Bool-cases (reaches_controller acts)) [
  | inl e ↦ rw (controller_in acts, e) refl
  | inr e ↦ rw (controller_in acts, e) (untouched acts e)
]

rewritten-prepared :
    (use_nx : Bool) (acts : List Action)
    → controller_only (map without_path_bucket (if use_nx then acts else filter not_identity acts))
      ≡ prepared use_nx acts
unfolding prepared
rewritten-prepared true acts = rewritten acts
rewritten-prepared false acts =
    rewritten (filter not_identity acts)
    ∙ ap (λ b. if b then Action.controller ∷ [] else filter not_identity acts)
        (filtered_reaches acts)
    ∙ ap (λ as'. if reaches_controller acts then Action.controller ∷ [] else as')
        (filtered_kept acts)

fused :
    (use_nx : Bool) (o : Option (List Action))
    → map_option controller_only (
        map_option
          (map without_path_bucket)
          (map_option (λ acts. if use_nx then acts else filter not_identity acts) o))
      ≡ map_option (prepared use_nx) o
fused use_nx none = refl
fused use_nx (some acts) = ap some (rewritten-prepared use_nx acts)

module _ ⦃i : Ipaddr⦄ where
  lookup-map_actions :
      (f : List Action → List Action) (c : Classifier) (pkt : Packet)
      → lookup (map (map_actions f) c) pkt ≡ map_option f (lookup c pkt)
  unfolding lookup
  lookup-map_actions f [] pkt = refl
  lookup-map_actions f (r ∷ c) pkt = ground (arith, lookup-map_actions f c pkt)

  UntaggedRules-map_actions :
      (f : List Action → List Action) (c : Classifier)
      → UntaggedRules c
      → UntaggedRules (map (map_actions f) c)
  UntaggedRules-map_actions f [] h = tt
  UntaggedRules-map_actions f (r ∷ c) (h, hs) = (h, UntaggedRules-map_actions f c hs)

  -- A match on one header accepts the packets that carry the value.
  ethtype_eval :
      (n : ℕ) (pkt : Packet)
      → match_eval (ethtype_match n) pkt
        ≡ accepts_value (some (num n)) (pkt.header (header ethtype))
  unfolding match_eval accepts all_fields
  ethtype_eval n pkt = ground arith

  switch_eval :
      (n : ℕ) (pkt : Packet)
      → match_eval (switch_match n) pkt ≡ accepts_value (some (num n)) (pkt.header (header switch))
  unfolding match_eval accepts all_fields
  switch_eval n pkt = ground arith

  ethtype_match-Untagged : (n : ℕ) → Untagged (ethtype_match n)
  ethtype_match-Untagged n t = refl

  switch_match-Untagged : (n : ℕ) → Untagged (switch_match n)
  switch_match-Untagged n t = refl

  with_ethtype :
      (p : Pred) (n t : ℕ) (pkt : Packet)
      → UntaggedPred p
      → pkt.header (header ethtype) ≡ some (num t)
      → pred_eval (intersect p (match (ethtype_match n))) pkt ≡ (pred_eval p pkt && (n == t))
  unfolding pred_eval accepts_value value_eq
  with_ethtype p n t pkt u h =
      intersect-eval p (match (ethtype_match n)) pkt u (ethtype_match-Untagged n)
      ∙ ap (λ b. pred_eval p pkt && b) (ethtype_eval n pkt ∙ rw h refl)

  with_switch :
      (p : Pred) (n s : ℕ) (pkt : Packet)
      → UntaggedPred p
      → pkt.header (header switch) ≡ some (num s)
      → pred_eval (intersect p (match (switch_match n))) pkt ≡ (pred_eval p pkt && (n == s))
  unfolding pred_eval accepts_value value_eq
  with_switch p n s pkt u h =
      intersect-eval p (match (switch_match n)) pkt u (switch_match-Untagged n)
      ∙ ap (λ b. pred_eval p pkt && b) (switch_eval n pkt ∙ rw h refl)

  -- A frame of IP or ARP.
  abbrev pub IsLayer3 : Packet → Type 0
  IsLayer3 pkt =
      (pkt.header (header ethtype) ≡ some (num ip_type))
      ⊎ (pkt.header (header ethtype) ≡ some (num arp_type))

  lookup-layer_3_specialize :
      (c : Classifier) (pkt : Packet)
      → UntaggedRules c
      → IsLayer3 pkt
      → lookup (layer_3_specialize c) pkt ≡ lookup c pkt
  unfolding layer_3_specialize lookup
  lookup-layer_3_specialize [] pkt u h = refl
  lookup-layer_3_specialize (r ∷ c) pkt (u, us) (inl h) =
      let rest = lookup-layer_3_specialize c pkt us (inl h) in
      ground (
        arith,
        with_ethtype r.mat ip_type ip_type pkt u h,
        with_ethtype r.mat arp_type ip_type pkt u h,
        rest,
      )
  lookup-layer_3_specialize (r ∷ c) pkt (u, us) (inr h) =
      let rest = lookup-layer_3_specialize c pkt us (inr h) in
      ground (
        arith,
        with_ethtype r.mat ip_type arp_type pkt u h,
        with_ethtype r.mat arp_type arp_type pkt u h,
        rest,
      )

  lookup-switches :
      (r : Rule) (switches : List ℕ) (s : ℕ) (pkt : Packet)
      → UntaggedPred r.mat
      → pkt.header (header switch) ≡ some (num s)
      → lookup (map (λ n. with_match r (switch_match n)) switches) pkt
        ≡ (if pred_eval r.mat pkt && any (λ t. s == t) switches then some r.actions else none)
  unfolding lookup
  lookup-switches r [] s pkt u h = ground arith
  lookup-switches r (t ∷ switches) s pkt u h =
      ground (arith, with_switch r.mat t s pkt u h, lookup-switches r switches s pkt u h)

  accepted_value :
      (v : Option Value) (n : ℕ) → accepts_value v (some (num n)) ≡ true → v ≡ some (num n)
  unfolding accepts_value
  accepted_value none n h = absurd (ground arith)
  accepted_value (some w) n h = ap some ((value_eq_iff w (num n)).0 h)

  -- A packet that a rule for one switch accepts is at that switch.
  switch_entry-eval :
      (p : Pred) (v : Option Value) (s : ℕ) (pkt : Packet)
      → switch_entry p ≡ some v
      → pkt.header (header switch) ≡ some (num s)
      → pred_eval p pkt ≡ true
      → v ≡ some (num s)
  unfolding pred_eval accepts
  switch_entry-eval (match m) v s pkt e h k =
      let there : accepts_at m pkt (header switch) (m (header switch)) ≡ true =
        (match_eval_iff m pkt).0 k (header switch) in
      accepted_value v s (rw (e, h) at there)
  switch_entry-eval _ v s pkt e h k = absurd (ground arith)

  lookup-switchify_rule :
      (r : Rule) (switches : List ℕ) (s : ℕ) (pkt : Packet)
      → UntaggedPred r.mat
      → pkt.header (header switch) ≡ some (num s)
      → any (λ t. s == t) switches ≡ true
      → lookup (switchify_rule r switches) pkt
        ≡ (if pred_eval r.mat pkt then some r.actions else none)
  unfolding switchify_rule lookup
  lookup-switchify_rule r switches s pkt u h k = elim (Option-cases (switch_entry r.mat)) [
    | inl e ↦ rw e (ground (arith, lookup-switches r switches s pkt u h))
    | inr (v, e) ↦ rw e (elim (Bool-cases (pred_eval r.mat pkt)) [
      | inl t ↦ let same = switch_entry-eval r.mat v s pkt e h t in rw (same, k, t) refl
      | inr f ↦ rw f (ground arith)
    ])
  ]

  -- At a switch of the network, a rule for every switch is as good as one that names none.
  lookup-switchify :
      (c : Classifier) (switches : List ℕ) (s : ℕ) (pkt : Packet)
      → UntaggedRules c
      → pkt.header (header switch) ≡ some (num s)
      → any (λ t. s == t) switches ≡ true
      → lookup (switchify c switches) pkt ≡ lookup c pkt
  unfolding switchify lookup
  lookup-switchify [] switches s pkt u h k = refl
  lookup-switchify (r ∷ c) switches s pkt (u, us) h k =
      lookup-append (switchify_rule r switches) (switchify c switches) pkt
      ∙ ground (
        arith,
        lookup-switchify_rule r switches s pkt u h k,
        lookup-switchify c switches s pkt us h k,
      )

  UntaggedRules-remove_identity :
      (use_nx : Bool) (c : Classifier) → UntaggedRules c → UntaggedRules (remove_identity use_nx c)
  unfolding remove_identity
  UntaggedRules-remove_identity true c u = u
  UntaggedRules-remove_identity false c u = UntaggedRules-map_actions (filter not_identity) c u

  lookup-remove_identity :
      (use_nx : Bool) (c : Classifier) (pkt : Packet)
      → lookup (remove_identity use_nx c) pkt
        ≡ map_option (λ acts. if use_nx then acts else filter not_identity acts) (lookup c pkt)
  unfolding remove_identity
  lookup-remove_identity true c pkt = sym (map_option_id (lookup c pkt))
  lookup-remove_identity false c pkt = lookup-map_actions (filter not_identity) c pkt

  UntaggedRules-layer_3_specialize :
      (c : Classifier) → UntaggedRules c → UntaggedRules (layer_3_specialize c)
  unfolding layer_3_specialize
  UntaggedRules-layer_3_specialize [] u = tt
  UntaggedRules-layer_3_specialize (r ∷ c) (u, us) =
      let rest = UntaggedRules-layer_3_specialize c us in
      elim (Bool-cases (is_layer_3 r.mat)) [
        | inl e ↦
            let at_ip =
              intersect-UntaggedPred r.mat (match (ethtype_match ip_type)) u
                (ethtype_match-Untagged ip_type) in
            let at_arp =
              intersect-UntaggedPred r.mat (match (ethtype_match arp_type)) u
                (ethtype_match-Untagged arp_type) in
            rw e (at_ip, (at_arp, rest))
        | inr e ↦ rw e (u, rest)
      ]

  module _ (use_nx : Bool) (c : Classifier) (u : UntaggedRules c) where
    UntaggedRules-controllerify :
        UntaggedRules (controllerify (remove_path_buckets (remove_identity use_nx c)))
    unfolding controllerify remove_path_buckets
    UntaggedRules-controllerify =
        let u1 = UntaggedRules-remove_identity use_nx c u in
        UntaggedRules-map_actions controller_only (remove_path_buckets (remove_identity use_nx c))
          (UntaggedRules-map_actions (map without_path_bucket) (remove_identity use_nx c) u1)

    UntaggedRules-prepare : UntaggedRules (prepare use_nx c)
    unfolding prepare
    UntaggedRules-prepare =
        UntaggedRules-layer_3_specialize
          (controllerify (remove_path_buckets (remove_identity use_nx c)))
          UntaggedRules-controllerify

    lookup-prepare :
        (pkt : Packet)
        → IsLayer3 pkt
        → lookup (prepare use_nx c) pkt ≡ map_option (prepared use_nx) (lookup c pkt)
    unfolding prepare remove_path_buckets controllerify
    lookup-prepare pkt h =
        let c1 = remove_identity use_nx c in
        let c2 = map (map_actions (map without_path_bucket)) c1 in
        let c3 = map (map_actions controller_only) c2 in
        lookup-layer_3_specialize c3 pkt UntaggedRules-controllerify h
        ∙ lookup-map_actions controller_only c2 pkt
        ∙ ap (map_option controller_only) (
            lookup-map_actions (map without_path_bucket) c1 pkt
            ∙ ap (map_option (map without_path_bucket)) (lookup-remove_identity use_nx c pkt))
        ∙ fused use_nx (lookup c pkt)

    -- For a packet of IP or ARP at a switch of the network, and a classifier without tagging fields,
    -- the actions that the specialised classifier gives are those of the classifier itself, where
    -- one to the controller, or into a path bucket, has replaced all the others, and identity is
    -- left out on switches of one table.
    pub lookup-install :
        (switches : List ℕ) (s : ℕ) (pkt : Packet)
        → IsLayer3 pkt
        → pkt.header (header switch) ≡ some (num s)
        → any (λ t. s == t) switches ≡ true
        → lookup (switchify (prepare use_nx c) switches) pkt
          ≡ map_option (prepared use_nx) (lookup c pkt)
    lookup-install switches s pkt h at_switch k =
        lookup-switchify (prepare use_nx c) switches s pkt UntaggedRules-prepare at_switch k
        ∙ lookup-prepare pkt h
