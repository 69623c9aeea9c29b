-- ===== src/Install/Inports.antt =====
-- of_inportize: the rules together do what the rule did, and send back through ofpp_in_port.
use pyretic.Base.{
  subst, All, not, ap₂, true≢false, Bool, true, false, ◌&&◌, Option, none, some, List, [], ◌∷◌,
  ◌++◌, map, ◌≡◌, refl, sym, ◌∙◌, ap, arith, inl, inr, Bool-cases, map_option, if◌then◌else◌,
  OnSome, OnSome-bind, OnSome-some, fun_ext,
}
use pyretic.Packet.{Field, header, switch, port, Value, num, option_eq, option_eq_iff}
use pyretic.Action.{Action}
use pyretic.Match.{is_none}
use pyretic.Install.Concrete.{
  ofpp_in_port, Dict, has_key, key_entry, set_port, ConcreteAction, dict, object, ConcreteRule,
  is_aggregate,
}
use pyretic.Install.Rules.{
  is_reserved, outport_of, outports_used, sends_entry, sends_to, specialize_action,
  specialize_actions, in_ports, inportize_with, inportize_rule, append_option, of_inportize,
}

-- An action with a port, or a bucket that counts.
abbrev pub HasPort : ConcreteAction → Type 0
HasPort (dict d) = has_key d (header port) ≡ true
HasPort (object a) = is_aggregate (object a) ≡ true

-- A rule for a switch, with such actions.
abbrev pub Ready : ConcreteRule → Type 0
Ready r = (has_key r.mat (header switch) ≡ true) × All HasPort r.actions

outports_used-some :
    (acts : List ConcreteAction)
    → All HasPort acts
    → (ps : List (Option Value)) × (outports_used acts ≡ some ps)
unfolding outports_used
outports_used-some [] h = ([], refl)
outports_used-some (object a ∷ acts) (h, hs) =
    let (ps, e) = outports_used-some acts hs in (ps, rw (h, e) refl)
outports_used-some (dict d ∷ acts) (h, hs) =
    let (ps, e) = outports_used-some acts hs in
    let (p, k) = key_entry d (header port) h in
    elim (Bool-cases (is_reserved p)) [
      | inl r ↦ (ps, ap (λ o. outport_of o (outports_used acts)) k ∙ rw (r, e) refl)
      | inr r ↦ (p ∷ ps, ap (λ o. outport_of o (outports_used acts)) k ∙ rw (r, e) refl)
    ]

-- How a switch matches a packet: with an in-port, only the packets that came through it.
pub record Matching (P : Type 0) : Type 0 where
  pub admits : Dict → P → Bool
  pub in_port : P → Option Value
  pub admits-set_port :
      (d : Dict) (p : Option Value) (pkt : P)
      → d (header port) ≡ none
      → admits (set_port d p) pkt ≡ (admits d pkt && option_eq (in_port pkt) p)
  pub admits_port :
      (d : Dict) (p : Option Value) (pkt : P)
      → d (header port) ≡ some p
      → admits d pkt ≡ true
      → in_port pkt ≡ p

option_eq_comm : (p q : Option Value) → option_eq p q ≡ true → option_eq q p ≡ true
option_eq_comm p q h = (option_eq_iff q p).1 (sym ((option_eq_iff p q).0 h))

-- The dictionary with 0xfff8, OpenFlow's number for the in-port, as its port.
abbrev pub to_in_port : Dict → Dict
to_in_port d (header port) = some (some (num 0xfff8))
to_in_port d f = d f

abbrev pub sent_back_to : Dict → Option (Option Value) → Option Value → ConcreteAction
sent_back_to d none q = dict d
sent_back_to d (some p) q = dict (if option_eq p q then to_in_port d else d)

-- An action that would send to the port sends to the in-port; all others stay.
abbrev pub sent_back_action : Option Value → ConcreteAction → ConcreteAction
sent_back_action q (object a) = object a
sent_back_action q (dict d) = sent_back_to d (d (header port)) q

to_in_port_entry : (d : Dict) (f : Field) → set_port d (some (num ofpp_in_port)) f ≡ to_in_port d f
to_in_port_entry d (header port) = refl
to_in_port_entry d _ = refl

sent_back_dict :
    (d : Dict) (o : Option (Option Value)) (q : Option Value)
    → dict (if sends_entry o q then set_port d (some (num ofpp_in_port)) else d)
      ≡ sent_back_to d o q
sent_back_dict d none q = refl
sent_back_dict d (some p) q =
    ap (λ e. dict (if option_eq p q then e else d)) (fun_ext (to_in_port_entry d))

specialize_actions-sent_back :
    (q : Option Value) (acts : List ConcreteAction)
    → specialize_actions acts q ≡ map (sent_back_action q) acts
unfolding specialize_actions
specialize_actions-sent_back q [] = refl
specialize_actions-sent_back q (object a ∷ acts) =
    ap (λ as'. object a ∷ as') (specialize_actions-sent_back q acts)
specialize_actions-sent_back q (dict d ∷ acts) =
    ap₂ ◌∷◌ (sent_back_dict d (d (header port)) q) (specialize_actions-sent_back q acts)

-- Actions that use other ports are left alone.
sends_elsewhere :
    (d : Dict) (p q : Option Value)
    → d (header port) ≡ some p
    → option_eq p q ≡ false
    → specialize_action q (dict d) ≡ dict d
sends_elsewhere d p q e h =
    let test : sends_to d q ≡ false = ap (λ o. sends_entry o q) e ∙ h in
    ap (λ b. dict (if b then set_port d (some (num ofpp_in_port)) else d)) test

abbrev Unused : Option Value → List ConcreteAction → List (Option Value) → Type 0
Unused q acts ps = in_ports q ps ≡ false → specialize_actions acts q ≡ acts

-- A reserved port is not the one asked for.
other_port :
    (p q : Option Value) → is_reserved p ≡ true → is_reserved q ≡ false → option_eq p q ≡ false
other_port p q h k = elim (Bool-cases (option_eq p q)) [
  | inl e ↦
      let same : is_reserved p ≡ is_reserved q = ap is_reserved ((option_eq_iff p q).0 e) in
      absurd (true≢false (sym h ∙ same ∙ k))
  | inr e ↦ e
]

not_used :
    (q p : Option Value) (ps : List (Option Value))
    → in_ports q (p ∷ ps) ≡ false
    → option_eq p q ≡ false
not_used q p ps k = elim (Bool-cases (option_eq p q)) [
  | inl e ↦ absurd (ground (arith, option_eq_comm p q e))
  | inr e ↦ e
]

module _ (q : Option Value) (h : is_reserved q ≡ false) where
  Unused-dict :
      (d : Dict) (acts : List ConcreteAction) (o : Option (Option Value))
      (rest : Option (List (Option Value)))
      → d (header port) ≡ o
      → OnSome (Unused q acts) rest
      → OnSome (Unused q (dict d ∷ acts)) (outport_of o rest)
  unfolding specialize_actions
  Unused-dict d acts none rest e ih = tt
  Unused-dict d acts (some p) none e ih = elim (Bool-cases (is_reserved p)) [
    | inl r ↦ rw r tt
    | inr r ↦ rw r tt
  ]
  Unused-dict d acts (some p) (some ps) e ih = elim (Bool-cases (is_reserved p)) [
    | inl r ↦ rw r (λ k. ap₂ ◌∷◌ (sends_elsewhere d p q e (other_port p q r h)) (ih k))
    | inr r ↦ rw r (λ k.
        let away : option_eq p q ≡ false = not_used q p ps k in
        ap₂ ◌∷◌ (sends_elsewhere d p q e away) (ih (ground arith)))
  ]

  Unused-object :
      (a : Action) (acts : List ConcreteAction) (rest : Option (List (Option Value)))
      → OnSome (Unused q acts) rest
      → OnSome (Unused q (object a ∷ acts)) (if is_aggregate (object a) then rest else none)
  unfolding specialize_actions
  Unused-object a acts none ih = elim (Bool-cases (is_aggregate (object a))) [
    | inl e ↦ rw e tt
    | inr e ↦ rw e tt
  ]
  Unused-object a acts (some ps) ih = elim (Bool-cases (is_aggregate (object a))) [
    | inl e ↦ rw e (λ k. ap (λ as'. object a ∷ as') (ih k))
    | inr e ↦ rw e tt
  ]

  outports_used-Unused : (acts : List ConcreteAction) → OnSome (Unused q acts) (outports_used acts)
  unfolding outports_used specialize_actions
  outports_used-Unused [] = λ k. refl
  outports_used-Unused (object a ∷ acts) =
      Unused-object a acts (outports_used acts) (outports_used-Unused acts)
  outports_used-Unused (dict d ∷ acts) =
      Unused-dict d acts (d (header port)) (outports_used acts) refl (outports_used-Unused acts)

module _ {P : Type 0} (m : Matching P) where
  -- The actions of the first rule that matches.
  unfoldable pub first_match : List ConcreteRule → P → Option (List ConcreteAction)
  first_match [] pkt = none
  first_match (r ∷ rs) pkt = if m.admits r.mat pkt then some r.actions else first_match rs pkt

  -- The actions where those that send to the in-port say so.
  abbrev pub sent_back : P → List ConcreteAction → List ConcreteAction
  sent_back pkt acts = map (sent_back_action (m.in_port pkt)) acts

  abbrev specialized : P → List ConcreteAction → List ConcreteAction
  specialized pkt acts = specialize_actions acts (m.in_port pkt)

  first_match-append :
      (rs ts : List ConcreteRule) (pkt : P)
      → first_match (rs ++ ts) pkt
        ≡ elim (first_match rs pkt) [ none ↦ first_match ts pkt | some acts ↦ some acts ]
  unfolding first_match
  first_match-append [] ts pkt = refl
  first_match-append (r ∷ rs) ts pkt = ground (arith, first_match-append rs ts pkt)

  first_match-ports :
      (r : ConcreteRule) (ps : List (Option Value)) (pkt : P)
      → r.mat (header port) ≡ none
      → first_match
          (map (λ p. record { mat = set_port r.mat p; actions = specialize_actions r.actions p }) ps
            ++ r ∷ [])
          pkt
        ≡ (if m.admits r.mat pkt
            then some (if in_ports (m.in_port pkt) ps then specialized pkt r.actions else r.actions)
            else none)
  unfolding first_match
  first_match-ports r [] pkt h = refl
  first_match-ports r (p ∷ ps) pkt h = elim (Bool-cases (option_eq (m.in_port pkt) p)) [
    | inl e ↦
        let acts : specialize_actions r.actions p ≡ specialized pkt r.actions =
          ap (specialize_actions r.actions) (sym ((option_eq_iff (m.in_port pkt) p).0 e)) in
        ground (arith, acts, m.admits-set_port r.mat p pkt h, first_match-ports r ps pkt h)
    | inr e ↦ ground (arith, m.admits-set_port r.mat p pkt h, first_match-ports r ps pkt h)
  ]

  abbrev SpecializedBy : ConcreteRule → List ConcreteRule → Type 0
  SpecializedBy r out =
      (pkt : P)
      → is_reserved (m.in_port pkt) ≡ false
      → first_match out pkt
        ≡ (if m.admits r.mat pkt then some (specialized pkt r.actions) else none)

  module _ (r : ConcreteRule) (ps : List (Option Value))
      (used : outports_used r.actions ≡ some ps) where
    -- Where the in-port is not among the ports used, nothing is to be sent back.
    specialized-used :
        (pkt : P)
        → is_reserved (m.in_port pkt) ≡ false
        → (if in_ports (m.in_port pkt) ps then specialized pkt r.actions else r.actions)
          ≡ specialized pkt r.actions
    specialized-used pkt k = elim (Bool-cases (in_ports (m.in_port pkt) ps)) [
      | inl e ↦ rw e refl
      | inr e ↦ rw e (
          sym (
            OnSome-some (Unused (m.in_port pkt) r.actions) (outports_used r.actions)
              (outports_used-Unused (m.in_port pkt) k r.actions) used e))
    ]

    inportize_with-SpecializedBy :
        (p s : Option (Option Value))
        → r.mat (header port) ≡ p
        → OnSome (SpecializedBy r) (inportize_with r ps p s)
    unfolding inportize_with first_match
    inportize_with-SpecializedBy none none e = tt
    inportize_with-SpecializedBy none (some s) e = λ pkt k.
        first_match-ports r ps pkt e
        ∙ ap (λ acts. if m.admits r.mat pkt then some acts else none) (specialized-used pkt k)
    inportize_with-SpecializedBy (some p) s e = λ pkt k.
        let chosen : (m.admits r.mat pkt ≡ true)
            → (if in_ports p ps then specialize_actions r.actions p else r.actions)
              ≡ specialized pkt r.actions =
          λ t.
            subst
              (λ u.
                (if in_ports u ps then specialize_actions r.actions u else r.actions)
                ≡ specialized pkt r.actions)
              (m.admits_port r.mat p pkt e t) (specialized-used pkt k) in
        elim (Bool-cases (in_ports p ps)) [
          | inl used_port ↦ rw used_port (ground (arith, chosen))
          | inr unused_port ↦ rw unused_port (ground (arith, chosen))
        ]

  inportize_rule-SpecializedBy : (r : ConcreteRule) → OnSome (SpecializedBy r) (inportize_rule r)
  unfolding inportize_rule
  inportize_rule-SpecializedBy r =
      OnSome-bind (SpecializedBy r) (outports_used r.actions)
        (λ ps. inportize_with r ps (r.mat (header port)) (r.mat (header switch)))
        (λ ps used.
          inportize_with-SpecializedBy r ps used (r.mat (header port)) (r.mat (header switch)) refl)

  abbrev Specialized : List ConcreteRule → List ConcreteRule → Type 0
  Specialized rs out =
      (pkt : P)
      → is_reserved (m.in_port pkt) ≡ false
      → first_match out pkt ≡ map_option (specialized pkt) (first_match rs pkt)

  Specialized-append :
      (r : ConcreteRule) (rs : List ConcreteRule) (a b : Option (List ConcreteRule))
      → OnSome (SpecializedBy r) a
      → OnSome (Specialized rs) b
      → OnSome (Specialized (r ∷ rs)) (append_option a b)
  unfolding first_match
  Specialized-append r rs none b ha hb = tt
  Specialized-append r rs (some x) none ha hb = tt
  Specialized-append r rs (some x) (some y) ha hb =
      λ pkt k. first_match-append x y pkt ∙ ground (arith, ha pkt k, hb pkt k)

  of_inportize-Specialized : (rs : List ConcreteRule) → OnSome (Specialized rs) (of_inportize rs)
  unfolding of_inportize first_match
  of_inportize-Specialized [] = λ pkt k. refl
  of_inportize-Specialized (r ∷ rs) =
      Specialized-append r rs (inportize_rule r) (of_inportize rs) (inportize_rule-SpecializedBy r)
        (of_inportize-Specialized rs)

inportize_with-some :
    (r : ConcreteRule) (ps : List (Option Value)) (p s : Option (Option Value))
    → not (is_none s) ≡ true
    → (out : List ConcreteRule) × (inportize_with r ps p s ≡ some out)
unfolding inportize_with
inportize_with-some r ps none none h = absurd (true≢false (sym h))
inportize_with-some r ps none (some s) h = (_, refl)
inportize_with-some r ps (some p) s h = (_, refl)

of_inportize-some :
    (rs : List ConcreteRule)
    → All Ready rs
    → (out : List ConcreteRule) × (of_inportize rs ≡ some out)
unfolding of_inportize inportize_rule
of_inportize-some [] h = ([], refl)
of_inportize-some (r ∷ rs) ((k, h), hs) =
    let (ps, e) = outports_used-some r.actions h in
    let (x, f) = inportize_with-some r ps (r.mat (header port)) (r.mat (header switch)) k in
    let (rest, g) = of_inportize-some rs hs in (x ++ rest, rw (e, f, g) refl)

-- For rules that are for a switch and whose actions have ports or count, of_inportize returns rules
-- that give a packet the actions of the rule that it had before, where each action that would send
-- it to its in-port sends it to ofpp_in_port; the in-port is none of the reserved ports.
pub of_inportize-first_match :
    {P : Type 0} (m : Matching P) (rs : List ConcreteRule)
    → All Ready rs
    → (out : List ConcreteRule) × (of_inportize rs ≡ some out)
      × ((pkt : P)
          → is_reserved (m.in_port pkt) ≡ false
          → first_match m out pkt ≡ map_option (sent_back m pkt) (first_match m rs pkt))
of_inportize-first_match m rs h =
    let (out, e) = of_inportize-some rs h in
    (
      out,
      e,
      λ pkt k.
          OnSome-some (Specialized m rs) (of_inportize rs) (of_inportize-Specialized m rs) e pkt k
          ∙ ap (λ f. map_option f (first_match m rs pkt))
              (fun_ext (specialize_actions-sent_back (m.in_port pkt))),
    )
