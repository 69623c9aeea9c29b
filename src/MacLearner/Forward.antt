-- ===== src/MacLearner/Forward.antt =====
-- modules/mac_learner.py: a packet goes to the port where its destination was last seen.
use pyretic.Base.{
  ℕ, Bool, true, false, ◌&&◌, Option, none, some, List, [], ◌∷◌, ◌++◌, ◌≡◌, refl, ◌∙◌, ap, arith,
  inl, inr, if◌then◌else◌, Bool-cases, All,
}
use pyretic.Packet.{
  header, srcmac, dstmac, switch, port, Value, option_eq, all_fields, Packet, modifymany,
}
use pyretic.Ipaddr.{Ipaddr}
use pyretic.Match.{MatchMap, match_eval, accepts, accepts_value}
use pyretic.Action.{Event, emit, modify_eval}
use pyretic.Policy.{Policy, match, fwd, if_policy, policy_add, port_map, eval, has_packet, others}
use pyretic.Policy.Eval.{eval-policy_add}
use pyretic.MacLearner.{
  number, MacLearner, match_host, update_policy, set_initial_state, learned, learn_new_mac,
  learn_all,
}

-- The two tests of the match.
abbrev pub is_host : Option Value → Option Value → Packet → Bool
is_host mac s pkt =
    option_eq mac (pkt.header (header dstmac)) && option_eq s (pkt.header (header switch))

-- The port where the destination of the packet has been seen at its switch: that of the last of
-- these packets from it, if any, else `before`.
abbrev pub last_seen : Packet → List Packet → Option ℕ → Option ℕ
last_seen pkt [] before = before
last_seen pkt (p ∷ ps) before = last_seen pkt ps (
    if is_host (p.header (header srcmac)) (p.header (header switch)) pkt
    then number (p.header (header port))
    else before)

module _ ⦃i : Ipaddr⦄ where
  match_host-eval :
      (mac s : Value) (pkt : Packet)
      → match_eval (match_host mac s) pkt ≡ is_host (some mac) (some s) pkt
  unfolding match_eval all_fields accepts accepts_value option_eq
  match_host-eval mac s pkt = ground arith

  -- What a packet's port is changed to, or else what `flood` does.
  abbrev pub routed : Policy → Packet → Option ℕ → List Event
  routed flood pkt none = eval flood pkt
  routed flood pkt (some n) = emit (modifymany pkt (port_map n)) ∷ []

  branch :
      (m : MatchMap) (n : ℕ) (f : Policy) (pkt : Packet)
      → eval (if_policy (match m) (fwd n) f) pkt
        ≡ (if match_eval m pkt then emit (modifymany pkt (port_map n)) ∷ [] else eval f pkt)
  unfolding if_policy fwd eval modify_eval has_packet others
  branch m n f pkt = elim (Bool-cases (match_eval m pkt)) [ inl e ↦ rw e refl | inr e ↦ rw e refl ]

  -- The headers that learn_new_MAC reads.
  pub record HasSource (p : Packet) : Type 0 where
    pub mac : Value
    pub place : Value
    pub inport : ℕ
    pub is_mac : p.header (header srcmac) ≡ some mac
    pub is_place : p.header (header switch) ≡ some place
    pub is_inport : number (p.header (header port)) ≡ some inport

  routed_if :
      (b : Bool) (flood : Policy) (pkt : Packet) (n : ℕ) (before : Option ℕ)
      → (if b then emit (modifymany pkt (port_map n)) ∷ [] else routed flood pkt before)
        ≡ routed flood pkt (if b then some n else before)
  routed_if true flood pkt n before = refl
  routed_if false flood pkt n before = refl

  learned-routed :
      (flood : Policy) (pkt p : Packet) (l : MacLearner) (before : Option ℕ) (h : HasSource p)
      → eval l.forward pkt ≡ routed flood pkt before
      → eval (learned l h.mac h.place h.inport) pkt
        ≡ routed flood pkt (
            if is_host (p.header (header srcmac)) (p.header (header switch)) pkt
            then number (p.header (header port))
            else before)
  learned-routed flood pkt p l before h k =
      let moved = emit (modifymany pkt (port_map h.inport)) ∷ [] in
      let there = is_host (some h.mac) (some h.place) pkt in
      rw (h.is_mac, h.is_place, h.is_inport)
        (branch (match_host h.mac h.place) h.inport l.forward pkt
          ∙ ap (λ b. if b then moved else eval l.forward pkt) (match_host-eval h.mac h.place pkt)
          ∙ ap (λ es. if there then moved else es) k
          ∙ routed_if there flood pkt h.inport before)

  learn_all-routed :
      (flood : Policy) (pkt : Packet) (ps : List Packet) (l : MacLearner) (before : Option ℕ)
      → All HasSource ps
      → l.policy ≡ policy_add l.forward l.query
      → eval l.forward pkt ≡ routed flood pkt before
      → (l' : MacLearner) × (learn_all ps l ≡ some l')
        × (l'.query ≡ l.query)
        × (eval l'.policy pkt ≡ routed flood pkt (last_seen pkt ps before) ++ eval l.query pkt)
  unfolding learn_all learn_new_mac update_policy
  learn_all-routed flood pkt [] l before h e k = (
    l,
    refl,
    refl,
    ap (λ p. eval p pkt) e
        ∙ eval-policy_add l.forward l.query pkt
        ∙ ap (λ es. es ++ eval l.query pkt) k,
  )
  learn_all-routed flood pkt (p ∷ ps) l before (h, hs) e k =
      let next = update_policy (record l { forward = learned l h.mac h.place h.inport }) in
      let (l', is, same, rest) =
        learn_all-routed flood pkt ps next
          (if is_host (p.header (header srcmac)) (p.header (header switch)) pkt
            then number (p.header (header port))
            else before)
          hs refl (learned-routed flood pkt p l before h k) in
      (l', rw (h.is_mac, h.is_place, h.is_inport) is, same, rest)

  -- After packets that have a source address, a switch and a number as port, the learner has
  -- raised no exception, and its policy sends a packet to the port where the last of them from its
  -- destination was seen at its switch, does with it what `flood` does if there is none, and does
  -- with it what the query does.
  pub learn_all-eval :
      (flood packets : Policy) (ps : List Packet) (pkt : Packet)
      → All HasSource ps
      → (l : MacLearner) × (learn_all ps (set_initial_state flood packets) ≡ some l)
        × (eval l.policy pkt ≡ routed flood pkt (last_seen pkt ps none) ++ eval packets pkt)
  unfolding set_initial_state update_policy
  learn_all-eval flood packets ps pkt h =
      let (l, is, _, k) =
        learn_all-routed flood pkt ps (set_initial_state flood packets) none h refl refl in
      (l, is, k)
