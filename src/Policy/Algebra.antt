-- ===== src/Policy/Algebra.antt =====
-- Laws of the combinators of core/language.py, on the evaluation of policies.
use pyretic.Base.{
  ℕ, Bool, true, false, List, [], ◌∷◌, ◌++◌, ◌≡◌, refl, ◌∙◌, ap, subst, some, Bool-cases, inl, inr,
  if◌then◌else◌,
}
use mathlib.Core.List.{append-nil}
use pyretic.Packet.{all_fields, Packet, num, header, port, modifymany}
use pyretic.Ipaddr.{Ipaddr}
use pyretic.Match.{match_eval, accepts, accepts_value}
use pyretic.Action.{Event, emit, collect, raised, modify_eval}
use pyretic.Action.Events.{
  SameViews, SameViews-refl, SameViews-sym, SameViews-trans, SameViews-append, SameViews-of_eq,
  and_then,
}
use pyretic.Action.Chain.{and_then-emit}
use pyretic.Policy.{
  Policy, identity, drop, policy_add, match, modify, negate, derived, nil, cons, eval, has_packet,
  others, negate_eval, policy_rshift, difference, fwd, xfwd, port_match, port_map,
}
use pyretic.Policy.Eval.{chain, eval_seq-eq-chain, eval-policy_rshift, eval-policy_add}
use pyretic.Policy.Support.{PureFilter}
use pyretic.Policy.Negate.{IsPure, IsPure-others}
use pyretic.Policy.Pure.{eval-IsPure}
use pyretic.Policy.Branches.{IsPure-pass, IsPure-block}

module _ ⦃i : Ipaddr⦄ where
  negate_eval-pure :
      (pkt : Packet) (es : List Event)
      → IsPure pkt es
      → negate_eval es pkt ≡ (if has_packet es then [] else emit pkt ∷ [])
  unfolding negate_eval
  negate_eval-pure pkt es h = rw (IsPure-others pkt es h)

  pure_shows :
      (pkt : Packet) (es : List Event)
      → IsPure pkt es
      → SameViews (if has_packet es then emit pkt ∷ [] else []) es
  pure_shows pkt es h = elim (Bool-cases (has_packet es)) [
    | inl e ↦ rw e (
        SameViews-sym es (emit pkt ∷ []) (
          subst (λ ds. SameViews ds (emit pkt ∷ [])) (and_then-emit es)
            (IsPure-pass pkt es (λ p. emit p ∷ []) h e)))
    | inr e ↦ rw (e, IsPure-block pkt es h e) (SameViews-refl [])
  ]

  -- What a filter and its negation return together, and one after the other.
  pass_and_negation :
      (b : Bool) (pkt : Packet)
      → (if b then emit pkt ∷ [] else []) ++ (if b then [] else emit pkt ∷ []) ≡ emit pkt ∷ []
  pass_and_negation true pkt = refl
  pass_and_negation false pkt = refl

  negation_blocks :
      (p : Policy) (pkt : Packet)
      → PureFilter p
      → eval (negate p) pkt ≡ (if has_packet (eval p pkt) then [] else emit pkt ∷ [])
  unfolding eval
  negation_blocks p pkt h = negate_eval-pure pkt (eval p pkt) (eval-IsPure p h pkt)

  together :
      (p : Policy) (pkt : Packet)
      → PureFilter p
      → SameViews (eval (policy_add p (negate p)) pkt) (
          (if has_packet (eval p pkt) then emit pkt ∷ [] else [])
          ++ (if has_packet (eval p pkt) then [] else emit pkt ∷ []))
  together p pkt h =
      let es = eval p pkt in
      let passing : List Event = if has_packet es then emit pkt ∷ [] else [] in
      rw (eval-policy_add p (negate p) pkt, negation_blocks p pkt h)
        (SameViews-append es passing (if has_packet es then [] else emit pkt ∷ [])
          (if has_packet es then [] else emit pkt ∷ [])
          (SameViews-sym passing es (pure_shows pkt es (eval-IsPure p h pkt)))
          (SameViews-refl (if has_packet es then [] else emit pkt ∷ [])))

  -- Where what follows has no outcome on the packet.
  nothing_after :
      (pkt : Packet) (es : List Event) (f : Packet → List Event)
      → IsPure pkt es
      → (has_packet es ≡ true → f pkt ≡ [])
      → and_then es f ≡ []
  unfolding and_then has_packet
  nothing_after pkt [] f h k = refl
  nothing_after pkt (emit p ∷ es) f h k =
      ap (λ ds. ds ++ and_then es f) (ap f h.0 ∙ k refl) ∙ nothing_after pkt es f h.1 (λ _. k refl)
  nothing_after pkt (collect b p ∷ es) f h k = absurd h
  nothing_after pkt (raised ∷ es) f h k = absurd h

  -- For a filter p made of identity, drop, matches and their compositions, `p + ~p` returns the
  -- packet and nothing else, as identity does, and `p >> ~p` has no outcome, as drop has none.
  pub negate-complement :
      (p : Policy) (pkt : Packet)
      → PureFilter p
      → SameViews (eval (policy_add p (negate p)) pkt) (eval identity pkt)
        × (eval (policy_rshift p (negate p)) pkt ≡ eval drop pkt)
  unfolding eval
  negate-complement p pkt h =
      let passed = has_packet (eval p pkt) in
      (
        SameViews-trans (eval (policy_add p (negate p)) pkt)
            ((if passed then emit pkt ∷ [] else []) ++ (if passed then [] else emit pkt ∷ []))
            (emit pkt ∷ []) (together p pkt h) (SameViews-of_eq (pass_and_negation passed pkt)),
        eval-policy_rshift p (negate p) pkt
            ∙ nothing_after pkt (eval p pkt) (eval (negate p)) (eval-IsPure p h pkt)
                (λ k. negation_blocks p pkt h ∙ ap (λ b. if b then [] else emit pkt ∷ []) k),
      )

  pass_or_block :
      (b : Bool) (pkt : Packet) (f : Packet → List Event)
      → and_then (if b then [] else emit pkt ∷ []) f ≡ (if b then [] else f pkt)
  unfolding and_then
  pass_or_block true pkt f = refl
  pass_or_block false pkt f = append-nil (f pkt)

  -- difference(f1, f2), for a filter f2 made of identity, drop, matches and their compositions,
  -- drops what f2 lets pass, and has the outcome of f1 on the rest.
  pub eval-difference :
      (f1 f2 : Policy) (pkt : Packet)
      → PureFilter f2
      → eval (difference f1 f2) pkt ≡ (if has_packet (eval f2 pkt) then [] else eval f1 pkt)
  unfolding difference eval chain and_then
  eval-difference f1 f2 pkt h =
      eval_seq-eq-chain (cons (negate f2) (cons f1 nil)) (emit pkt ∷ [])
      ∙ ap (λ es. and_then es (eval f1))
          (append-nil (negate_eval (eval f2 pkt) pkt)
            ∙ negate_eval-pure pkt (eval f2 pkt) (eval-IsPure f2 h pkt))
      ∙ pass_or_block (has_packet (eval f2 pkt)) pkt (eval f1)

  match_eval-port :
      (n : ℕ) (pkt : Packet)
      → match_eval (port_match n) pkt ≡ accepts_value (some (num n)) (pkt.header (header port))
  unfolding match_eval accepts all_fields
  match_eval-port n pkt =
      elim (Bool-cases (accepts_value (some (num n)) (pkt.header (header port)))) [
        | inl e ↦ rw e
        | inr e ↦ rw e
      ]

  negated_match :
      (b : Bool) (pkt : Packet)
      → negate_eval (if b then emit pkt ∷ [] else []) pkt ≡ (if b then [] else emit pkt ∷ [])
  unfolding negate_eval has_packet others
  negated_match true pkt = refl
  negated_match false pkt = refl

  -- xfwd(n) drops the packets that are at port n, and moves any other packet to port n.
  pub eval-xfwd :
      (n : ℕ) (pkt : Packet)
      → eval (xfwd n) pkt ≡ (
          if accepts_value (some (num n)) (pkt.header (header port))
          then []
          else emit (modifymany pkt (port_map n)) ∷ [])
  unfolding xfwd fwd eval modify_eval
  eval-xfwd n pkt =
      eval-policy_rshift (negate (match (port_match n))) (derived (modify (port_map n))) pkt
      ∙ ap
          (λ b.
            and_then (negate_eval (if b then emit pkt ∷ [] else []) pkt)
              (λ p. modify_eval (port_map n) p ∷ []))
          (match_eval-port n pkt)
      ∙ ap (λ es. and_then es (λ p. modify_eval (port_map n) p ∷ []))
          (negated_match (accepts_value (some (num n)) (pkt.header (header port))) pkt)
      ∙ pass_or_block (accepts_value (some (num n)) (pkt.header (header port))) pkt
          (λ p. modify_eval (port_map n) p ∷ [])
