-- ===== src/Policy/Eval.antt =====
-- Evaluation of the composed policies, as equations.
use mathlib.Core.List.{append-nil, append_assoc}
use pyretic.Base.{
  true, false, List, [], ◌∷◌, ◌++◌, ◌≡◌, refl, sym, ◌∙◌, ap, ap₂, fun_ext, arith, Bool-cases, inl,
  inr,
}
use pyretic.Packet.{Packet}
use pyretic.Ipaddr.{Ipaddr}
use pyretic.Match.Meaning.{match_eval-empty}
use pyretic.Action.{Event, emit, collect, raised}
use pyretic.Action.Events.{and_then}
use pyretic.Action.Chain.{and_then-emit, and_then_assoc}
use pyretic.Policy.{
  Policy, identity, drop, controller, match, modify, query, negate, parallel, union, sequential,
  intersection, derived, if_, Policies, nil, cons, eval, eval_all, eval_seq, is_identity, is_drop,
  has_packet, others, concat, sequence_items, policy_rshift, parallel_items, policy_add,
}

and_then-no_packet :
    (es : List Event) (f : Packet → List Event) → has_packet es ≡ false → and_then es f ≡ es
unfolding and_then has_packet
and_then-no_packet [] f h = refl
and_then-no_packet (emit p ∷ es) f h = ground arith
and_then-no_packet (collect b p ∷ es) f h = rw (and_then-no_packet es f h)
and_then-no_packet (raised ∷ es) f h = rw (and_then-no_packet es f h)

and_then-nothing : (es : List Event) → and_then es (λ p. []) ≡ others es
unfolding and_then others
and_then-nothing [] = refl
and_then-nothing (emit p ∷ es) = and_then-nothing es
and_then-nothing (collect b p ∷ es) = rw (and_then-nothing es)
and_then-nothing (raised ∷ es) = rw (and_then-nothing es)

has_packet-others : (es : List Event) → has_packet (others es) ≡ false
unfolding has_packet others
has_packet-others [] = refl
has_packet-others (emit p ∷ es) = has_packet-others es
has_packet-others (collect b p ∷ es) = has_packet-others es
has_packet-others (raised ∷ es) = has_packet-others es

module _ ⦃i : Ipaddr⦄ where
  -- The policies one after another, with no short cut.
  unfoldable pub chain : Policies → List Event → List Event
  chain nil prev = prev
  chain (cons p ps) prev = chain ps (and_then prev (eval p))

  chain-no_packet :
      (ps : Policies) (prev : List Event) → has_packet prev ≡ false → chain ps prev ≡ prev
  unfolding chain
  chain-no_packet nil prev h = refl
  chain-no_packet (cons p ps) prev h =
      rw (and_then-no_packet prev (eval p) h) (chain-no_packet ps prev h)

  eval-identity : (p : Policy) → is_identity p ≡ true → eval p ≡ (λ pkt. emit pkt ∷ [])
  unfolding eval
  eval-identity identity h = refl
  eval-identity (match m) h = fun_ext (λ pkt. rw (match_eval-empty m pkt h))
  eval-identity _ h = ground arith

  eval-drop : (p : Policy) → is_drop p ≡ true → eval p ≡ (λ pkt. [])
  unfolding eval
  eval-drop drop h = refl
  eval-drop _ h = ground arith

  -- The loop of sequential.eval, with its short cuts for no packets, identity and drop, has the
  -- outcome of evaluating every policy on what those before it returned.
  pub eval_seq-eq-chain : (ps : Policies) (prev : List Event) → eval_seq ps prev ≡ chain ps prev
  unfolding eval_seq chain
  eval_seq-eq-chain nil prev = refl
  eval_seq-eq-chain (cons p ps) prev = elim (Bool-cases (has_packet prev)) [
    | inr no_packet ↦
        rw no_packet (
          sym (rw (and_then-no_packet prev (eval p) no_packet) (chain-no_packet ps prev no_packet)))
    | inl some_packet ↦ rw some_packet (elim (Bool-cases (is_identity p)) [
      | inl e ↦ rw e (
          eval_seq-eq-chain ps prev
          ∙ ap (chain ps) (sym (and_then-emit prev) ∙ ap (and_then prev) (sym (eval-identity p e))))
      | inr e ↦ rw e (elim (Bool-cases (is_drop p)) [
        | inl d ↦ rw d (
            sym (chain-no_packet ps (others prev) (has_packet-others prev))
            ∙ ap (chain ps)
                (sym (and_then-nothing prev) ∙ ap (and_then prev) (sym (eval-drop p d))))
        | inr d ↦ rw d (eval_seq-eq-chain ps (and_then prev (eval p)))
      ])
    ])
  ]

  pub chain-concat :
      (ps qs : Policies) (prev : List Event) → chain (concat ps qs) prev ≡ chain qs (chain ps prev)
  unfolding chain concat
  chain-concat nil qs prev = refl
  chain-concat (cons p ps) qs prev = chain-concat ps qs (and_then prev (eval p))

  pub chain-eq-and_then :
      (ps : Policies) (prev : List Event)
      → chain ps prev ≡ and_then prev (λ p. chain ps (emit p ∷ []))
  unfolding chain
  chain-eq-and_then nil prev = sym (and_then-emit prev)
  chain-eq-and_then (cons p ps) prev =
      chain-eq-and_then ps (and_then prev (eval p))
      ∙ and_then_assoc prev (eval p) (λ q. chain ps (emit q ∷ []))
      ∙ ap (and_then prev) (
          fun_ext (λ q.
            sym (chain-eq-and_then ps (eval p q))
            ∙ ap (chain ps) (sym (unfold and_then in append-nil (eval p q)))))

  chain-single : (p : Policy) (pkt : Packet) → chain (cons p nil) (emit pkt ∷ []) ≡ eval p pkt
  unfolding chain and_then
  chain-single p pkt = append-nil (eval p pkt)

  chain-sequence_items :
      (p : Policy) (pkt : Packet) → chain (sequence_items p) (emit pkt ∷ []) ≡ eval p pkt
  unfolding eval
  chain-sequence_items (sequential ps) pkt = sym (eval_seq-eq-chain ps (emit pkt ∷ []))
  chain-sequence_items (intersection ps) pkt = sym (eval_seq-eq-chain ps (emit pkt ∷ []))
  chain-sequence_items identity pkt = chain-single identity pkt
  chain-sequence_items drop pkt = chain-single drop pkt
  chain-sequence_items controller pkt = chain-single controller pkt
  chain-sequence_items (match m) pkt = chain-single (match m) pkt
  chain-sequence_items (modify m) pkt = chain-single (modify m) pkt
  chain-sequence_items (query b) pkt = chain-single (query b) pkt
  chain-sequence_items (negate p) pkt = chain-single (negate p) pkt
  chain-sequence_items (parallel ps) pkt = chain-single (parallel ps) pkt
  chain-sequence_items (union ps) pkt = chain-single (union ps) pkt
  chain-sequence_items (derived p) pkt = chain-single (derived p) pkt
  chain-sequence_items (if_ pred t f p) pkt = chain-single (if_ pred t f p) pkt

  -- `p >> q`, which flattens sequences on both sides, has the outcome of evaluating `q` on each
  -- packet that `p` returns.
  pub eval-policy_rshift :
      (p q : Policy) (pkt : Packet) → eval (policy_rshift p q) pkt ≡ and_then (eval p pkt) (eval q)
  unfolding policy_rshift eval
  eval-policy_rshift p q pkt =
      eval_seq-eq-chain (concat (sequence_items p) (sequence_items q)) (emit pkt ∷ [])
      ∙ chain-concat (sequence_items p) (sequence_items q) (emit pkt ∷ [])
      ∙ ap (chain (sequence_items q)) (chain-sequence_items p pkt)
      ∙ chain-eq-and_then (sequence_items q) (eval p pkt)
      ∙ ap (and_then (eval p pkt)) (fun_ext (chain-sequence_items q))

  eval_all-concat :
      (ps qs : Policies) (pkt : Packet)
      → eval_all (concat ps qs) pkt ≡ eval_all ps pkt ++ eval_all qs pkt
  unfolding eval_all concat
  eval_all-concat nil qs pkt = refl
  eval_all-concat (cons p ps) qs pkt =
      ap (λ r. eval p pkt ++ r) (eval_all-concat ps qs pkt)
      ∙ sym (append_assoc (eval p pkt) (eval_all ps pkt) (eval_all qs pkt))

  eval_all-parallel_items :
      (p : Policy) (pkt : Packet) → eval_all (parallel_items p) pkt ≡ eval p pkt
  unfolding eval
  eval_all-parallel_items (parallel ps) pkt = refl
  eval_all-parallel_items (union ps) pkt = refl
  eval_all-parallel_items p pkt = append-nil (eval p pkt)

  -- `p + q`, which flattens parallel compositions on both sides, has the outcomes of `p` and of
  -- `q`.
  pub eval-policy_add :
      (p q : Policy) (pkt : Packet) → eval (policy_add p q) pkt ≡ eval p pkt ++ eval q pkt
  unfolding policy_add eval
  eval-policy_add p q pkt =
      eval_all-concat (parallel_items p) (parallel_items q) pkt
      ∙ ap₂ ◌++◌ (eval_all-parallel_items p pkt) (eval_all-parallel_items q pkt)
