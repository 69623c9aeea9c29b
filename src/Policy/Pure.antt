-- ===== src/Policy/Pure.antt =====
-- Filters: what the evaluation of identity, drop, matches and their compositions returns.
use pyretic.Base.{
  Bool, true, false, List, [], ◌∷◌, ◌++◌, refl, sym, subst, Bool-cases, inl, inr, if◌then◌else◌,
}
use pyretic.Packet.{Packet}
use pyretic.Ipaddr.{Ipaddr}
use pyretic.Match.{match_eval}
use pyretic.Action.{Event, emit, collect, raised}
use pyretic.Action.Events.{and_then}
use pyretic.Policy.{
  Policy, identity, drop, controller, match, modify, query, negate, parallel, union, sequential,
  intersection, derived, if_, Policies, nil, cons, eval, eval_all, has_packet, negate_eval,
}
use pyretic.Policy.Eval.{chain, eval_seq-eq-chain}
use pyretic.Policy.Support.{PureFilter, PureFilters}
use pyretic.Policy.Negate.{IsPure, IsPure-others}

module _ ⦃i : Ipaddr⦄ where
  -- A filter returns the packet that it is given, or nothing, and does nothing else.
  IsPure-append :
      (pkt : Packet) (es ds : List Event) → IsPure pkt es → IsPure pkt ds → IsPure pkt (es ++ ds)
  IsPure-append pkt [] ds h k = k
  IsPure-append pkt (emit p ∷ es) ds h k = (h.0, IsPure-append pkt es ds h.1 k)
  IsPure-append pkt (collect b p ∷ es) ds h k = absurd h
  IsPure-append pkt (raised ∷ es) ds h k = absurd h

  pub IsPure-and_then :
      (pkt : Packet) (es : List Event) (f : Packet → List Event)
      → IsPure pkt es
      → IsPure pkt (f pkt)
      → IsPure pkt (and_then es f)
  unfolding and_then
  IsPure-and_then pkt [] f h k = tt
  IsPure-and_then pkt (emit p ∷ es) f h k =
      IsPure-append pkt (f p) (and_then es f) (subst (λ q. IsPure pkt (f q)) (sym h.0) k)
        (IsPure-and_then pkt es f h.1 k)
  IsPure-and_then pkt (collect b p ∷ es) f h k = absurd h
  IsPure-and_then pkt (raised ∷ es) f h k = absurd h

  IsPure-match : (b : Bool) (pkt : Packet) → IsPure pkt (if b then emit pkt ∷ [] else [])
  IsPure-match true pkt = (refl, tt)
  IsPure-match false pkt = tt

  pub IsPure-negate :
      (pkt : Packet) (es : List Event) → IsPure pkt es → IsPure pkt (negate_eval es pkt)
  unfolding negate_eval
  IsPure-negate pkt es h =
      rw (IsPure-others pkt es h)
        (elim (Bool-cases (has_packet es)) [ inl e ↦ rw e tt | inr e ↦ rw e (refl, tt) ])

  mutual
    unfolding eval chain

    pub eval-IsPure : (p : Policy) → PureFilter p → (pkt : Packet) → IsPure pkt (eval p pkt)
    eval-IsPure identity h pkt = (refl, tt)
    eval-IsPure drop h pkt = tt
    eval-IsPure (match m) h pkt = IsPure-match (match_eval m pkt) pkt
    eval-IsPure (negate p) h pkt = IsPure-negate pkt (eval p pkt) (eval-IsPure p h pkt)
    eval-IsPure (parallel ps) h pkt = eval_all-IsPure ps h pkt
    eval-IsPure (union ps) h pkt = eval_all-IsPure ps h pkt
    eval-IsPure (sequential ps) h pkt =
        rw (eval_seq-eq-chain ps (emit pkt ∷ [])) (chain-IsPure ps h pkt (emit pkt ∷ []) (refl, tt))
    eval-IsPure (intersection ps) h pkt =
        rw (eval_seq-eq-chain ps (emit pkt ∷ [])) (chain-IsPure ps h pkt (emit pkt ∷ []) (refl, tt))
    eval-IsPure (derived p) h pkt = eval-IsPure p h pkt
    eval-IsPure controller h pkt = absurd h
    eval-IsPure (modify m) h pkt = absurd h
    eval-IsPure (query b) h pkt = absurd h
    eval-IsPure (if_ a b c d) h pkt = absurd h

    eval_all-IsPure :
        (ps : Policies) → PureFilters ps → (pkt : Packet) → IsPure pkt (eval_all ps pkt)
    eval_all-IsPure nil h pkt = tt
    eval_all-IsPure (cons p ps) h pkt =
        IsPure-append pkt (eval p pkt) (eval_all ps pkt) (eval-IsPure p h.0 pkt)
          (eval_all-IsPure ps h.1 pkt)

    chain-IsPure :
        (ps : Policies)
        → PureFilters ps
        → (pkt : Packet) (es : List Event) → IsPure pkt es
        → IsPure pkt (chain ps es)
    chain-IsPure nil h pkt es k = k
    chain-IsPure (cons p ps) h pkt es k =
        chain-IsPure ps h.1 pkt (and_then es (eval p))
          (IsPure-and_then pkt es (eval p) k (eval-IsPure p h.0 pkt))
