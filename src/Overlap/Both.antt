-- ===== src/Overlap/Both.antt =====
-- core/language.py, `&` of filters: the filter that passes what both pass.
use pyretic.Base.{◌&&◌, ◌≡◌, refl, sym, ◌∙◌, ap, arith}
use pyretic.Packet.{Packet}
use pyretic.Ipaddr.{Ipaddr}
use pyretic.Match.{Pred, pred_eval, intersect}
use pyretic.Match.Meaning.{UntaggedPred}
use pyretic.Match.Intersect.{intersect-eval, intersect-UntaggedPred}
use pyretic.Policy.{
  Policy, identity, drop, match, negate, parallel, union, sequential, intersection, derived,
  Policies, nil, cons, concat, eval, has_packet,
}
use pyretic.Policy.Support.{
  PureFilter, PureFilters, OneAction, OneActions, Supported, SupportedSequence, SupportedFrom,
}
use pyretic.Policy.Passes.{passes, all_pass, has_packet-eval_seq}
use pyretic.Overlap.{policy_of, filter_and}

module _ ⦃i : Ipaddr⦄ where
  -- A filter that the compiler supports.
  abbrev pub Plain : Policy → Type 0
  Plain p = Supported p × PureFilter p

  mutual
    PureFilter-OneAction : (p : Policy) → PureFilter p → OneAction p
    PureFilter-OneAction identity h = tt
    PureFilter-OneAction drop h = tt
    PureFilter-OneAction (match m) h = tt
    PureFilter-OneAction (negate p) h = tt
    PureFilter-OneAction (parallel ps) h = h
    PureFilter-OneAction (union ps) h = h
    PureFilter-OneAction (sequential ps) h = PureFilters-OneActions ps h
    PureFilter-OneAction (intersection ps) h = PureFilters-OneActions ps h
    PureFilter-OneAction (derived p) h = PureFilter-OneAction p h
    PureFilter-OneAction _ h = absurd h

    PureFilters-OneActions : (ps : Policies) → PureFilters ps → OneActions ps
    PureFilters-OneActions nil h = tt
    PureFilters-OneActions (cons p ps) h =
        (PureFilter-OneAction p h.0, PureFilters-OneActions ps h.1)

  SupportedFrom-concat :
      (q : Policy) (ps qs : Policies)
      → PureFilter q
      → PureFilters ps
      → SupportedFrom q ps
      → PureFilters qs
      → SupportedSequence qs
      → SupportedFrom q (concat ps qs)
  unfolding concat
  SupportedFrom-concat q nil nil hq hp h hq' k = tt
  SupportedFrom-concat q nil (cons r qs) hq hp h hq' k = (PureFilter-OneAction q hq, k.0, k.1)
  SupportedFrom-concat q (cons p ps) qs hq hp h hq' k =
      (h.0, h.1, SupportedFrom-concat p ps qs hp.0 hp.1 h.2 hq' k)

  PureFilters-concat :
      (ps qs : Policies) → PureFilters ps → PureFilters qs → PureFilters (concat ps qs)
  unfolding concat
  PureFilters-concat nil qs hp hq = hq
  PureFilters-concat (cons p ps) qs hp hq = (hp.0, PureFilters-concat ps qs hp.1 hq)

  concat-Plain :
      (ps qs : Policies)
      → Plain (intersection ps)
      → Plain (intersection qs)
      → Plain (intersection (concat ps qs))
  unfolding concat
  concat-Plain nil qs h k = absurd h.0
  concat-Plain (cons p ps) qs h k = (
    (h.0.0, SupportedFrom-concat p ps qs h.1.0 h.1.1 h.0.1 k.1 k.0),
    (h.1.0, PureFilters-concat ps qs h.1.1 k.1),
  )

  all_pass-concat :
      (ps qs : Policies) (pkt : Packet)
      → all_pass (concat ps qs) pkt ≡ (all_pass ps pkt && all_pass qs pkt)
  unfolding concat
  all_pass-concat nil qs pkt = refl
  all_pass-concat (cons p ps) qs pkt = ground (arith, all_pass-concat ps qs pkt)

  passes-intersection :
      (ps : Policies) (pkt : Packet)
      → PureFilters ps
      → passes (intersection ps) pkt ≡ all_pass ps pkt
  unfolding eval
  passes-intersection ps pkt h = has_packet-eval_seq ps pkt h

  passes-concat :
      (ps qs : Policies) (pkt : Packet)
      → PureFilters ps
      → PureFilters qs
      → passes (intersection (concat ps qs)) pkt
        ≡ (passes (intersection ps) pkt && passes (intersection qs) pkt)
  passes-concat ps qs pkt hp hq =
      passes-intersection (concat ps qs) pkt (PureFilters-concat ps qs hp hq)
      ∙ all_pass-concat ps qs pkt
      ∙ rw (passes-intersection ps pkt hp, passes-intersection qs pkt hq) refl

  -- What `p & q` owes to `p` and `q`.
  pub record And (p q r : Policy) : Type 0 where
    pub plain : Plain r
    pub both : (pkt : Packet) → passes r pkt ≡ (passes p pkt && passes q pkt)

  passes-single :
      (p : Policy) (pkt : Packet)
      → PureFilter p
      → passes (intersection (cons p nil)) pkt ≡ passes p pkt
  passes-single p pkt h = passes-intersection (cons p nil) pkt (h, tt) ∙ ground arith

  pair-And : (p q : Policy) → Plain p → Plain q → And p q (intersection (cons p (cons q nil)))
  pair-And p q hp hq = record {
    plain = ((hp.0, (PureFilter-OneAction p hp.1, hq.0, tt)), (hp.1, (hq.1, tt)));
    both = λ pkt. passes-intersection (cons p (cons q nil)) pkt (hp.1, (hq.1, tt)) ∙ ground arith;
  }

  append-And :
      (ps : Policies) (q : Policy)
      → Plain (intersection ps)
      → Plain q
      → And (intersection ps) q (intersection (concat ps (cons q nil)))
  append-And ps q hp hq = record {
    plain = concat-Plain ps (cons q nil) hp ((hq.0, tt), (hq.1, tt));
    both = λ pkt.
        passes-concat ps (cons q nil) pkt hp.1 (hq.1, tt)
        ∙ ap (λ b. passes (intersection ps) pkt && b) (passes-single q pkt hq.1);
  }

  passes-policy_of : (p : Pred) (pkt : Packet) → passes (policy_of p) pkt ≡ pred_eval p pkt
  unfolding eval pred_eval has_packet
  passes-policy_of Pred.identity pkt = refl
  passes-policy_of Pred.drop pkt = refl
  passes-policy_of (Pred.match m) pkt = ground arith

  policy_of-Plain : (p : Pred) → UntaggedPred p → Plain (policy_of p)
  policy_of-Plain Pred.identity h = (tt, tt)
  policy_of-Plain Pred.drop h = (tt, tt)
  policy_of-Plain (Pred.match m) h = (h, tt)

  pub filter_and-And : (p q : Policy) → Plain p → Plain q → And p q (filter_and p q)
  unfolding filter_and
  filter_and-And (match m) (match n) hp hq = record {
    plain =
        policy_of-Plain (intersect (Pred.match m) (Pred.match n))
          (intersect-UntaggedPred (Pred.match m) (Pred.match n) hp.0 hq.0);
    both = λ pkt.
        passes-policy_of (intersect (Pred.match m) (Pred.match n)) pkt
        ∙ intersect-eval (Pred.match m) (Pred.match n) pkt hp.0 hq.0
        ∙ rw (sym (passes-policy_of (Pred.match m) pkt), sym (passes-policy_of (Pred.match n) pkt))
            refl;
  }
  filter_and-And (intersection ps) (intersection qs) hp hq = record {
    plain = concat-Plain ps qs hp hq;
    both = λ pkt. passes-concat ps qs pkt hp.1 hq.1;
  }
  filter_and-And (intersection ps) q hp hq = append-And ps q hp hq
  filter_and-And p q hp hq = pair-And p q hp hq
