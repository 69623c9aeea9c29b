-- ===== src/Policy/Compile.antt =====
-- Compilation is correct: the classifier of a supported policy does what the policy does.
use mathlib.Core.List.{append-nil, append_assoc}
use pyretic.Base.{Option, some, List, [], ◌∷◌, ◌++◌, ◌≡◌, refl, sym, ◌∙◌, ap}
use pyretic.Packet.{Packet}
use pyretic.Ipaddr.{Ipaddr}
use pyretic.Match.{Pred}
use pyretic.Action.{Action, Bucket, rule_bucket, fwd_bucket, Event, emit, collect, action_eval}
use pyretic.Action.Events.{SameViews, SameViews-refl, SameViews-trans, SameViews-of_eq, and_then}
use pyretic.Classifier.{Rule, Classifier, lookup, actions_eval, add, sequence, invert}
use pyretic.Classifier
use pyretic.Classifier.Lookup.{run, eval-eq-run}
use pyretic.Classifier.Outcome.{outcome, outcome-eq}
use pyretic.Policy.{
  Policy, identity, drop, controller, match, modify, query, negate, parallel, union, sequential,
  intersection, derived, if_, Policies, nil, cons, eval, eval_all, eval_seq, compile,
  compile_parallel, add_all, compile_sequential, sequence_from,
}
use pyretic.Policy.Eval.{chain, eval_seq-eq-chain}
use pyretic.Policy.Support.{
  PureFilter, PureFilters, OneAction, OneActions, Supported, SupportedAll, SupportedSequence,
  SupportedFrom,
}
use pyretic.Policy.Good.{FilterRules, OneRules, FilterRules-OneRules, Good}
use pyretic.Policy.Compiled.{
  Compiled, CompiledAs, Good-SameViews, Compiled-single, Compiled-match, Compiled-negate, step_add,
  step_sequence,
}
use pyretic.Policy.Branches.{eval-if_}

module _ ⦃i : Ipaddr⦄ where
  first_of_chain :
      (p : Policy) (ps : Policies) (pkt : Packet)
      → eval_seq (cons p ps) (emit pkt ∷ []) ≡ chain ps (eval p pkt)
  unfolding chain and_then
  first_of_chain p ps pkt =
      eval_seq-eq-chain (cons p ps) (emit pkt ∷ []) ∙ ap (chain ps) (append-nil (eval p pkt))

  abbrev Added : Option Classifier → Classifier → (Packet → List Event) → Policies → Type 0
  Added result acc f ps =
      (c : Classifier) × (result ≡ some c)
      × Good c (λ pkt. f pkt ++ eval_all ps pkt)
      × (FilterRules acc → PureFilters ps → FilterRules c)

  abbrev Sequenced : Option Classifier → Classifier → (Packet → List Event) → Policies → Type 0
  Sequenced result acc f ps =
      (c : Classifier) × (result ≡ some c)
      × Good c (λ pkt. chain ps (f pkt))
      × (FilterRules acc → PureFilters ps → FilterRules c)
      × (OneRules acc → OneActions ps → OneRules c)

  Compiled-query :
      (b : Bucket)
      → Compiled
          (some (record { mat = Pred.identity; actions = Action.query b ∷ [] } ∷ []))
          (λ pkt. collect (rule_bucket b) pkt ∷ [])
          ⊥
          Unit
  unfolding actions_eval action_eval
  Compiled-query b =
      Compiled-single (Action.query b ∷ []) (λ pkt. collect (rule_bucket b) pkt ∷ []) ⊥ Unit
        (tt, tt) (λ pkt. SameViews-refl (collect (rule_bucket b) pkt ∷ [])) (λ k. absurd k) tt

  mutual
    unfolding compile eval chain actions_eval action_eval

    compile-CompiledAs : (p : Policy) → Supported p → CompiledAs p
    compile-CompiledAs identity h =
        Compiled-single (Action.identity ∷ []) (eval identity) Unit Unit (tt, tt)
          (λ pkt. SameViews-refl (emit pkt ∷ [])) (λ k. tt) tt
    compile-CompiledAs drop h =
        Compiled-single [] (eval drop) Unit Unit tt (λ pkt. SameViews-refl []) (λ k. tt) tt
    compile-CompiledAs controller h =
        Compiled-single (Action.controller ∷ []) (eval controller) ⊥ Unit (tt, tt)
          (λ pkt. SameViews-refl []) (λ k. absurd k) tt
    compile-CompiledAs (match m) h = Compiled-match m Unit Unit h
    compile-CompiledAs (modify m) h =
        Compiled-single (Action.modify m ∷ []) (eval (modify m)) ⊥ Unit (h, tt)
          (λ pkt. SameViews-refl (eval (modify m) pkt)) (λ k. absurd k) tt
    compile-CompiledAs (query (fwd_bucket n)) h = absurd h
    compile-CompiledAs (query (rule_bucket b)) h = Compiled-query b
    compile-CompiledAs (negate p) h =
        Compiled-negate (compile p) (eval p) (PureFilter p) (OneAction p) Unit h.1
          (compile-CompiledAs p h.0)
    compile-CompiledAs (parallel ps) h = compile_parallel-Compiled ps h
    compile-CompiledAs (union ps) h = compile_parallel-Compiled ps h
    compile-CompiledAs (sequential ps) h = compile_sequential-Compiled ps h
    compile-CompiledAs (intersection ps) h = compile_sequential-Compiled ps h
    compile-CompiledAs (derived p) h = compile-CompiledAs p h
    compile-CompiledAs (if_ pred t f p) h =
        let c = compile-CompiledAs p h.0 in
        record {
          classifier = c.classifier;
          is_result = c.is_result;
          good =
              Good-SameViews c.classifier (eval p) (eval (if_ pred t f p))
                (λ pkt. eval-if_ pred t f p pkt h.1 h.2) c.good;
          filter = λ k. absurd k;
          one = λ k. absurd k;
        }

    compile_parallel-Compiled :
        (ps : Policies)
        → SupportedAll ps
        → Compiled (compile_parallel ps) (eval_all ps) (PureFilters ps) (PureFilters ps)
    compile_parallel-Compiled nil h =
        Compiled-single [] (eval_all nil) Unit Unit tt (λ pkt. SameViews-refl []) (λ k. tt) tt
    compile_parallel-Compiled (cons p ps) h =
        let first = compile-CompiledAs p h.0 in
        let (c, e, good, filter) = add_all-Added ps first.classifier (eval p) first.good h.1 in
        record {
          classifier = c;
          is_result = rw first.is_result e;
          good = good;
          filter = λ k. filter (first.filter k.0) k.1;
          one = λ k. FilterRules-OneRules c (filter (first.filter k.0) k.1);
        }

    compile_sequential-Compiled :
        (ps : Policies)
        → SupportedSequence ps
        → Compiled
            (compile_sequential ps)
            (λ pkt. eval_seq ps (emit pkt ∷ []))
            (PureFilters ps)
            (OneActions ps)
    compile_sequential-Compiled nil h = absurd h
    compile_sequential-Compiled (cons p ps) h =
        let first = compile-CompiledAs p h.0 in
        let (c, e, good, filter, one) =
          sequence_from-Sequenced p ps first.classifier (eval p) first.good first.one h.1 in
        record {
          classifier = c;
          is_result = rw first.is_result e;
          good =
              Good-SameViews c (λ pkt. chain ps (eval p pkt))
                (λ pkt. eval_seq (cons p ps) (emit pkt ∷ []))
                (λ pkt. SameViews-of_eq (sym (first_of_chain p ps pkt))) good;
          filter = λ k. filter (first.filter k.0) k.1;
          one = λ k. one (first.one k.0) k.1;
        }

    add_all-Added :
        (ps : Policies) (acc : Classifier) (f : Packet → List Event)
        → Good acc f
        → SupportedAll ps
        → Added (add_all acc ps) acc f ps
    add_all-Added nil acc f g h = (
      acc,
      refl,
      Good-SameViews acc f (λ pkt. f pkt ++ []) (λ pkt. SameViews-of_eq (sym (append-nil (f pkt))))
          g,
      λ fa k. fa,
    )
    add_all-Added (cons p ps) acc f g h =
        let (c, e, good, filter) =
          step_add acc (compile p) f (eval p) (PureFilter p) (OneAction p) g
            (compile-CompiledAs p h.0) in
        let (d, e', good', filter') =
          add_all-Added ps (add acc c) (λ pkt. f pkt ++ eval p pkt) good h.1 in
        (
          d,
          rw e e',
          Good-SameViews d (λ pkt. (f pkt ++ eval p pkt) ++ eval_all ps pkt)
              (λ pkt. f pkt ++ (eval p pkt ++ eval_all ps pkt))
              (λ pkt. SameViews-of_eq (append_assoc (f pkt) (eval p pkt) (eval_all ps pkt))) good',
          λ fa k. filter' (filter fa k.0) k.1,
        )

    sequence_from-Sequenced :
        (q : Policy) (ps : Policies) (acc : Classifier) (f : Packet → List Event)
        → Good acc f
        → (OneAction q → OneRules acc)
        → SupportedFrom q ps
        → Sequenced (sequence_from acc ps) acc f ps
    sequence_from-Sequenced q nil acc f g one h = (acc, refl, g, λ fa k. fa, λ o k. o)
    sequence_from-Sequenced q (cons p ps) acc f g one h =
        let (c, e, good, filter, one') =
          step_sequence acc (compile p) f (eval p) (PureFilter p) (OneAction p) (one h.0) g
            (compile-CompiledAs p h.1) in
        let (d, e', good', filter', one_d) =
          sequence_from-Sequenced p ps (sequence acc c) (λ pkt. and_then (f pkt) (eval p)) good one'
            h.2 in
        (d, rw e e', good', λ fa k. filter' (filter fa k.0) k.1, λ o k. one_d (one' k.0) k.1)

  -- A supported policy compiles, and on every packet its classifier, run rule by rule, raises no
  -- TypeError: it returns the same packets and hits the same buckets as the policy's evaluation.
  pub compile_sound :
      (p : Policy)
      → Supported p
      → (c : Classifier) × (compile p ≡ some c)
        × ((pkt : Packet)
            → (es : List Event) × (Classifier.eval c pkt ≡ some es) × SameViews es (eval p pkt))
  compile_sound p h =
      let r = compile-CompiledAs p h in
      (
        r.classifier,
        r.is_result,
        λ pkt.
            let (acts, found) = r.good.total pkt in
            (
              actions_eval acts pkt,
              eval-eq-run r.classifier pkt ∙ ap (λ o. run o pkt) found,
              SameViews-trans (actions_eval acts pkt) (outcome r.classifier pkt) (eval p pkt)
                  (SameViews-of_eq (sym (outcome-eq r.classifier pkt found))) (r.good.same pkt),
            ),
      )
