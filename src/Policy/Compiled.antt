-- ===== src/Policy/Compiled.antt =====
-- The result of a compilation, and the compilations of the primitive policies and one step.
use pyretic.Base.{Option, some, List, [], ◌∷◌, ◌++◌, ◌≡◌, refl, ◌∙◌, arith, All, if◌then◌else◌}
use pyretic.Packet.{Packet}
use pyretic.Ipaddr.{Ipaddr}
use pyretic.Match.{MatchMap, Pred, match_eval, pred_eval}
use pyretic.Match.Meaning.{Untagged}
use pyretic.Action.{Action, Event, action_eval}
use pyretic.Action.Events.{SameViews, SameViews-trans, SameViews-of_eq, and_then}
use pyretic.Classifier.{Classifier, lookup, actions_eval, add, sequence, invert}
use pyretic.Classifier.Sequence.{AtMostOne, PlainAction}
use pyretic.Classifier.Inherit.{sequence-AtMostOne}
use pyretic.Classifier.Outcome.{outcome, outcome-eq}
use pyretic.Policy.{Policy, match, eval, negate_eval, compile, ◌>>=◌}
use pyretic.Policy.Support.{PureFilter, OneAction}
use pyretic.Policy.Good.{
  FilterActions, FilterRules, OneRules, FilterRules-OneRules, Good, Good-single, Good-add,
  Good-sequence, add-FilterRules, sequence-FilterRules,
}
use pyretic.Policy.Negate.{Good-invert}

module _ ⦃i : Ipaddr⦄ where
  -- The result of a compilation, and what its rules are like.
  pub record Compiled (result : Option Classifier) (f : Packet → List Event) (F O : Type 0)
      : Type 0 where
    pub classifier : Classifier
    pub is_result : result ≡ some classifier
    pub good : Good classifier f
    pub filter : F → FilterRules classifier
    pub one : O → OneRules classifier

  pub Good-SameViews :
      (c : Classifier) (f g : Packet → List Event)
      → ((pkt : Packet) → SameViews (f pkt) (g pkt))
      → Good c f
      → Good c g
  Good-SameViews c f g h k = record {
    total = k.total;
    plain = k.plain;
    same = λ pkt. SameViews-trans (outcome c pkt) (f pkt) (g pkt) (k.same pkt) (h pkt);
  }

  pub Compiled-single :
      (acts : List Action) (f : Packet → List Event) (F O : Type 0)
      → All PlainAction acts
      → ((pkt : Packet) → SameViews (actions_eval acts pkt) (f pkt))
      → (F → FilterActions acts)
      → AtMostOne acts
      → Compiled (some (record { mat = Pred.identity; actions = acts } ∷ [])) f F O
  Compiled-single acts f F O plain same filter one = record {
    classifier = record { mat = Pred.identity; actions = acts } ∷ [];
    is_result = refl;
    good = Good-single acts f plain same;
    filter = λ h. (filter h, tt);
    one = λ h. (one, tt);
  }

  match_lookup :
      (m : MatchMap) (pkt : Packet)
      → lookup
          (record { mat = Pred.match m; actions = Action.identity ∷ [] }
            ∷ record { mat = Pred.identity; actions = [] }
            ∷ [])
          pkt
        ≡ some (if match_eval m pkt then Action.identity ∷ [] else [])
  unfolding lookup pred_eval
  match_lookup m pkt = ground arith

  match_same :
      (m : MatchMap) (pkt : Packet)
      → actions_eval (if match_eval m pkt then Action.identity ∷ [] else []) pkt
        ≡ eval (match m) pkt
  unfolding actions_eval action_eval eval
  match_same m pkt = ground arith

  pub Compiled-match :
      (m : MatchMap) (F O : Type 0) → Untagged m → Compiled (compile (match m)) (eval (match m)) F O
  unfolding compile
  Compiled-match m F O h =
      let c =
        record { mat = Pred.match m; actions = Action.identity ∷ [] }
        ∷ record { mat = Pred.identity; actions = [] }
        ∷ [] in
      record {
        classifier = c;
        is_result = refl;
        good = record {
          total =
              λ pkt. ((if match_eval m pkt then Action.identity ∷ [] else []), match_lookup m pkt);
          plain = (
            record { untagged = h; plain = (tt, tt) },
            (record { untagged = tt; plain = tt }, tt),
          );
          same = λ pkt. SameViews-of_eq (outcome-eq c pkt (match_lookup m pkt) ∙ match_same m pkt);
        };
        filter = λ k. (tt, (tt, tt));
        one = λ k. (tt, (tt, tt));
      }

  pub Compiled-negate :
      (result : Option Classifier) (f : Packet → List Event) (F O O2 : Type 0)
      → F
      → Compiled result f F O
      → Compiled (result >>= invert) (λ pkt. negate_eval (f pkt) pkt) F O2
  Compiled-negate result f F O O2 is_filter c =
      let (d, is_inverse, good, filter) = Good-invert c.classifier f (c.filter is_filter) c.good in
      record {
        classifier = d;
        is_result = rw c.is_result is_inverse;
        good = good;
        filter = λ h. filter;
        one = λ h. FilterRules-OneRules d filter;
      }

  abbrev pub CompiledAs : Policy → Type 0
  CompiledAs p = Compiled (compile p) (eval p) (PureFilter p) (OneAction p)

  pub step_add :
      (acc : Classifier) (result : Option Classifier) (f g : Packet → List Event) (F O : Type 0)
      → Good acc f
      → Compiled result g F O
      → (c : Classifier) × (result ≡ some c)
        × Good (add acc c) (λ pkt. f pkt ++ g pkt)
        × (FilterRules acc → F → FilterRules (add acc c))
  step_add acc result f g F O ga c = (
    c.classifier,
    c.is_result,
    Good-add acc c.classifier f g ga c.good,
    λ fa h. add-FilterRules acc c.classifier fa (c.filter h),
  )

  pub step_sequence :
      (acc : Classifier) (result : Option Classifier) (f g : Packet → List Event) (F O : Type 0)
      → OneRules acc
      → Good acc f
      → Compiled result g F O
      → (c : Classifier) × (result ≡ some c)
        × Good (sequence acc c) (λ pkt. and_then (f pkt) g)
        × (FilterRules acc → F → FilterRules (sequence acc c))
        × (O → OneRules (sequence acc c))
  step_sequence acc result f g F O one ga c = (
    c.classifier,
    c.is_result,
    Good-sequence acc c.classifier f g one ga c.good,
    λ fa h. sequence-FilterRules acc c.classifier fa (c.filter h),
    λ h. sequence-AtMostOne acc c.classifier one (c.one h),
  )
