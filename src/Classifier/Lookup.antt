-- ===== src/Classifier/Lookup.antt =====
-- Evaluating a classifier is looking up its actions; looking up in a concatenation.
use pyretic.Base.{
  subst, Option, none, some, List, [], ◌∷◌, ◌++◌, ◌≡◌, refl, arith, All, Bool-cases, inl, inr,
}
use pyretic.Packet.{Packet}
use pyretic.Ipaddr.{Ipaddr}
use pyretic.Match.{pred_eval}
use pyretic.Match.Meaning.{UntaggedPred}
use pyretic.Action.{Action, Event}
use pyretic.Classifier.{Classifier, lookup, eval, actions_eval}

abbrev pub or_else {ℓ} : {A : Type ℓ} → Option A → Option A → Option A
or_else none y = y
or_else (some a) y = some a

-- The actions run on the packet.
abbrev pub run : Option (List Action) → Packet → Option (List Event)
run none pkt = none
run (some acts) pkt = some (actions_eval acts pkt)

module _ ⦃i : Ipaddr⦄ where
  abbrev pub UntaggedRules : Classifier → Type 0
  UntaggedRules = All (λ r. UntaggedPred r.mat)

  pub lookup-append :
      (c d : Classifier) (pkt : Packet)
      → lookup (c ++ d) pkt ≡ or_else (lookup c pkt) (lookup d pkt)
  unfolding lookup
  lookup-append [] d pkt = refl
  lookup-append (r ∷ c) d pkt = elim (Bool-cases (pred_eval r.mat pkt)) [
    | inl e ↦ rw e
    | inr e ↦ rw e (lookup-append c d pkt)
  ]

  pub eval-eq-run : (c : Classifier) (pkt : Packet) → eval c pkt ≡ run (lookup c pkt) pkt
  unfolding eval lookup
  eval-eq-run [] pkt = refl
  eval-eq-run (r ∷ c) pkt = ground (arith, eval-eq-run c pkt)

  -- What holds of the actions of all rules holds of those that a look-up gives.
  pub lookup-All :
      (Q : List Action → Type 0) (c : Classifier) (pkt : Packet) {acts : List Action}
      → All (λ r. Q r.actions) c
      → lookup c pkt ≡ some acts
      → Q acts
  unfolding lookup
  lookup-All Q [] pkt h e = cc
  lookup-All Q (r ∷ c) pkt {acts} (h, hs) e = elim (Bool-cases (pred_eval r.mat pkt)) [
    | inl m ↦ let k : r.actions ≡ acts = ground arith in subst Q k h
    | inr m ↦ let k : lookup c pkt ≡ some acts = ground arith in lookup-All Q c pkt hs k
  ]
