-- ===== src/Policy/Branches.antt =====
-- core/language.py, class if_: the policy that it compiles does what its own evaluation does.
use mathlib.Core.List.{append-nil}
use pyretic.Base.{
  true, false, List, [], ◌∷◌, ◌++◌, ◌≡◌, refl, ◌∙◌, ap, ap₂, arith, Bool-cases, inl, inr,
  if◌then◌else◌,
}
use pyretic.Packet.{Packet}
use pyretic.Ipaddr.{Ipaddr}
use pyretic.Action.{Event, emit, collect, raised}
use pyretic.Action.Events.{
  SameViews, SameViews-trans, SameViews-of_eq, SameViews-append, and_then, In-views-append,
}
use pyretic.Policy.{
  Policy, negate, if_, eval, has_packet, others, negate_eval, branches, policy_rshift,
}
use pyretic.Policy.Eval.{eval-policy_rshift, eval-policy_add}
use pyretic.Policy.Support.{PureFilter}
use pyretic.Policy.Pure.{eval-IsPure}
use pyretic.Policy.Negate.{IsPure, IsPure-others}

SameViews-twice : (es : List Event) → SameViews (es ++ es) es
SameViews-twice es v = (
  λ h. elim ((In-views-append v es es).0 h) [ inl a ↦ a | inr b ↦ b ],
  λ h. (In-views-append v es es).1 (inl h),
)

module _ ⦃i : Ipaddr⦄ where
  -- What follows on a packet that was returned, any number of times.
  pub IsPure-pass :
      (pkt : Packet) (es : List Event) (f : Packet → List Event)
      → IsPure pkt es
      → has_packet es ≡ true
      → SameViews (and_then es f) (f pkt)
  unfolding and_then has_packet
  IsPure-pass pkt [] f h k = absurd (ground arith)
  IsPure-pass pkt (emit p ∷ []) f h k = SameViews-of_eq (append-nil (f p) ∙ ap f h.0)
  IsPure-pass pkt (emit p ∷ emit q ∷ es) f h k =
      SameViews-trans (f p ++ and_then (emit q ∷ es) f) (f pkt ++ f pkt) (f pkt)
        (SameViews-append (f p) (f pkt) (and_then (emit q ∷ es) f) (f pkt)
          (SameViews-of_eq (ap f h.0)) (IsPure-pass pkt (emit q ∷ es) f h.1 refl))
        (SameViews-twice (f pkt))
  IsPure-pass pkt (emit p ∷ collect b q ∷ es) f h k = absurd h.1
  IsPure-pass pkt (emit p ∷ raised ∷ es) f h k = absurd h.1
  IsPure-pass pkt (collect b p ∷ es) f h k = absurd h
  IsPure-pass pkt (raised ∷ es) f h k = absurd h

  pub IsPure-block :
      (pkt : Packet) (es : List Event) → IsPure pkt es → has_packet es ≡ false → es ≡ []
  unfolding has_packet
  IsPure-block pkt [] h k = refl
  IsPure-block pkt (emit p ∷ es) h k = ground arith
  IsPure-block pkt (collect b p ∷ es) h k = absurd h
  IsPure-block pkt (raised ∷ es) h k = absurd h

  branches_pass :
      (pkt : Packet) (es : List Event) (t f : Packet → List Event)
      → IsPure pkt es
      → SameViews
          (and_then es t ++ and_then (negate_eval es pkt) f)
          (others es ++ (if has_packet es then t pkt else f pkt))
  unfolding negate_eval and_then
  branches_pass pkt es t f h = elim (Bool-cases (has_packet es)) [
    | inl e ↦
        rw (IsPure-others pkt es h, e)
          (SameViews-trans (and_then es t ++ []) (and_then es t) (t pkt)
            (SameViews-of_eq (append-nil (and_then es t))) (IsPure-pass pkt es t h e))
    | inr e ↦
        rw (IsPure-others pkt es h, e, IsPure-block pkt es h e)
          (SameViews-of_eq (append-nil (f pkt)))
  ]

  eval-branches :
      (pred t f : Policy) (pkt : Packet)
      → eval (branches pred t f) pkt
        ≡ and_then (eval pred pkt) (eval t) ++ and_then (negate_eval (eval pred pkt) pkt) (eval f)
  unfolding branches eval
  eval-branches pred t f pkt =
      eval-policy_add (policy_rshift pred t) (policy_rshift (negate pred) f) pkt
      ∙ ap₂ ◌++◌ (eval-policy_rshift pred t pkt) (eval-policy_rshift (negate pred) f pkt)

  -- For a condition that is a filter made of identity, drop, matches and their compositions, the
  -- policy that `if_` builds for compilation shows what the evaluation of `if_` shows.
  pub eval-if_ :
      (pred t f p : Policy) (pkt : Packet)
      → PureFilter pred
      → p ≡ branches pred t f
      → SameViews (eval p pkt) (eval (if_ pred t f p) pkt)
  unfolding eval
  eval-if_ pred t f p pkt h e =
      rw (e, eval-branches pred t f pkt)
        (branches_pass pkt (eval pred pkt) (eval t) (eval f) (eval-IsPure pred h pkt))
