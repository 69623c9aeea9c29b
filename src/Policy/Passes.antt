-- ===== src/Policy/Passes.antt =====
-- Filters: does the evaluation of a composed filter return the packet?
use pyretic.Base.{
  true, false, Bool, ◌&&◌, ◌||◌, not, List, [], ◌∷◌, ◌++◌, ◌≡◌, refl, ◌∙◌, ap, arith, Bool-cases,
  inl, inr,
}
use pyretic.Packet.{Packet}
use pyretic.Ipaddr.{Ipaddr}
use pyretic.Action.{Event, emit, collect, raised}
use pyretic.Action.Events.{and_then}
use pyretic.Policy.{
  Policy, Policies, nil, cons, eval, eval_all, eval_seq, has_packet, others, negate_eval,
}
use pyretic.Policy.Eval.{chain, eval_seq-eq-chain}
use pyretic.Policy.Support.{PureFilters}
use pyretic.Policy.Negate.{IsPure}
use pyretic.Policy.Pure.{eval-IsPure, IsPure-and_then}

pub has_packet-append :
    (es ds : List Event) → has_packet (es ++ ds) ≡ (has_packet es || has_packet ds)
unfolding has_packet
has_packet-append [] ds = refl
has_packet-append (emit p ∷ es) ds = refl
has_packet-append (collect b p ∷ es) ds = has_packet-append es ds
has_packet-append (raised ∷ es) ds = has_packet-append es ds

has_packet-nothing : (es : List Event) → has_packet (others es ++ []) ≡ false
unfolding has_packet others
has_packet-nothing [] = refl
has_packet-nothing (emit p ∷ es) = has_packet-nothing es
has_packet-nothing (collect b p ∷ es) = has_packet-nothing es
has_packet-nothing (raised ∷ es) = has_packet-nothing es

has_packet-last : (es : List Event) (pkt : Packet) → has_packet (others es ++ emit pkt ∷ []) ≡ true
unfolding has_packet others
has_packet-last [] pkt = refl
has_packet-last (emit p ∷ es) pkt = has_packet-last es pkt
has_packet-last (collect b p ∷ es) pkt = has_packet-last es pkt
has_packet-last (raised ∷ es) pkt = has_packet-last es pkt

pub has_packet-negate_eval :
    (es : List Event) (pkt : Packet) → has_packet (negate_eval es pkt) ≡ not (has_packet es)
unfolding negate_eval
has_packet-negate_eval es pkt = elim (Bool-cases (has_packet es)) [
  | inl e ↦ rw e (has_packet-nothing es)
  | inr e ↦ rw e (has_packet-last es pkt)
]

has_packet-and_then :
    (es : List Event) (f : Packet → List Event) (pkt : Packet)
    → IsPure pkt es
    → has_packet (and_then es f) ≡ (has_packet es && has_packet (f pkt))
unfolding has_packet and_then
has_packet-and_then [] f pkt h = refl
has_packet-and_then (emit p ∷ es) f pkt h =
    has_packet-append (f p) (and_then es f)
    ∙ rw h.0 (ground (arith, has_packet-and_then es f pkt h.1))
has_packet-and_then (collect b p ∷ es) f pkt h = absurd h
has_packet-and_then (raised ∷ es) f pkt h = absurd h

module _ ⦃i : Ipaddr⦄ where
  abbrev pub passes : Policy → Packet → Bool
  passes p pkt = has_packet (eval p pkt)

  -- Do all of them return the packet? Does one?
  abbrev pub all_pass : Policies → Packet → Bool
  all_pass nil pkt = true
  all_pass (cons p ps) pkt = passes p pkt && all_pass ps pkt

  abbrev pub any_passes : Policies → Packet → Bool
  any_passes nil pkt = false
  any_passes (cons p ps) pkt = passes p pkt || any_passes ps pkt

  pub has_packet-eval_all :
      (ps : Policies) (pkt : Packet) → has_packet (eval_all ps pkt) ≡ any_passes ps pkt
  unfolding eval has_packet
  has_packet-eval_all nil pkt = refl
  has_packet-eval_all (cons p ps) pkt =
      has_packet-append (eval p pkt) (eval_all ps pkt)
      ∙ ap (λ b. passes p pkt || b) (has_packet-eval_all ps pkt)

  has_packet-chain :
      (ps : Policies) (es : List Event) (pkt : Packet)
      → PureFilters ps
      → IsPure pkt es
      → has_packet (chain ps es) ≡ (has_packet es && all_pass ps pkt)
  unfolding chain
  has_packet-chain nil es pkt h k = ground arith
  has_packet-chain (cons p ps) es pkt h k =
      has_packet-chain ps (and_then es (eval p)) pkt h.1
        (IsPure-and_then pkt es (eval p) k (eval-IsPure p h.0 pkt))
      ∙ rw (has_packet-and_then es (eval p) pkt k) (ground arith)

  -- The loop of sequential.eval returns the packet if all filters do.
  pub has_packet-eval_seq :
      (ps : Policies) (pkt : Packet)
      → PureFilters ps
      → has_packet (eval_seq ps (emit pkt ∷ [])) ≡ all_pass ps pkt
  unfolding has_packet
  has_packet-eval_seq ps pkt h =
      ap has_packet (eval_seq-eq-chain ps (emit pkt ∷ []))
      ∙ has_packet-chain ps (emit pkt ∷ []) pkt h (refl, tt)
