-- ===== src/Policy/Negate.antt =====
-- Inverting the classifier of a filter.
use mathlib.Core.List.{append-nil}
use pyretic.Base.{
  true, Option, none, some, List, [], ◌∷◌, ◌≡◌, refl, ◌∙◌, ap, arith, All, Bool-cases, inl, inr, In,
}
use pyretic.Packet.{Packet}
use pyretic.Ipaddr.{Ipaddr}
use pyretic.Match.{pred_eval}
use pyretic.Action.{Action, Event, emit, collect, raised, action_eval}
use pyretic.Action.Events.{View, emitted, hit, failed, view, views, SameViews, SameViews-refl}
use pyretic.Classifier.{Classifier, lookup, actions_eval, invert, invert_actions}
use pyretic.Classifier.Lookup.{lookup-All}
use pyretic.Classifier.Sequence.{Plain, PlainAction}
use pyretic.Classifier.Outcome.{outcome-eq}
use pyretic.Policy.{has_packet, others, negate_eval}
use pyretic.Policy.Good.{FilterActions, FilterRules, Good}

-- The actions of the inverted rule.
abbrev flip : List Action → List Action
flip [] = Action.identity ∷ []
flip (_ ∷ _) = []

abbrev flip_found : Option (List Action) → Option (List Action)
flip_found none = none
flip_found (some acts) = some (flip acts)

-- An evaluation that shows nothing, and one that shows the packet only.
no_events : (es : List Event) → SameViews [] es → es ≡ []
unfolding view
no_events [] h = refl
no_events (emit p ∷ es) h = absurd ((h (emitted p)).1 (inl refl))
no_events (collect b p ∷ es) h = absurd ((h (hit b)).1 (inl refl))
no_events (raised ∷ es) h = absurd ((h failed).1 (inl refl))

-- Every event returns `pkt`.
abbrev pub IsPure : Packet → List Event → Type 0
IsPure pkt [] = Unit
IsPure pkt (emit p ∷ es) = (p ≡ pkt) × IsPure pkt es
IsPure pkt _ = ⊥

pub IsPure-others : (pkt : Packet) (es : List Event) → IsPure pkt es → others es ≡ []
unfolding others
IsPure-others pkt [] h = refl
IsPure-others pkt (emit p ∷ es) h = IsPure-others pkt es h.1
IsPure-others pkt (collect b p ∷ es) h = absurd h
IsPure-others pkt (raised ∷ es) h = absurd h

same_packet : (p pkt : Packet) → In (emitted p) (emitted pkt ∷ []) → p ≡ pkt
same_packet p pkt (inl e) = ground arith
same_packet p pkt (inr k) = absurd k

only_packet :
    (pkt : Packet) (es : List Event)
    → ((v : View) → In v (views es) → In v (emitted pkt ∷ []))
    → IsPure pkt es
unfolding view
only_packet pkt [] h = tt
only_packet pkt (emit p ∷ es) h =
    (same_packet p pkt (h (emitted p) (inl refl)), only_packet pkt es (λ v k. h v (inr k)))
only_packet pkt (collect b p ∷ es) h = elim (h (hit b) (inl refl)) [
  | inl e ↦ absurd (ground arith)
  | inr k ↦ absurd k
]
only_packet pkt (raised ∷ es) h = elim (h failed (inl refl)) [
  | inl e ↦ absurd (ground arith)
  | inr k ↦ absurd k
]

shows_packet : (p : Packet) (es : List Event) → In (emitted p) (views es) → has_packet es ≡ true
unfolding has_packet view
shows_packet p [] k = absurd k
shows_packet p (emit q ∷ es) k = refl
shows_packet p (collect b q ∷ es) (inl e) = absurd (ground arith)
shows_packet p (collect b q ∷ es) (inr k) = shows_packet p es k
shows_packet p (raised ∷ es) (inl e) = absurd (ground arith)
shows_packet p (raised ∷ es) (inr k) = shows_packet p es k

negate_nothing :
    (pkt : Packet) (es : List Event) → SameViews [] es → negate_eval es pkt ≡ emit pkt ∷ []
unfolding negate_eval
negate_nothing pkt es h = rw (no_events es h)

negate_packet :
    (pkt : Packet) (es : List Event) → SameViews (emit pkt ∷ []) es → negate_eval es pkt ≡ []
unfolding negate_eval view
negate_packet pkt es h =
    rw (shows_packet pkt es ((h (emitted pkt)).0 (inl refl)))
      (append-nil (others es) ∙ IsPure-others pkt es (only_packet pkt es (λ v k. (h v).1 k)))

module _ ⦃i : Ipaddr⦄ where
  -- The inverted classifier: what it is, and what a look-up in it gives.
  pub record Inverted (c : Classifier) : Type 0 where
    pub result : Classifier
    pub is_result : invert c ≡ some result
    pub found : (pkt : Packet) → lookup result pkt ≡ flip_found (lookup c pkt)
    pub filter : FilterRules result
    pub plain : All Plain result

  invert_head : (acts : List Action) → FilterActions acts → invert_actions acts ≡ some (flip acts)
  invert_head [] h = refl
  invert_head (Action.identity ∷ []) h = refl
  invert_head _ h = ground arith

  flip-FilterActions : (acts : List Action) → FilterActions (flip acts)
  flip-FilterActions [] = tt
  flip-FilterActions (a ∷ acts) = tt

  flip-PlainAction : (acts : List Action) → All PlainAction (flip acts)
  flip-PlainAction [] = (tt, tt)
  flip-PlainAction (a ∷ acts) = tt

  -- A filter's classifier can be inverted, rule by rule.
  pub invert-Inverted : (c : Classifier) → FilterRules c → All Plain c → Inverted c
  unfolding invert lookup
  invert-Inverted [] h p = record {
    result = [];
    is_result = refl;
    found = λ pkt. refl;
    filter = tt;
    plain = tt;
  }
  invert-Inverted (r ∷ c) (h, hs) (p, ps) =
      let rest = invert-Inverted c hs ps in
      record {
        result = record { mat = r.mat; actions = flip r.actions } ∷ rest.result;
        is_result = rw (invert_head r.actions h, rest.is_result);
        found = λ pkt. elim (Bool-cases (pred_eval r.mat pkt)) [
          | inl e ↦ rw e
          | inr e ↦ rw e (rest.found pkt)
        ];
        filter = (flip-FilterActions r.actions, rest.filter);
        plain = (record { untagged = p.untagged; plain = flip-PlainAction r.actions }, rest.plain);
      }

  flip-same :
      (acts : List Action) (es : List Event) (pkt : Packet)
      → FilterActions acts
      → SameViews (actions_eval acts pkt) es
      → SameViews (actions_eval (flip acts) pkt) (negate_eval es pkt)
  unfolding actions_eval action_eval
  flip-same [] es pkt h k = rw (negate_nothing pkt es k) (SameViews-refl (emit pkt ∷ []))
  flip-same (Action.identity ∷ []) es pkt h k = rw (negate_packet pkt es k) (SameViews-refl [])
  flip-same (Action.identity ∷ b ∷ acts) es pkt h k = absurd h
  flip-same (a ∷ acts) es pkt h k = absurd h

  -- If the rules of a classifier pass or drop, every packet meets one, no rule mentions a tagging
  -- header, and on every packet the outcome shows what `f` shows, then inverting it raises no
  -- TypeError, and the inverted classifier has these properties again, for the negation of `f`.
  pub Good-invert :
      (c : Classifier) (f : Packet → List Event)
      → FilterRules c
      → Good c f
      → (d : Classifier) × (invert c ≡ some d)
        × Good d (λ pkt. negate_eval (f pkt) pkt)
        × FilterRules d
  Good-invert c f h g =
      let inverted = invert-Inverted c h g.plain in
      (
        inverted.result,
        inverted.is_result,
        record {
          total = λ pkt.
              let (acts, k) = g.total pkt in (flip acts, inverted.found pkt ∙ ap flip_found k);
          plain = inverted.plain;
          same = λ pkt.
              let (acts, k) = g.total pkt in
              rw (outcome-eq inverted.result pkt (inverted.found pkt ∙ ap flip_found k)) (
                flip-same acts (f pkt) pkt (lookup-All FilterActions c pkt h k)
                  (rw (outcome-eq c pkt k) at (g.same pkt)));
        },
        inverted.filter,
      )
