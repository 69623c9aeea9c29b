-- ===== src/Overlap/Sound.antt =====
-- lib/path.py, class classifier_utils: what the overlap found says of the packets.
use pyretic.Base.{
  Bool, true, false, ◌&&◌, not, Option, some, List, [], ◌∷◌, ◌≡◌, refl, sym, ◌∙◌, ap, arith, inl,
  inr, All, Bool-cases, Option-cases, none≢some, some_inj,
}
use pyretic.Packet.{Packet}
use pyretic.Ipaddr.{Ipaddr}
use pyretic.Action.{Action, emit, Event, collect, raised}
use pyretic.Action.Events.{SameViews, emitted, view}
use pyretic.Classifier.{Rule, Classifier, lookup, actions_eval}
use pyretic.Classifier
use pyretic.Classifier.Lookup.{eval-eq-run, lookup-All, run}
use pyretic.Policy.{Policy, eval, has_packet}
use pyretic.Policy.Support.{Supported}
use pyretic.Policy.Passes.{passes}
use pyretic.Policy.Compile.{compile_sound}
use pyretic.Overlap.{
  Overlap, filter_and, is_not_drop_classifier, is_not_drop, has_nonempty_intersection,
  get_overlap_mode, overlap_flags, is_filter, overlap, has_action,
}
use pyretic.Overlap.Both.{Plain, filter_and-And}

-- What the flags say of two answers.
pub record Right (o : Overlap) (a b : Bool) : Type 0 where
  pub equal : o.is_equal ≡ true → a ≡ b
  pub superset : o.is_superset ≡ true → b ≡ true → a ≡ true
  pub subset : o.is_subset ≡ true → a ≡ true → b ≡ true
  pub apart :
      o.is_equal ≡ false
      → o.is_superset ≡ false
      → o.is_subset ≡ false
      → o.intersects ≡ false
      → (a && b) ≡ false

overlap-Right :
    (nn nw z a b : Bool)
    → (nn ≡ false → (a && not b) ≡ false)
    → (nw ≡ false → (not a && b) ≡ false)
    → (z ≡ false → nn ≡ true → nw ≡ true → (a && b) ≡ false)
    → Right (overlap nn nw z) a b
overlap-Right nn nw z a b f g h = record {
  equal = λ k. ground (arith, f, g);
  superset = λ k l. ground (arith, g);
  subset = λ k l. ground (arith, f);
  apart = λ k l m n. ground (arith, h);
}

no_action : (acts : List Action) → has_action acts ≡ false → acts ≡ []
no_action [] h = refl
no_action (a ∷ acts) h = absurd (ground arith)

module _ ⦃i : Ipaddr⦄ where
  no_views : (es : List Event) → SameViews [] es → has_packet es ≡ false
  unfolding has_packet view
  no_views [] h = refl
  no_views (emit p ∷ es) h = absurd ((h (emitted p)).1 (inl refl))
  no_views (collect b p ∷ es) h = no_views es (λ v. (absurd, λ k. (h v).1 (inr k)))
  no_views (raised ∷ es) h = no_views es (λ v. (absurd, λ k. (h v).1 (inr k)))

  no_actions : (c : Classifier) → is_not_drop_classifier c ≡ false → All (λ r. r.actions ≡ []) c
  unfolding is_not_drop_classifier
  no_actions [] h = tt
  no_actions (r ∷ c) h = (no_action r.actions (ground arith), no_actions c (ground arith))

  drop_outcome :
      (c : Classifier) (pkt : Packet) (es : List Event)
      → is_not_drop_classifier c ≡ false
      → Classifier.eval c pkt ≡ some es
      → es ≡ []
  unfolding actions_eval
  drop_outcome c pkt es h e = elim (Option-cases (lookup c pkt)) [
    | inl none_found ↦
        absurd (none≢some (sym (eval-eq-run c pkt ∙ ap (λ o. run o pkt) none_found) ∙ e))
    | inr (acts, found) ↦
        let empty_actions = lookup-All (λ as'. as' ≡ []) c pkt (no_actions c h) found in
        some_inj (sym e ∙ eval-eq-run c pkt ∙ ap (λ o. run o pkt) (found ∙ ap some empty_actions))
  ]

  -- The answer of is_not_drop, which is right when it is no.
  pub record Answer (p : Policy) (result : Option Bool) : Type 0 where
    pub answer : Bool
    pub is_result : result ≡ some answer
    pub nothing : answer ≡ false → (pkt : Packet) → passes p pkt ≡ false

  is_not_drop-Answer : (p : Policy) → Supported p → Answer p (is_not_drop p)
  unfolding is_not_drop
  is_not_drop-Answer p h =
      let (c, e, runs) = compile_sound p h in
      record {
        answer = is_not_drop_classifier c;
        is_result = rw e refl;
        nothing = λ k pkt.
            let (es, is, same) = runs pkt in
            no_views (eval p pkt) (rw (drop_outcome c pkt es k is) at same);
      }

  -- The answer of has_nonempty_intersection.
  pub record Meets (p q : Policy) (result : Option Bool) : Type 0 where
    pub answer : Bool
    pub is_result : result ≡ some answer
    pub disjoint : answer ≡ false → (pkt : Packet) → (passes p pkt && passes q pkt) ≡ false

  meets : (p q : Policy) → Plain p → Plain q → Meets p q (has_nonempty_intersection p q)
  unfolding has_nonempty_intersection
  meets p q hp hq =
      let both = filter_and-And p q hp hq in
      let a = is_not_drop-Answer (filter_and p q) both.plain.0 in
      record {
        answer = a.answer;
        is_result = a.is_result;
        disjoint = λ k pkt. sym (both.both pkt) ∙ a.nothing k pkt;
      }

  overlap_flags-Right :
      (pred pred_neg new_pred new_pred_neg : Policy)
      → Plain pred
      → Plain pred_neg
      → Plain new_pred
      → Plain new_pred_neg
      → ((pkt : Packet) → passes pred_neg pkt ≡ not (passes pred pkt))
      → ((pkt : Packet) → passes new_pred_neg pkt ≡ not (passes new_pred pkt))
      → (o : Overlap) × (overlap_flags pred pred_neg new_pred new_pred_neg ≡ some o)
        × ((pkt : Packet) → Right o (passes pred pkt) (passes new_pred pkt))
  unfolding overlap_flags
  overlap_flags-Right p np q nq hp hnp hq hnq neg_p neg_q =
      let x = meets p nq hp hnq in
      let y = meets np q hnp hq in
      let z = meets p q hp hq in
      let say_x : (pkt : Packet) → x.answer ≡ false → (passes p pkt && not (passes q pkt)) ≡ false =
        λ pkt k. ap (λ b. passes p pkt && b) (sym (neg_q pkt)) ∙ x.disjoint k pkt in
      let say_y : (pkt : Packet) → y.answer ≡ false → (not (passes p pkt) && passes q pkt) ≡ false =
        λ pkt k. ap (λ b. b && passes q pkt) (sym (neg_p pkt)) ∙ y.disjoint k pkt in
      elim (Bool-cases (x.answer && y.answer)) [
        | inl e ↦ (
          overlap x.answer y.answer z.answer,
          rw (x.is_result, y.is_result, e, z.is_result) refl,
          λ pkt.
              overlap-Right x.answer y.answer z.answer (passes p pkt) (passes q pkt) (say_x pkt)
                (say_y pkt) (λ k _ _. z.disjoint k pkt),
        )
        | inr e ↦ (
          overlap x.answer y.answer false,
          rw (x.is_result, y.is_result, e) refl,
          λ pkt.
              overlap-Right x.answer y.answer false (passes p pkt) (passes q pkt) (say_x pkt)
                (say_y pkt) (λ k t u. absurd (ground arith)),
        )
      ]

  -- For supported policies that are made of identity, drop, matches and their compositions, that
  -- are instances of Filter, and of which two are the negations of the others, get_overlap_mode ends
  -- without an exception. If it says that the first filter is equal, a superset or a subset of the
  -- second, then it is on every packet, and if it says none of this and no intersection, then no
  -- packet passes both.
  pub get_overlap_mode-Right :
      (derived_filter : Policy → Bool) (pred pred_neg new_pred new_pred_neg : Policy)
      → Plain pred × (is_filter derived_filter pred ≡ true)
      → Plain pred_neg × (is_filter derived_filter pred_neg ≡ true)
      → Plain new_pred × (is_filter derived_filter new_pred ≡ true)
      → Plain new_pred_neg × (is_filter derived_filter new_pred_neg ≡ true)
      → ((pkt : Packet) → passes pred_neg pkt ≡ not (passes pred pkt))
      → ((pkt : Packet) → passes new_pred_neg pkt ≡ not (passes new_pred pkt))
      → (o : Overlap) × (get_overlap_mode derived_filter pred pred_neg new_pred new_pred_neg
          ≡ some o)
        × ((pkt : Packet) → Right o (passes pred pkt) (passes new_pred pkt))
  unfolding get_overlap_mode
  get_overlap_mode-Right derived_filter p np q nq (hp, ip) (hnp, inp) (hq, iq) (hnq, inq) neg_p
        neg_q =
      let (o, e, right) = overlap_flags-Right p np q nq hp hnp hq hnq neg_p neg_q in
      (o, rw (iq, ip, inp, inq) e, right)
