-- ===== src/Classifier/Actions.antt =====
-- What sets of actions show: unions, and the actions that follow a modification.
use mathlib.Core.List.{append-nil}
use pyretic.Base.{
  none, some, List, [], ◌∷◌, ◌++◌, ◌≡◌, refl, sym, ◌∙◌, ap, fun_ext, arith, All, inl, inr, ◌↔◌, In,
}
use pyretic.Packet.{Packet, ModifyMap, modifymany, header-modifymany}
use pyretic.Action.{Action, modify, controller, query, emit, action_eval, insert, union, In-union}
use pyretic.Action.Events.{
  View, views, view, SameViews, SameViews-refl, SameViews-trans, SameViews-of_views,
  SameViews-append, In-views-append,
}
use pyretic.Classifier.{actions_eval, modify_actions, then_modify}
use pyretic.Classifier.Commute.{PlainModify, modify_eval-plain}
use pyretic.Classifier.Sequence.{PlainAction}
use pyretic.Classifier.Inherit.{then_modify-PlainAction}

-- An action of the set shows the view.
abbrev ShownBy : View → List Action → Packet → Type 0
ShownBy v acts pkt = (a : Action) × In a acts × In v (views (action_eval a pkt))

shown_by :
    (v : View) (acts : List Action) (pkt : Packet)
    → In v (views (actions_eval acts pkt)) ↔ ShownBy v acts pkt
unfolding actions_eval
shown_by v [] pkt = (λ h. absurd h, λ (a, k, h). absurd k)
shown_by v (a ∷ acts) pkt =
    let split = In-views-append v (action_eval a pkt) (actions_eval acts pkt) in
    (
      λ h. elim (split.0 h) [
        | inl now ↦ (a, inl refl, now)
        | inr rest ↦ let (b, k, shown) = (shown_by v acts pkt).0 rest in (b, inr k, shown)
      ],
      λ (b, k, shown). split.1 (elim k [
        | inl e ↦ inl (rw e at shown)
        | inr later ↦ inr ((shown_by v acts pkt).1 (b, later, shown))
      ]),
    )

-- A union of actions does what both sets do.
pub actions_eval-union :
    (a b : List Action) (pkt : Packet)
    → SameViews (actions_eval (union a b) pkt) (actions_eval a pkt ++ actions_eval b pkt)
actions_eval-union a b pkt v =
    let split = In-views-append v (actions_eval a pkt) (actions_eval b pkt) in
    (
      λ h.
          let (x, k, shown) = (shown_by v (union a b) pkt).0 h in
          split.1 (elim ((In-union x a b).0 k) [
            | inl l ↦ inl ((shown_by v a pkt).1 (x, l, shown))
            | inr r ↦ inr ((shown_by v b pkt).1 (x, r, shown))
          ]),
      λ h. (shown_by v (union a b) pkt).1 (elim (split.0 h) [
        | inl l ↦
            let (x, k, shown) = (shown_by v a pkt).0 l in (x, (In-union x a b).1 (inl k), shown)
        | inr r ↦
            let (x, k, shown) = (shown_by v b pkt).0 r in (x, (In-union x a b).1 (inr k), shown)
      ]),
    )

-- Two plain modifications, one after the other, are the merged one.
modifymany-modifymany :
    (m n : ModifyMap) (pkt : Packet)
    → modifymany pkt (λ f. elim (n f) [ none ↦ m f | some v ↦ some v ])
      ≡ modifymany (modifymany pkt m) n
modifymany-modifymany m n pkt =
    ap {B = Packet} (λ h. record { header = h })
      (fun_ext (λ f. ground (
        arith,
        header-modifymany pkt (λ g. elim (n g) [ none ↦ m g | some v ↦ some v ]) f,
        header-modifymany (modifymany pkt m) n f,
        header-modifymany pkt m f,
      )))

then_modify-views :
    (m : ModifyMap) (a : Action) (pkt : Packet)
    → PlainModify m
    → PlainAction a
    → views (action_eval (then_modify m a) pkt) ≡ views (action_eval a (modifymany pkt m))
unfolding action_eval view
then_modify-views m Action.identity pkt pm pa = rw (modify_eval-plain m pkt pm)
then_modify-views m (modify n) pkt pm pa =
    let merged : ModifyMap = λ f. elim (n f) [ none ↦ m f | some v ↦ some v ] in
    ap (λ e. view e ∷ [])
      (modify_eval-plain merged pkt (then_modify-PlainAction m (modify n) pm pa)
        ∙ ap emit (modifymany-modifymany m n pkt)
        ∙ sym (modify_eval-plain n (modifymany pkt m) pa))
then_modify-views m controller pkt pm pa = refl
then_modify-views m (query b) pkt pm pa = refl

pub modify_actions-views :
    (m : ModifyMap) (acts : List Action) (pkt : Packet)
    → PlainModify m
    → All PlainAction acts
    → SameViews (actions_eval (modify_actions m acts) pkt) (actions_eval acts (modifymany pkt m))
unfolding modify_actions actions_eval
modify_actions-views m [] pkt pm ps = SameViews-refl []
modify_actions-views m (a ∷ acts) pkt pm (pa, ps) =
    let x = then_modify m a in
    let pkt' = modifymany pkt m in
    SameViews-trans (actions_eval (insert x (modify_actions m acts)) pkt)
      (actions_eval (x ∷ []) pkt ++ actions_eval (modify_actions m acts) pkt)
      (action_eval a pkt' ++ actions_eval acts pkt')
      (unfold union in actions_eval-union (x ∷ []) (modify_actions m acts) pkt)
      (SameViews-append (actions_eval (x ∷ []) pkt) (action_eval a pkt')
        (actions_eval (modify_actions m acts) pkt) (actions_eval acts pkt')
        (SameViews-of_views (actions_eval (x ∷ []) pkt) (action_eval a pkt')
          (ap views (append-nil (action_eval x pkt)) ∙ then_modify-views m a pkt pm pa))
        (modify_actions-views m acts pkt pm ps))
