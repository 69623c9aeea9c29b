-- ===== src/Action/Chain.antt =====
-- How a view comes about in `and_then`, and what follows for equal views.
use pyretic.Base.{List, [], ◌∷◌, ◌++◌, ◌≡◌, refl, sym, ap, ◌∙◌, ◌⊎◌, inl, inr, In, arith}
use mathlib.Core.List.{append_assoc}
use pyretic.Packet.{Packet}
use pyretic.Action.{Event, emit, collect, raised}
use pyretic.Action.Events.{
  View, emitted, hit, failed, view, views, SameViews, SameViews-trans, In-views-append, and_then,
  and_then-cong,
}

-- From a packet that was returned.
abbrev pub Shown : View → List Event → (Packet → List Event) → Type 0
Shown v es f = (p : Packet) × In (emitted p) (views es) × In v (views (f p))

-- From what was there, if it is no packet.
abbrev pub Kept : View → List Event → Type 0
Kept (emitted p) es = ⊥
Kept (hit b) es = In (hit b) (views es)
Kept failed es = In failed (views es)

Kept-cons : (v : View) (e : Event) (es : List Event) → Kept v es → Kept v (e ∷ es)
Kept-cons (emitted p) e es k = k
Kept-cons (hit b) e es k = inr k
Kept-cons failed e es k = inr k

abbrev From : View → List Event → (Packet → List Event) → Type 0
From v es f = Shown v es f ⊎ Kept v es

later :
    (v : View) (e : Event) (es : List Event) (f : Packet → List Event)
    → From v es f
    → From v (e ∷ es) f
later v e es f (inl (p, k, shown)) = inl (p, inr k, shown)
later v e es f (inr k) = inr (Kept-cons v e es k)

come_through :
    (v : View) (es : List Event) (f : Packet → List Event)
    → In v (views (and_then es f))
    → From v es f
unfolding and_then view
come_through v [] f h = absurd h
come_through v (emit p ∷ es) f h = elim ((In-views-append v (f p) (and_then es f)).0 h) [
  | inl now ↦ inl (p, inl refl, now)
  | inr rest ↦ later v (emit p) es f (come_through v es f rest)
]
come_through v (collect b p ∷ es) f (inl e) = inr (rw e (inl refl))
come_through v (collect b p ∷ es) f (inr rest) =
    later v (collect b p) es f (come_through v es f rest)
come_through v (raised ∷ es) f (inl e) = inr (rw e (inl refl))
come_through v (raised ∷ es) f (inr rest) = later v raised es f (come_through v es f rest)

go_through :
    (v : View) (es : List Event) (f : Packet → List Event)
    → Shown v es f
    → In v (views (and_then es f))
unfolding and_then view
go_through v [] f (p, k, shown) = absurd k
go_through v (emit q ∷ es) f (p, k, shown) = (In-views-append v (f q) (and_then es f)).1 (elim k [
  | inl e ↦ inl (let same : p ≡ q = ground arith in rw same at shown)
  | inr rest ↦ inr (go_through v es f (p, rest, shown))
])
go_through v (collect b q ∷ es) f (p, k, shown) = elim k [
  | inl e ↦ absurd (ground arith)
  | inr rest ↦ inr (go_through v es f (p, rest, shown))
]
go_through v (raised ∷ es) f (p, k, shown) = elim k [
  | inl e ↦ absurd (ground arith)
  | inr rest ↦ inr (go_through v es f (p, rest, shown))
]

abbrev NoPacket : View → Type 0
NoPacket (emitted p) = ⊥
NoPacket _ = Unit

kept_and_then :
    (v : View) (es : List Event) (f : Packet → List Event)
    → NoPacket v
    → In v (views es)
    → In v (views (and_then es f))
unfolding and_then view
kept_and_then v [] f n k = absurd k
kept_and_then v (emit q ∷ es) f n k =
    (In-views-append v (f q) (and_then es f)).1
      (elim k [ inl e ↦ absurd (rw e at n) | inr rest ↦ inr (kept_and_then v es f n rest) ])
kept_and_then v (collect b q ∷ es) f n k = elim k [
  | inl e ↦ inl e
  | inr rest ↦ inr (kept_and_then v es f n rest)
]
kept_and_then v (raised ∷ es) f n k = elim k [
  | inl e ↦ inl e
  | inr rest ↦ inr (kept_and_then v es f n rest)
]

to_and_then :
    (v : View) (es : List Event) (f : Packet → List Event)
    → From v es f
    → In v (views (and_then es f))
to_and_then v es f (inl shown) = go_through v es f shown
to_and_then (emitted p) es f (inr k) = absurd k
to_and_then (hit b) es f (inr k) = kept_and_then (hit b) es f tt k
to_and_then failed es f (inr k) = kept_and_then failed es f tt k

From-SameViews :
    (v : View) (es es' : List Event) (f : Packet → List Event)
    → SameViews es es'
    → From v es f
    → From v es' f
From-SameViews v es es' f h (inl (p, k, shown)) = inl (p, (h (emitted p)).0 k, shown)
From-SameViews (emitted p) es es' f h (inr k) = absurd k
From-SameViews (hit b) es es' f h (inr k) = inr ((h (hit b)).0 k)
From-SameViews failed es es' f h (inr k) = inr ((h failed).0 k)

-- What follows outcomes that show the same shows the same.
pub and_then-SameViews :
    (es es' : List Event) (f g : Packet → List Event)
    → SameViews es es'
    → ((p : Packet) → SameViews (f p) (g p))
    → SameViews (and_then es f) (and_then es' g)
and_then-SameViews es es' f g h k =
    SameViews-trans (and_then es f) (and_then es' f) (and_then es' g)
      (λ v. (
        λ x. to_and_then v es' f (From-SameViews v es es' f h (come_through v es f x)),
        λ x.
            to_and_then v es f
              (From-SameViews v es' es f (λ w. ((h w).1, (h w).0)) (come_through v es' f x)),
      ))
      (and_then-cong es' f g k)

pub and_then-emit : (es : List Event) → and_then es (λ p. emit p ∷ []) ≡ es
unfolding and_then
and_then-emit [] = refl
and_then-emit (emit p ∷ es) = rw (and_then-emit es)
and_then-emit (collect b p ∷ es) = rw (and_then-emit es)
and_then-emit (raised ∷ es) = rw (and_then-emit es)

pub and_then-append :
    (es ds : List Event) (f : Packet → List Event)
    → and_then (es ++ ds) f ≡ and_then es f ++ and_then ds f
unfolding and_then
and_then-append [] ds f = refl
and_then-append (emit p ∷ es) ds f =
    rw (and_then-append es ds f) (sym (append_assoc (f p) (and_then es f) (and_then ds f)))
and_then-append (collect b p ∷ es) ds f = rw (and_then-append es ds f)
and_then-append (raised ∷ es) ds f = rw (and_then-append es ds f)

-- One continuation after another.
pub and_then_assoc :
    (es : List Event) (f g : Packet → List Event)
    → and_then (and_then es f) g ≡ and_then es (λ p. and_then (f p) g)
unfolding and_then
and_then_assoc [] f g = refl
and_then_assoc (emit p ∷ es) f g =
    and_then-append (f p) (and_then es f) g
    ∙ ap (λ r. and_then (f p) g ++ r) (and_then_assoc es f g)
and_then_assoc (collect b p ∷ es) f g = rw (and_then_assoc es f g)
and_then_assoc (raised ∷ es) f g = rw (and_then_assoc es f g)
