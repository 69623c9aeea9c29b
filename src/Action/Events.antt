-- ===== src/Action/Events.antt =====
-- Outcomes as sets: what they show, and the outcome of one evaluation after another.
use pyretic.Base.{List, [], ◌∷◌, ◌++◌, ◌≡◌, refl, ◌↔◌, ◌⊎◌, inl, inr, In, In-append}
use pyretic.Packet.{Packet}
use pyretic.Action.{Query, Event, emit, collect, raised}

-- An event without the content of what a bucket takes in: the classifier puts the packet that
-- arrives into a bucket, and a policy the packet as modified so far.
pub data View : Type 0 where
  emitted : Packet → View
  hit : Query → View
  failed : View

unfoldable pub view : Event → View
view (emit p) = emitted p
view (collect b p) = hit b
view raised = failed

abbrev pub views : List Event → List View
views [] = []
views (e ∷ es) = view e ∷ views es

-- The same packets returned, the same buckets hit, and the same failure, in any order.
abbrev pub SameViews : List Event → List Event → Type 0
SameViews xs ys = (v : View) → In v (views xs) ↔ In v (views ys)

pub views-append : (xs ys : List Event) → views (xs ++ ys) ≡ views xs ++ views ys
views-append [] ys = refl
views-append (x ∷ xs) ys = rw (views-append xs ys)

pub SameViews-refl : (xs : List Event) → SameViews xs xs
SameViews-refl xs v = (λ h. h, λ h. h)

pub SameViews-sym : (xs ys : List Event) → SameViews xs ys → SameViews ys xs
SameViews-sym xs ys h v = ((h v).1, (h v).0)

pub SameViews-trans : (xs ys zs : List Event) → SameViews xs ys → SameViews ys zs → SameViews xs zs
SameViews-trans xs ys zs h k v = (λ x. (k v).0 ((h v).0 x), λ x. (h v).1 ((k v).1 x))

pub SameViews-of_eq : {xs ys : List Event} → xs ≡ ys → SameViews xs ys
SameViews-of_eq {xs} e = rw (← e) (SameViews-refl xs)

pub SameViews-of_views : (xs ys : List Event) → views xs ≡ views ys → SameViews xs ys
SameViews-of_views xs ys e v = rw e (λ h. h, λ h. h)

pub In-views-append :
    (v : View) (xs ys : List Event) → In v (views (xs ++ ys)) ↔ (In v (views xs) ⊎ In v (views ys))
In-views-append v xs ys = rw views-append (In-append v (views xs) (views ys))

pub SameViews-append :
    (xs xs' ys ys' : List Event)
    → SameViews xs xs'
    → SameViews ys ys'
    → SameViews (xs ++ ys) (xs' ++ ys')
SameViews-append xs xs' ys ys' hx hy v = (
  λ h. (In-views-append v xs' ys').1 (elim ((In-views-append v xs ys).0 h) [
    | inl a ↦ inl ((hx v).0 a)
    | inr b ↦ inr ((hy v).0 b)
  ]),
  λ h. (In-views-append v xs ys).1 (elim ((In-views-append v xs' ys').0 h) [
    | inl a ↦ inl ((hx v).1 a)
    | inr b ↦ inr ((hy v).1 b)
  ]),
)

-- Evaluate what follows on each packet returned.
unfoldable pub and_then : List Event → (Packet → List Event) → List Event
and_then [] f = []
and_then (emit p ∷ es) f = f p ++ and_then es f
and_then (collect b p ∷ es) f = collect b p ∷ and_then es f
and_then (raised ∷ es) f = raised ∷ and_then es f

SameViews-cons : (e : Event) (xs ys : List Event) → SameViews xs ys → SameViews (e ∷ xs) (e ∷ ys)
SameViews-cons e xs ys h v = (
  elim [ inl a ↦ inl a | inr b ↦ inr ((h v).0 b) ],
  elim [ inl a ↦ inl a | inr b ↦ inr ((h v).1 b) ],
)

pub and_then-cong :
    (es : List Event) (f g : Packet → List Event)
    → ((p : Packet) → SameViews (f p) (g p))
    → SameViews (and_then es f) (and_then es g)
unfolding and_then
and_then-cong [] f g h = SameViews-refl []
and_then-cong (emit p ∷ es) f g h =
    SameViews-append (f p) (g p) (and_then es f) (and_then es g) (h p) (and_then-cong es f g h)
and_then-cong (collect b p ∷ es) f g h =
    SameViews-cons (collect b p) (and_then es f) (and_then es g) (and_then-cong es f g h)
and_then-cong (raised ∷ es) f g h =
    SameViews-cons raised (and_then es f) (and_then es g) (and_then-cong es f g h)
