-- ===== src/Fdd/Generator/Indexed.antt =====
-- lib/path.py, fdd_re_tree_gen.add_pred: the base diagram decides all predicates at once.
use pyretic.Base.{
  ℕ, suc, ◌+◌, ◌<◌, ◌==◌, ==_iff, nat_eq, Bool, true, false, ◌||◌, Option, none, some, List, [],
  ◌∷◌, ◌≡◌, refl, sym, ◌∙◌, ap, arith, inl, inr, if◌then◌else◌, Eq, has, set_union, All, Bool-cases,
  Option-cases, OnSome-some, none≢some, some_inj,
}
use pyretic.Fdd.{Fdd, node, leaf, merge}
use pyretic.Fdd.Leaves.{Leaves, merge-Leaves}
use pyretic.Fdd.Merge.{reach, size, merge-Joins}
use pyretic.Fdd.Negate.{AtMost, Only}
use pyretic.Fdd.Generator.{
  Atom, get_entry, append_at, Generator, cleared, no_fields, merge_base, with_pred, add_pred,
  add_preds,
}

pub Leaves-map :
    {K V : Type 0} (P Q : List ℕ → Type 0)
    → ((s : List ℕ) → P s → Q s)
    → (d : Fdd K V) → Leaves P d
    → Leaves Q d
Leaves-map P Q f (leaf s) h = f s h
Leaves-map P Q f (node k v l r) h = (Leaves-map P Q f l h.0, Leaves-map P Q f r h.1)

set_union-All : (P : ℕ → Type 0) (xs ys : List ℕ) → All P xs → All P ys → All P (set_union xs ys)
unfolding set_union
set_union-All P [] ys hx hy = hy
set_union-All P (x ∷ xs) ys (h, hx) hy = elim (Bool-cases (has x (set_union xs ys))) [
  | inl e ↦ rw e (set_union-All P xs ys hx hy)
  | inr e ↦ rw e (h, set_union-All P xs ys hx hy)
]

AtMost-other : (n m : ℕ) (s : List ℕ) → AtMost m s → (n == m) ≡ false → has n s ≡ false
AtMost-other n m s (inl e) h = rw e refl
AtMost-other n m s (inr e) h = rw e (ground arith)

module _ {K V : Type 0} ⦃ek : Eq K⦄ ⦃ev : Eq V⦄ where
  -- The predicates reached are at a leaf.
  pub reach-Leaves :
      (P : List ℕ → Type 0) (look : K → V) (d : Fdd K V) → Leaves P d → P (reach look d)
  unfolding reach
  reach-Leaves P look (leaf s) h = h
  reach-Leaves P look (node k v l r) h = elim (Bool-cases (ev.eq (look k) v)) [
    | inl e ↦ rw e (reach-Leaves P look l h.0)
    | inr e ↦ rw e (reach-Leaves P look r h.1)
  ]

module _ {K A : Type 0} ⦃e : Eq K⦄ where
  pub get_entry-append_at :
      (q p : K) (a : A) (xs : List (K × List A))
      → get_entry q xs ≡ none
      → get_entry q (append_at p a xs) ≡ none
  unfolding get_entry append_at
  get_entry-append_at q p a [] h = refl
  get_entry-append_at q p a (x ∷ xs) h = ground (arith, get_entry-append_at q p a xs)

module _ {P X : Type 0} (test : P → X → Bool) where
  -- What the predicate with this number says.
  abbrev pub meaning : List (ℕ × P) → ℕ → X → Bool
  meaning [] n x = false
  meaning (e ∷ es) n x = if n == e.0 then test e.1 x else meaning es n x

  meaning_above :
      (es : List (ℕ × P)) (n : ℕ) (x : X) → All (λ e. e.0 < n) es → meaning es n x ≡ false
  meaning_above [] n x h = refl
  meaning_above (e ∷ es) n x (h, hs) = ground (arith, meaning_above es n x hs)

  pub meaning-get_entry :
      (es : List (ℕ × P)) (n : ℕ) (p : P) (x : X)
      → get_entry n es ≡ some p
      → meaning es n x ≡ test p x
  unfolding get_entry
  meaning-get_entry [] n p x h = absurd (none≢some h)
  meaning-get_entry (e ∷ es) n p x h = elim (Bool-cases (n == e.0)) [
    | inl t ↦ rw t (ap (λ q. test q x) (some_inj (rw t at h)))
    | inr t ↦ rw t (meaning-get_entry es n p x (rw t at h))
  ]

module _ {P : Type 0} where
  abbrev pub Named : List (ℕ × P) → ℕ → Type 0
  Named es n = (p : P) × (get_entry n es ≡ some p)

  entry_head : (n : ℕ) (p : P) (es : List (ℕ × P)) → get_entry n ((n, p) ∷ es) ≡ some p
  unfolding get_entry
  entry_head n p es = ground (arith, (==_iff n n).1 refl)

  Named-cons : (e : ℕ × P) (es : List (ℕ × P)) (n : ℕ) → Named es n → Named (e ∷ es) n
  unfolding get_entry
  Named-cons e es n (p, h) = elim (Bool-cases (n == e.0)) [
    | inl t ↦ (e.1, rw t refl)
    | inr t ↦ (p, rw t h)
  ]

  entry_below :
      (m : ℕ) (es : List (ℕ × P)) (n : ℕ) (p : P)
      → All (λ e. e.0 < m) es
      → get_entry n es ≡ some p
      → n < m
  unfolding get_entry
  entry_below m [] n p h k = absurd (none≢some k)
  entry_below m (e ∷ es) n p (h, hs) k = elim (Bool-cases (n == e.0)) [
    | inl t ↦ omega (arith, (==_iff n e.0).0 t)
    | inr t ↦ entry_below m es n p hs (rw t at k)
  ]

  -- A number in use keeps its predicate.
  entry_above :
      (m : ℕ) (q p : P) (es : List (ℕ × P)) (n : ℕ)
      → All (λ e. e.0 < m) es
      → get_entry n es ≡ some p
      → get_entry n ((m, q) ∷ es) ≡ some p
  unfolding get_entry
  entry_above m q p es n h k = ground (arith, entry_below m es n p h k)

  All-suc : (m : ℕ) (es : List (ℕ × P)) → All (λ e. e.0 < m) es → All (λ e. e.0 < suc m) es
  All-suc m [] h = tt
  All-suc m (e ∷ es) (h, hs) = (omega arith, All-suc m es hs)

All-map :
    {A : Type 0} (P Q : A → Type 0) → ((x : A) → P x → Q x) → (xs : List A) → All P xs → All Q xs
All-map P Q f [] h = tt
All-map P Q f (x ∷ xs) (h, hs) = (f x h, All-map P Q f xs hs)

module _ {K V P X : Type 0} ⦃ek : Eq K⦄ ⦃ev : Eq V⦄ ⦃ep : Eq P⦄ where
  module _ (look : X → K → V) (test : P → X → Bool) where
    -- The base diagram of these predicates.
    pub record Base (es : List (ℕ × P)) (b : Fdd K V) : Type 0 where
      pub known : Leaves (All (Named es)) b
      pub says : (x : X) (n : ℕ) → has n (reach (look x) b) ≡ meaning test es n x

    abbrev pub BaseOf : List (ℕ × P) → Option (Fdd K V) → Type 0
    BaseOf es none = es ≡ []
    BaseOf es (some b) = Base es b

    -- The predicates are numbered in order, the base decides them, and those with atoms have one.
    pub record Indexed (gen : Generator K V P) : Type 0 where
      pub below : All (λ e. e.0 < gen.next) gen.num_to_pred
      pub base : BaseOf gen.num_to_pred gen.base
      pub named :
          (p : P) (ats : List Atom)
          → get_entry p gen.pred_to_atoms ≡ some ats
          → (n : ℕ) × (get_entry n gen.num_to_pred ≡ some p)

    pub cleared-Indexed : Indexed (cleared K V P)
    unfolding get_entry
    cleared-Indexed = record { below = tt; base = refl; named = λ p ats h. absurd (none≢some h) }

    -- A diagram that is right for one predicate.
    pub record Single (d : Fdd K V) (n : ℕ) (p : P) : Type 0 where
      pub only : Only n d
      pub decides : (x : X) → has n (reach (look x) d) ≡ test p x

    Single-says :
        (d : Fdd K V) (n m : ℕ) (p : P) (x : X)
        → Single d m p
        → has n (reach (look x) d) ≡ (if n == m then test p x else false)
    Single-says d n m p x s = elim (Bool-cases (n == m)) [
      | inl e ↦ rw e (rw ((==_iff n m).0 e) (s.decides x))
      | inr e ↦
          rw e (AtMost-other n m (reach (look x) d) (reach-Leaves (AtMost m) (look x) d s.only) e)
    ]

    Single-known :
        (d : Fdd K V) (n : ℕ) (p : P) (es : List (ℕ × P))
        → Only n d
        → Leaves (All (Named ((n, p) ∷ es))) d
    unfolding get_entry
    Single-known d n p es h =
        Leaves-map (AtMost n) (All (Named ((n, p) ∷ es)))
          (λ s. elim [
            | inl e ↦ rw e tt
            | inr e ↦ rw e ((p, ground (arith, (==_iff n n).1 refl)), tt)
          ])
          d h

    joined_meaning :
        (es : List (ℕ × P)) (m : ℕ) (p : P) (d b : Fdd K V) (x : X) (n : ℕ)
        → All (λ e. e.0 < m) es
        → Single d m p
        → has n (reach (look x) b) ≡ meaning test es n x
        → (has n (reach (look x) d) || has n (reach (look x) b))
          ≡ (if n == m then test p x else meaning test es n x)
    joined_meaning es m p d b x n below s h = elim (Bool-cases (n == m)) [
      | inl e ↦
          let above = meaning_above test es m x below in
          let same : n ≡ m = (==_iff n m).0 e in ground (arith, Single-says d n m p x s, same)
      | inr e ↦ ground (arith, Single-says d n m p x s)
    ]

    named_new :
        (gen : Generator K V P) (p q : P) (at : Atom) (ats : List Atom)
        → Indexed gen
        → get_entry q ((p, at ∷ []) ∷ gen.pred_to_atoms) ≡ some ats
        → (n : ℕ) × (get_entry n ((gen.next, p) ∷ gen.num_to_pred) ≡ some q)
    unfolding get_entry
    named_new gen p q at ats h k = elim (Bool-cases (ep.eq q p)) [
      | inl e ↦ (gen.next, ground (arith, (==_iff gen.next gen.next).1 refl, (ep.eq_iff q p).0 e))
      | inr e ↦
          let (n, found) = h.named q ats (rw e at k) in
          (n, entry_above gen.next p q gen.num_to_pred n h.below found)
    ]

    module _ (greater : K → V → K → V → Bool) where
      merge_base-Base :
          (es : List (ℕ × P)) (m : ℕ) (p : P) (d : Fdd K V) (base : Option (Fdd K V))
          → All (λ e. e.0 < m) es
          → Single d m p
          → BaseOf es base
          → (b : Fdd K V) × (merge_base greater d base ≡ some b) × Base ((m, p) ∷ es) b
      unfolding merge_base
      merge_base-Base es m p d none below s h = (
        d,
        refl,
        record {
          known = Single-known d m p es s.only;
          says = λ x n. Single-says d n m p x s ∙ rw h refl;
        },
      )
      merge_base-Base es m p d (some b) below s h =
          let fuel = suc (size d + size b) in
          let j = merge-Joins greater true fuel d b no_fields (omega arith) in
          let known_d = Single-known d m p es s.only in
          let known_b =
            Leaves-map (All (Named es)) (All (Named ((m, p) ∷ es)))
              (λ ns. All-map (Named es) (Named ((m, p) ∷ es)) (Named-cons (m, p) es) ns) b
              h.known in
          (
            j.merged,
            rw j.is_result refl,
            record {
              known =
                  OnSome-some (λ r. Leaves (All (Named ((m, p) ∷ es))) r.0)
                    (merge greater true fuel d b no_fields)
                    (merge-Leaves (All (Named ((m, p) ∷ es))) greater true
                      (λ ns ms. set_union-All (Named ((m, p) ∷ es)) ns ms) fuel d b no_fields
                      known_d known_b)
                    j.is_result;
              says = λ x n.
                  j.says (look x) n (λ k v e. absurd (none≢some e))
                  ∙ joined_meaning es m p d b x n below s (h.says x n);
            },
          )

      module _ (Ok : P → Type 0) (translate : P → ℕ → Option (Fdd K V))
          (translates : (p : P) (n : ℕ)
            → Ok p
            → (d : Fdd K V) × (translate p n ≡ some d) × Single d n p) where
        abbrev pub HasNumber : Generator K V P → P → Type 0
        HasNumber gen p = (n : ℕ) × (get_entry n gen.num_to_pred ≡ some p)

        -- What adding one more predicate, or several, leaves.
        pub record Grown (gen : Generator K V P) (xs : List (P × Atom))
            (result : Option (Generator K V P)) : Type 0 where
          pub gen' : Generator K V P
          pub is_result : result ≡ some gen'
          pub indexed : Indexed gen'
          pub added : All (λ x. HasNumber gen' x.0) xs
          pub leafs : gen'.pred_to_leafs ≡ gen.pred_to_leafs
          pub kept :
              (n : ℕ) (p : P)
              → get_entry n gen.num_to_pred ≡ some p
              → get_entry n gen'.num_to_pred ≡ some p

        add_pred-Grown :
            (gen : Generator K V P) (p : P) (at : Atom)
            → Indexed gen
            → Ok p
            → Grown gen ((p, at) ∷ []) (add_pred greater translate gen p at)
        unfolding add_pred
        add_pred-Grown gen p at h ok = elim (Option-cases (get_entry p gen.pred_to_atoms)) [
          | inl e ↦
              let (d, is, single) = translates p gen.next ok in
              let (b, is', base) =
                merge_base-Base gen.num_to_pred gen.next p d gen.base h.below single h.base in
              record {
                gen' = with_pred gen p at b;
                is_result = rw (e, add_pred) (rw (is, is') refl);
                indexed = record {
                  below = (omega arith, All-suc gen.next gen.num_to_pred h.below);
                  base = base;
                  named = λ q ats k. named_new gen p q at ats h k;
                };
                added = ((gen.next, entry_head gen.next p gen.num_to_pred), tt);
                leafs = refl;
                kept = λ n q k. entry_above gen.next p q gen.num_to_pred n h.below k;
              }
          | inr (ats, e) ↦ record {
            gen' = record gen { pred_to_atoms = append_at p at gen.pred_to_atoms };
            is_result = rw (e, add_pred) refl;
            indexed = record {
              below = h.below;
              base = h.base;
              named = λ q ats' k. elim (Option-cases (get_entry q gen.pred_to_atoms)) [
                | inl none_there ↦
                    absurd (
                      none≢some (sym (get_entry-append_at q p at gen.pred_to_atoms none_there) ∙ k))
                | inr (ats'', there) ↦ h.named q ats'' there
              ];
            };
            added = (h.named p ats e, tt);
            leafs = refl;
            kept = λ n q k. k;
          }
        ]

        pub add_preds-Grown :
            (xs : List (P × Atom)) (gen : Generator K V P)
            → Indexed gen
            → All (λ x. Ok x.0) xs
            → Grown gen xs (add_preds greater translate gen xs)
        unfolding add_preds
        add_preds-Grown [] gen h ok = record {
          gen' = gen;
          is_result = refl;
          indexed = h;
          added = tt;
          leafs = refl;
          kept = λ n q k. k;
        }
        add_preds-Grown (x ∷ xs) gen h (ok, oks) =
            let one = add_pred-Grown gen x.0 x.1 h ok in
            let more = add_preds-Grown xs one.gen' one.indexed oks in
            record {
              gen' = more.gen';
              is_result = rw one.is_result more.is_result;
              indexed = more.indexed;
              added = ((one.added.0.0, more.kept one.added.0.0 x.0 one.added.0.1), more.added);
              leafs = more.leafs ∙ one.leafs;
              kept = λ n q k. more.kept n q (one.kept n q k);
            }
