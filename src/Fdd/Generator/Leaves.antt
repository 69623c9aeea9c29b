-- ===== src/Fdd/Generator/Leaves.antt =====
-- lib/path.py, fdd_re_tree_gen: leaves, their symbols, and expressions that alternate them.
use pyretic.Base.{
  ℕ, ◌<◌, ◌≤◌, ◌==◌, ==_iff, Bool, true, false, ◌||◌, Option, none, some, List, [], ◌∷◌, ◌≡◌, refl,
  sym, ◌∙◌, ap, arith, inl, inr, Eq, All, In, In-append, All-append, Bool-cases, Option-cases, map,
  nat_eq, some_inj, any, none≢some,
}
use pyretic.Regex.{Re, empty, smart_alter}
use pyretic.Regex.Language.{lang}
use pyretic.Regex.Smart.{smart_alter-lang}
use pyretic.Fdd.{Fdd, node, leaf, get_leaves}
use pyretic.Fdd.Leaves.{Leaves}
use pyretic.Fdd.Merge.{reach}
use pyretic.Fdd.Generator.{Atom, get_entry, Character, Leafs, char_re, alter_leaves}
use pyretic.Fdd.Generator.Leafs.{members, Growing}

-- The symbol of a leaf.
abbrev pub is_symbol : ℕ → Character → Bool
is_symbol a c = elim c.sym [ none ↦ false | some s ↦ s == a ]

char_re-lang :
    (s : Option ℕ) (at : Atom) (ns : List ℕ) (a : ℕ)
    → lang (char_re s at) (a ∷ []) ≡ is_symbol a (record { pred_set = ns; sym = s })
unfolding lang
char_re-lang none at ns a = refl
char_re-lang (some s) at ns a = refl

pub alter_leaves-lang :
    (tree : Re) (cs : List Character) (at : Atom) (a : ℕ)
    → lang (alter_leaves tree cs at) (a ∷ []) ≡ (lang tree (a ∷ []) || any (is_symbol a) cs)
unfolding alter_leaves
alter_leaves-lang tree [] at a = ground arith
alter_leaves-lang tree (c ∷ cs) at a =
    alter_leaves-lang (smart_alter tree (char_re c.sym at)) cs at a
    ∙ rw (smart_alter-lang tree (char_re c.sym at) (a ∷ []), char_re-lang c.sym at c.pred_set a)
        (ground arith)

-- After the first leaf, the symbols are larger than its own.
Growing-tail :
    (t : ℕ) (d : Character) (cs : List Character)
    → Growing t (d ∷ cs)
    → (u : ℕ) × (t ≤ u) × Growing u cs × ((a : ℕ) → d.sym ≡ some a → (t < a) × (u ≡ a))
Growing-tail t d cs h = elim (Option-cases d.sym) [
  | inl e ↦ (t, omega arith, (rw e at h).1, λ a k. absurd (none≢some (sym e ∙ k)))
  | inr (s, e) ↦
      let (larger, rest) = rw e at h in
      (s, omega arith, rest, λ a k. let same : s ≡ a = some_inj (sym e ∙ k) in (omega arith, same))
]

Growing-larger :
    (t : ℕ) (cs : List Character) (c : Character) (a : ℕ)
    → Growing t cs
    → In c cs
    → c.sym ≡ some a
    → t < a
Growing-larger t [] c a h i e = absurd i
Growing-larger t (d ∷ cs) c a h (inl same) e =
    let (u, _, _, own) = Growing-tail t d cs h in (own a (sym (ap (λ x. x.sym) same) ∙ e)).0
Growing-larger t (d ∷ cs) c a h (inr i) e =
    let (u, le, rest, _) = Growing-tail t d cs h in omega (arith, Growing-larger u cs c a rest i e)

-- No two leaves have the same symbol.
pub same_symbol :
    (t : ℕ) (cs : List Character) (c d : Character) (a : ℕ)
    → Growing t cs
    → In c cs
    → In d cs
    → c.sym ≡ some a
    → d.sym ≡ some a
    → c ≡ d
same_symbol t [] c d a h i j e f = absurd i
same_symbol t (x ∷ cs) c d a h (inl i) (inl j) e f = i ∙ sym j
same_symbol t (x ∷ cs) c d a h (inl i) (inr j) e f =
    let (u, _, rest, own) = Growing-tail t x cs h in
    let (_, same) = own a (sym (ap (λ y. y.sym) i) ∙ e) in
    absurd (omega (arith, Growing-larger u cs d a rest j f))
same_symbol t (x ∷ cs) c d a h (inr i) (inl j) e f =
    let (u, _, rest, own) = Growing-tail t x cs h in
    let (_, same) = own a (sym (ap (λ y. y.sym) j) ∙ f) in
    absurd (omega (arith, Growing-larger u cs c a rest i e))
same_symbol t (x ∷ cs) c d a h (inr i) (inr j) e f =
    let (u, _, rest, _) = Growing-tail t x cs h in same_symbol u cs c d a rest i j e f

module _ {K V : Type 0} ⦃ek : Eq K⦄ ⦃ev : Eq V⦄ where
  pub reach-In : (look : K → V) (d : Fdd K V) → In (reach look d) (get_leaves d)
  unfolding reach get_leaves
  reach-In look (leaf s) = inl refl
  reach-In look (node k v l r) = elim (Bool-cases (ev.eq (look k) v)) [
    | inl e ↦
        rw e ((In-append (reach look l) (get_leaves l) (get_leaves r)).1 (inl (reach-In look l)))
    | inr e ↦
        rw e ((In-append (reach look r) (get_leaves l) (get_leaves r)).1 (inr (reach-In look r)))
  ]

  pub Leaves-All : (P : List ℕ → Type 0) (d : Fdd K V) → Leaves P d → All P (get_leaves d)
  unfolding get_leaves
  Leaves-All P (leaf s) h = (h, tt)
  Leaves-All P (node k v l r) h =
      All-append P (get_leaves l) (get_leaves r) (Leaves-All P l h.0) (Leaves-All P r h.1)

pub In-map :
    {A B : Type 0} (f : A → B) (xs : List A) (y : B)
    → In y (map f xs)
    → (x : A) × In x xs × (f x ≡ y)
In-map f [] y i = absurd i
In-map f (x ∷ xs) y (inl e) = (x, inl refl, sym e)
In-map f (x ∷ xs) y (inr i) = let (z, j, e) = In-map f xs y i in (z, inr j, e)

pub any-In :
    {A : Type 0} (f : A → Bool) (xs : List A) (x : A) → In x xs → f x ≡ true → any f xs ≡ true
any-In f [] x i e = absurd i
any-In f (y ∷ xs) x (inl k) e = ground (arith, k)
any-In f (y ∷ xs) x (inr i) e = ground (arith, any-In f xs x i e)

pub In-any :
    {A : Type 0} (f : A → Bool) (xs : List A) → any f xs ≡ true → (x : A) × In x xs × (f x ≡ true)
In-any f [] h = absurd (ground arith)
In-any f (x ∷ xs) h = elim (Bool-cases (f x)) [
  | inl e ↦ (x, inl refl, e)
  | inr e ↦ let (y, i, k) = In-any f xs (rw e at h) in (y, inr i, k)
]

pub alter_found :
    {P : Type 0} ⦃ep : Eq P⦄ (p : P) (at : Atom) (l : Leafs P)
    → elim (get_entry p l) [ none ↦ empty [] | some leafs ↦ alter_leaves (empty []) leafs at ]
      ≡ alter_leaves (empty []) (members p l) at
unfolding get_entry alter_leaves
alter_found p at [] = refl
alter_found ⦃ep⦄ p at (x ∷ xs) = elim (Bool-cases (ep.eq p x.0)) [
  | inl e ↦ rw e refl
  | inr e ↦ rw e (alter_found p at xs)
]

pub Growing-none :
    (t : ℕ) (cs : List Character) (c : Character)
    → Growing t cs
    → In c cs
    → c.sym ≡ none
    → c.pred_set ≡ []
Growing-none t [] c h i e = absurd i
Growing-none t (d ∷ cs) c h (inl i) e =
    let own : d.sym ≡ none = sym (ap (λ y. y.sym) i) ∙ e in ap (λ y. y.pred_set) i ∙ (rw own at h).0
Growing-none t (d ∷ cs) c h (inr i) e =
    let (u, _, rest, _) = Growing-tail t d cs h in Growing-none u cs c rest i e

pub has_symbol : (c : Character) (a : ℕ) → c.sym ≡ some a → is_symbol a c ≡ true
has_symbol c a e = rw e (ground (arith, (==_iff a a).1 refl))

pub symbol_of : (c : Character) (a : ℕ) → is_symbol a c ≡ true → c.sym ≡ some a
symbol_of c a h = elim (Option-cases c.sym) [
  | inl e ↦ absurd (ground arith)
  | inr (s, e) ↦ e ∙ ap some ((==_iff s a).0 (rw e at h))
]
