-- ===== src/Install/Checked.antt =====
-- check_of_rules: what the rules that it accepts have.
use pyretic.Base.{
  leb, true, ◌&&◌, ◌||◌, not, Option, none, some, List, [], ◌∷◌, ◌++◌, map, ◌≡◌, refl, sym, ◌∙◌, ap,
  arith, ◌⊎◌, ◌↔◌, inl, inr, In, In-append, All, Bool-cases, Option-cases, cons_option, some_inj,
  none≢some, OnSome, OnSome-some, and-true, subst,
}
use pyretic.Packet.{Field, header, port}
use pyretic.Match.Meaning.{all_fields-In}
use pyretic.Action.{Action}
use pyretic.Install.Concrete.{
  Dict, has_key, ConcreteAction, dict, object, ConcreteRule, is_query, key_count, insert_by_length,
  sort_by_length, modify_acts, query_acts, has_outport, keys_in, growing,
  has_compilable_action_list, checked, check_of_rule,
}

-- Every field that the first action sets, the second sets as well.
abbrev SetsMore : Dict → Dict → Type 0
SetsMore d e = (f : Field) → has_key d f ≡ true → has_key e f ≡ true

abbrev After : Dict → ConcreteAction → Type 0
After d (dict e) = SetsMore d e
After d (object a) = Unit

-- Every modification has a port, each sets all that an earlier one sets, and the others are queries.
abbrev pub Nested : List ConcreteAction → Type 0
Nested [] = Unit
Nested (dict d ∷ acts) = (has_key d (header port) ≡ true) × All (After d) acts × Nested acts
Nested (object a ∷ acts) = (is_query (object a) ≡ true) × Nested acts

keys_in-SetsMore : (d e : Dict) → keys_in d e ≡ true → SetsMore d e
keys_in-SetsMore d e h f k =
    let at_f = all_fields-In (λ g. not (has_key d g) || has_key e g) h f in ground arith

growing-SetsMore : (d : Dict) (ds : List Dict) → growing d ds ≡ true → All (SetsMore d) ds
unfolding growing
growing-SetsMore d [] h = tt
growing-SetsMore d (e ∷ ds) h =
    let (k, g) = (and-true (keys_in d e) (growing e ds)).0 h in
    let first = keys_in-SetsMore d e k in (first, widen d e ds first (growing-SetsMore e ds g))
  where
    widen : (d e : Dict) (ds : List Dict) → SetsMore d e → All (SetsMore e) ds → All (SetsMore d) ds
    widen d e [] h k = tt
    widen d e (c ∷ ds) h (k, ks) = (λ f l. k f (h f l), widen d e ds h ks)

queries-Nested : (acts : List ConcreteAction) → Nested (query_acts acts)
queries-Nested [] = tt
queries-Nested (dict d ∷ acts) = queries-Nested acts
queries-Nested (object a ∷ acts) = elim (Bool-cases (is_query (object a))) [
  | inl e ↦ rw e (e, queries-Nested acts)
  | inr e ↦ rw e (queries-Nested acts)
]

After-queries :
    (d : Dict) (ds : List Dict) (acts : List ConcreteAction)
    → All (SetsMore d) ds
    → All (After d) (map dict ds ++ query_acts acts)
After-queries d (e ∷ ds) acts (h, hs) = (h, After-queries d ds acts hs)
After-queries d [] [] h = tt
After-queries d [] (dict e ∷ acts) h = After-queries d [] acts h
After-queries d [] (object a ∷ acts) h = elim (Bool-cases (is_query (object a))) [
  | inl e ↦ rw e (tt, After-queries d [] acts h)
  | inr e ↦ rw e (After-queries d [] acts h)
]

growing-Nested :
    (prev : Dict) (ds : List Dict) (acts : List ConcreteAction)
    → has_outport ds ≡ true
    → growing prev ds ≡ true
    → Nested (map dict ds ++ query_acts acts)
unfolding has_outport growing
growing-Nested prev [] acts h g = queries-Nested acts
growing-Nested prev (d ∷ ds) acts h g =
    let (p, ps) = (and-true (has_key d (header port)) (has_outport ds)).0 h in
    let (k, ks) = (and-true (keys_in prev d) (growing d ds)).0 g in
    (p, After-queries d ds acts (growing-SetsMore d ds ks), growing-Nested d ds acts ps ks)

compilable-Nested :
    (ds : List Dict) (acts : List ConcreteAction)
    → has_outport ds ≡ true
    → has_compilable_action_list ds ≡ true
    → Nested (map dict ds ++ query_acts acts)
unfolding has_outport has_compilable_action_list
compilable-Nested [] acts h g = queries-Nested acts
compilable-Nested (d ∷ []) acts h g =
    (ground arith, After-queries d [] acts tt, queries-Nested acts)
compilable-Nested (d ∷ e ∷ ds) acts h g = growing-Nested d (d ∷ e ∷ ds) acts h g

-- The sorted actions are the same ones.
In-insert_by_length :
    (x d : Dict) (ds : List Dict) → In x (insert_by_length d ds) ↔ ((x ≡ d) ⊎ In x ds)
unfolding insert_by_length
In-insert_by_length x d [] = (λ h. h, λ h. h)
In-insert_by_length x d (e ∷ ds) = elim (Bool-cases (leb (key_count d) (key_count e))) [
  | inl c ↦ rw c (λ h. h, λ h. h)
  | inr c ↦
      let rest = In-insert_by_length x d ds in
      rw c (
        elim [
          | inl h ↦ inr (inl h)
          | inr h ↦ elim (rest.0 h) [ inl k ↦ inl k | inr k ↦ inr (inr k) ]
        ],
        elim [
          | inl h ↦ inr (rest.1 (inl h))
          | inr h ↦ elim h [ inl k ↦ inl k | inr k ↦ inr (rest.1 (inr k)) ]
        ],
      )
]

In-sort_by_length : (x : Dict) (ds : List Dict) → In x (sort_by_length ds) ↔ In x ds
unfolding sort_by_length
In-sort_by_length x [] = (λ h. h, λ h. h)
In-sort_by_length x (d ∷ ds) =
    let here = In-insert_by_length x d (sort_by_length ds) in
    let there = In-sort_by_length x ds in
    (
      λ h. elim (here.0 h) [ inl k ↦ inl k | inr k ↦ inr (there.0 k) ],
      λ h. here.1 (elim h [ inl k ↦ inl k | inr k ↦ inr (there.1 k) ]),
    )

In-map_dict :
    (a : ConcreteAction) (ds es : List Dict)
    → ((x : Dict) → In x ds → In x es)
    → In a (map dict ds)
    → In a (map dict es)
In-map_dict a (d ∷ ds) es f (inl e) = there es (f d (inl refl))
  where
    there : (es : List Dict) → In d es → In a (map dict es)
    there [] k = absurd k
    there (x ∷ es) (inl k) = inl (e ∙ ap dict k)
    there (x ∷ es) (inr k) = inr (there es k)
In-map_dict a (d ∷ ds) es f (inr h) = In-map_dict a ds es (λ x k. f x (inr k)) h
In-map_dict a [] es f h = absurd h

abbrev Split : List ConcreteAction → ConcreteAction → List Dict → Type 0
Split acts a ds = In a (map dict ds) ⊎ In a (query_acts acts)

everywhere : {A : Type 0} {P : A → Type 0} → ((x : A) → P x) → (o : Option A) → OnSome P o
everywhere f none = tt
everywhere f (some x) = f x

weaken :
    {A : Type 0} {P Q : A → Type 0} (o : Option A) → ((x : A) → P x → Q x) → OnSome P o → OnSome Q o
weaken none f h = tt
weaken (some x) f h = f x h

pass :
    (d : Dict) (acts : List ConcreteAction) (a : ConcreteAction) (ds : List Dict)
    → Split acts a ds
    → Split (dict d ∷ acts) a (d ∷ ds)
pass d acts a ds (inl k) = inl (inr k)
pass d acts a ds (inr k) = inr k

with_dict :
    (d : Dict) (acts : List ConcreteAction) (a : ConcreteAction) (o : Option (List Dict))
    → OnSome (λ ds. Split (dict d ∷ acts) a (d ∷ ds)) o
    → OnSome (Split (dict d ∷ acts) a) (cons_option (some d) o)
with_dict d acts a none h = tt
with_dict d acts a (some ds) h = h

modify_acts-Split :
    (acts : List ConcreteAction) (a : ConcreteAction)
    → In a acts
    → OnSome (Split acts a) (modify_acts acts)
modify_acts-Split (dict d ∷ acts) a (inl e) =
    with_dict d acts a (modify_acts acts) (everywhere (λ ds. inl (inl e)) (modify_acts acts))
modify_acts-Split (dict d ∷ acts) a (inr i) =
    with_dict d acts a (modify_acts acts)
      (weaken (modify_acts acts) (pass d acts a) (modify_acts-Split acts a i))
modify_acts-Split (object (Action.query b) ∷ acts) a (inl e) =
    everywhere (λ ds. inr (inl e)) (modify_acts acts)
modify_acts-Split (object (Action.query b) ∷ acts) a (inr i) =
    weaken (modify_acts acts) (λ ds. elim [ inl k ↦ inl k | inr k ↦ inr (inr k) ])
      (modify_acts-Split acts a i)
modify_acts-Split (object _ ∷ acts) a h = tt
modify_acts-Split [] a h = absurd h

kept :
    (acts : List ConcreteAction) (ds : List Dict) (a : ConcreteAction)
    → modify_acts acts ≡ some ds
    → In a acts
    → In a (map dict (sort_by_length ds) ++ query_acts acts)
kept acts ds a e i =
    (In-append a (map dict (sort_by_length ds)) (query_acts acts)).1
      (elim (OnSome-some (Split acts a) (modify_acts acts) (modify_acts-Split acts a i) e) [
        | inl d ↦ inl (In-map_dict a ds (sort_by_length ds) (λ x. (In-sort_by_length x ds).1) d)
        | inr q ↦ inr q
      ])

checked_lem :
    (mat : Dict) (ds : List Dict) (queries : List ConcreteAction) (out : ConcreteRule)
    → checked mat ds queries ≡ some out
    → (record { mat = mat; actions = map dict ds ++ queries } ≡ out)
      × (has_outport ds ≡ true)
      × (has_compilable_action_list ds ≡ true)
checked_lem mat ds queries out h =
    elim (Bool-cases (has_outport ds && has_compilable_action_list ds)) [
      | inl e ↦
          let (p, c) = (and-true (has_outport ds) (has_compilable_action_list ds)).0 e in
          (some_inj (rw e at h), p, c)
      | inr e ↦ absurd (none≢some (rw e at h))
    ]

-- A rule that check_of_rules accepts keeps its match, loses none of its actions, and has them in an
-- order in which the modifications come first, each with a port, and each sets all the
-- fields that an earlier one sets; the others are queries.
pub check_of_rule-Nested :
    (r out : ConcreteRule)
    → check_of_rule r ≡ some out
    → (out.mat ≡ r.mat)
      × Nested out.actions
      × ((a : ConcreteAction) → In a r.actions → In a out.actions)
unfolding check_of_rule
check_of_rule-Nested r out h = elim (Option-cases (modify_acts r.actions)) [
  | inl e ↦ absurd (none≢some (rw e at h))
  | inr (ds, e) ↦
      let k : checked r.mat (sort_by_length ds) (query_acts r.actions) ≡ some out = rw e at h in
      let (same, p, c) = checked_lem r.mat (sort_by_length ds) (query_acts r.actions) out k in
      (
        sym (ap (λ o. o.mat) same),
        subst (λ o. Nested o.actions) same (compilable-Nested (sort_by_length ds) r.actions p c),
        λ a i. subst (λ o. In a o.actions) same (kept r.actions ds a e i),
      )
]
