-- ===== src/Examples/Automata.antt =====
-- The theorems on automata, for the words of ones, and all words.
use pyretic.Base.{
  ℕ, true, List, [], ◌∷◌, ◌≡◌, refl, sym, ◌∙◌, ap, ap₂, arith, inl, inr, some, In, All,
}
use pyretic.Regex.{
  smart_concat, smart_negate, smart_star, Re, empty, epsilon, symbol, concat, star, negate, alter,
  inters, Res, nil, cons, re_eq, res_eq, deriv,
}
use pyretic.Automaton.{Tables, vector_eq, deriv_vector}
use pyretic.Automaton.Growth.{Universe}
use pyretic.Automaton.Explored.{Leads}
use pyretic.Automaton.Component.{Component}
use pyretic.Automaton.Vector.{vector, make_dfa}
use pyretic.Automaton.Vector.Complete.{Explorable, AllComplete, make_dfa-Complete}
use pyretic.Automaton.Words.{Accepts, make_dfa-Accepts}

mutual
  unfolding re_eq

  re_eq_refl : (r : Re) → re_eq r r ≡ true
  re_eq_refl (empty m) = refl
  re_eq_refl (epsilon m) = refl
  re_eq_refl (symbol c m) = ground arith
  re_eq_refl (concat r s) = rw (re_eq_refl r, re_eq_refl s) refl
  re_eq_refl (star r) = re_eq_refl r
  re_eq_refl (negate r) = re_eq_refl r
  re_eq_refl (alter rs) = res_eq_refl rs
  re_eq_refl (inters rs) = res_eq_refl rs

  res_eq_refl : (rs : Res) → res_eq rs rs ≡ true
  res_eq_refl nil = refl
  res_eq_refl (cons r rs) = rw (re_eq_refl r, res_eq_refl rs) refl

vector_eq_refl : (q : List Re) → vector_eq q q ≡ true
unfolding vector_eq
vector_eq_refl [] = refl
vector_eq_refl (r ∷ rs) = rw (re_eq_refl r, vector_eq_refl rs) refl

-- Words of ones, with a query's metadata, beside all words.
abbrev ones_or_all : List Re
ones_or_all = star (symbol 1 (9 ∷ [])) ∷ negate (empty []) ∷ []

-- After another letter.
abbrev only_all : List Re
only_all = empty [] ∷ negate (empty []) ∷ []

abbrev both : List (List Re)
both = ones_or_all ∷ only_all ∷ []

abbrev letters : List ℕ
letters = 1 ∷ 2 ∷ []

derivatives :
    (deriv_vector ones_or_all 1 ≡ ones_or_all)
    × (deriv_vector ones_or_all 2 ≡ only_all)
    × (deriv_vector only_all 1 ≡ only_all)
    × (deriv_vector only_all 2 ≡ only_all)
unfolding deriv_vector smart_concat smart_negate smart_star
derivatives = (refl, refl, refl, refl)

both-closed : (q : List Re) (c : ℕ) → In q both → In c letters → In (deriv_vector q c) both
both-closed q c (inl e) (inl f) = inl (ap₂ deriv_vector e f ∙ derivatives.0)
both-closed q c (inl e) (inr (inl f)) = inr (inl (ap₂ deriv_vector e f ∙ derivatives.1))
both-closed q c (inr (inl e)) (inl f) = inr (inl (ap₂ deriv_vector e f ∙ derivatives.2))
both-closed q c (inr (inl e)) (inr (inl f)) = inr (inl (ap₂ deriv_vector e f ∙ derivatives.3))
both-closed q c (inr (inr nowhere)) _ = absurd nowhere
both-closed q c _ (inr (inr nowhere)) = absurd nowhere

both-apart : (q r : List Re) → In q both → In r both → vector_eq q r ≡ true → q ≡ r
unfolding vector_eq
both-apart q r (inl e) (inl f) h = e ∙ sym f
both-apart q r (inr (inl e)) (inr (inl f)) h = e ∙ sym f
both-apart q r (inl e) (inr (inl f)) h = absurd (ground (arith, e, f))
both-apart q r (inr (inl e)) (inl f) h = absurd (ground (arith, e, f))
both-apart q r (inr (inr nowhere)) _ h = absurd nowhere
both-apart q r _ (inr (inr nowhere)) h = absurd nowhere

both-Universe : Universe vector_eq deriv_vector letters both
both-Universe = record { closed = both-closed; apart = both-apart; reflexive = vector_eq_refl }

abbrev ones : Re
ones = star (symbol 1 (9 ∷ []))

abbrev all_words : Re
all_words = negate (empty [])

ones-Explorable : Explorable letters 3 ones
unfolding deriv smart_concat smart_star re_eq
ones-Explorable = (
  ones ∷ empty [] ∷ [],
  record {
    closed = λ q c i j. elim i [
      | inl e ↦ elim j [
        | inl f ↦ inl (ap₂ deriv e f)
        | inr k ↦ elim k [ inl f ↦ inr (inl (ap₂ deriv e f)) | inr nowhere ↦ absurd nowhere ]
      ]
      | inr k ↦ elim k [ inl e ↦ inr (inl (ap (λ r. deriv r c) e)) | inr nowhere ↦ absurd nowhere ]
    ];
    apart = λ q r i j h. elim i [
      | inl e ↦ elim j [
        | inl f ↦ e ∙ sym f
        | inr k ↦ elim k [ inl f ↦ absurd (ground (arith, e, f)) | inr nowhere ↦ absurd nowhere ]
      ]
      | inr k ↦ elim k [
        | inl e ↦ elim j [
          | inl f ↦ absurd (ground (arith, e, f))
          | inr k' ↦ elim k' [ inl f ↦ e ∙ sym f | inr nowhere ↦ absurd nowhere ]
        ]
        | inr nowhere ↦ absurd nowhere
      ]
    ];
    reflexive = re_eq_refl;
  },
  inl refl,
  omega arith,
)

all_words-Explorable : Explorable letters 3 all_words
unfolding deriv smart_negate
all_words-Explorable = (
  all_words ∷ [],
  record {
    closed =
        λ q c i j. elim i [ inl e ↦ inl (ap (λ r. deriv r c) e) | inr nowhere ↦ absurd nowhere ];
    apart = λ q r i j h. elim i [
      | inl e ↦ elim j [ inl f ↦ e ∙ sym f | inr nowhere ↦ absurd nowhere ]
      | inr nowhere ↦ absurd nowhere
    ];
    reflexive = re_eq_refl;
  },
  inl refl,
  omega arith,
)

make_dfa-Accepts_example :
    (components : List Component) × (t : Tables (List Re)) × (make_dfa letters 3 ones_or_all
      ≡ some (vector letters components t))
    × Accepts t.transitions ones_or_all (1 ∷ 1 ∷ 2 ∷ [])
make_dfa-Accepts_example =
    make_dfa-Accepts letters both 3 ones (all_words ∷ []) (1 ∷ 1 ∷ 2 ∷ []) both-Universe (inl refl)
      (omega arith) (ones-Explorable, (all_words-Explorable, tt))
      (inl refl, (inl refl, (inr (inl refl), tt)))

make_dfa-Complete_example :
    (components : List Component) × (t : Tables (List Re)) × (make_dfa letters 3 ones_or_all
      ≡ some (vector letters components t))
    × AllComplete letters ones_or_all components
    × In ones_or_all t.state_list
    × All (λ q. All (λ c. Leads vector_eq deriv_vector t q c) letters) t.state_list
make_dfa-Complete_example =
    make_dfa-Complete letters both 3 ones (all_words ∷ []) both-Universe (inl refl) (omega arith)
      (ones-Explorable, (all_words-Explorable, tt))
