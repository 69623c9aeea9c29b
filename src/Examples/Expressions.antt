-- ===== src/Examples/Expressions.antt =====
-- The theorems on regular expressions, for ((1|2)^3)* & !(1^3) and words of it.
use pyretic.Base.{ℕ, ◌&&◌, ◌||◌, [], ◌∷◌, ◌≡◌}
use pyretic.Regex.{
  Re, symbol, negate, smart_star, smart_negate, smart_inters, smart_alter, smart_concat, deriv,
  match_string,
}
use pyretic.Regex.Language.{lang}
use pyretic.Regex.Smart.{smart_alter-lang, smart_inters-lang}
use pyretic.Regex.Deriv.{deriv-lang, match_string-lang}
use pyretic.Regex.Consumed.{deriv_consumed, deriv_consumed-deriv}

abbrev letter : ℕ → Re
letter c = symbol c (c ∷ [])

abbrev either_then : Re
either_then = smart_concat (smart_alter (letter 2) (letter 1)) (letter 3)

abbrev pattern_of_words : Re
pattern_of_words =
    smart_inters (smart_star either_then) (smart_negate (smart_concat (letter 1) (letter 3)))

match_string-lang_example :
    match_string pattern_of_words (1 ∷ 3 ∷ 2 ∷ 3 ∷ []) ≡ lang pattern_of_words (1 ∷ 3 ∷ 2 ∷ 3 ∷ [])
match_string-lang_example = match_string-lang pattern_of_words (1 ∷ 3 ∷ 2 ∷ 3 ∷ [])

deriv-lang_example :
    lang (deriv pattern_of_words 1) (3 ∷ 2 ∷ 3 ∷ []) ≡ lang pattern_of_words (1 ∷ 3 ∷ 2 ∷ 3 ∷ [])
deriv-lang_example = deriv-lang pattern_of_words 1 (3 ∷ 2 ∷ 3 ∷ [])

deriv_consumed-deriv_example : (deriv_consumed pattern_of_words 2).0 ≡ deriv pattern_of_words 2
deriv_consumed-deriv_example = deriv_consumed-deriv pattern_of_words 2

smart_alter-lang_example :
    lang (smart_alter either_then (letter 2)) (2 ∷ [])
    ≡ (lang either_then (2 ∷ []) || lang (letter 2) (2 ∷ []))
smart_alter-lang_example = smart_alter-lang either_then (letter 2) (2 ∷ [])

smart_inters-lang_example :
    lang (smart_inters pattern_of_words (negate (letter 2))) (2 ∷ 3 ∷ [])
    ≡ (lang pattern_of_words (2 ∷ 3 ∷ []) && lang (negate (letter 2)) (2 ∷ 3 ∷ []))
smart_inters-lang_example = smart_inters-lang pattern_of_words (negate (letter 2)) (2 ∷ 3 ∷ [])
