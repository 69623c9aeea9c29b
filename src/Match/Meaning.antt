-- ===== src/Match/Meaning.antt =====
-- What a match without tagging headers asks of a packet, field by field.
use pyretic.Base.{
  Bool, true, false, Option, none, some, ◌≡◌, refl, ◌↔◌, inl, inr, List, [], ◌∷◌, all, any, all-In,
  all_intro, arith, Bool-cases, In,
}
use pyretic.Packet.{TagField, Field, tag, all_fields, In-all_fields, Packet}
use pyretic.Ipaddr.{Ipaddr}
use pyretic.Match.{
  MatchMap, PatternOf, is_none, Pred, identity, drop, match, accepts_at, match_eval, is_empty,
}

pub all_fields-In : (p : Field → Bool) → all p all_fields ≡ true → (f : Field) → p f ≡ true
all_fields-In p h f = all-In p all_fields f h (In-all_fields f)

any-In : {A : Type 0} (p : A → Bool) (xs : List A) (x : A) → In x xs → p x ≡ true → any p xs ≡ true
any-In p [] x i h = absurd i
any-In p (y ∷ xs) x (inl e) h = ground (arith, e)
any-In p (y ∷ xs) x (inr i) h = ground (arith, any-In p xs x i h)

pub any_fields-In : (p : Field → Bool) → any p all_fields ≡ false → (f : Field) → p f ≡ false
any_fields-In p h f = ground (arith, any-In p all_fields f (In-all_fields f))

-- An element at which the test passes.
pub any_witness :
    {A : Type 0} (p : A → Bool) (xs : List A) → any p xs ≡ true → (x : A) × (p x ≡ true)
any_witness p [] h = absurd (ground arith)
any_witness p (y ∷ xs) h = elim (Bool-cases (p y)) [
  | inl e ↦ (y, e)
  | inr e ↦ any_witness p xs (ground arith)
]

module _ ⦃i : Ipaddr⦄ where
  -- No tagging header is mentioned.
  abbrev pub Untagged : MatchMap → Type 0
  Untagged m = (t : TagField) → m (tag t) ≡ none

  abbrev pub UntaggedPred : Pred → Type 0
  UntaggedPred identity = Unit
  UntaggedPred drop = Unit
  UntaggedPred (match m) = Untagged m

  pub match_eval_iff :
      (m : MatchMap) (pkt : Packet)
      → (match_eval m pkt ≡ true) ↔ ((f : Field) → accepts_at m pkt f (m f) ≡ true)
  unfolding match_eval
  match_eval_iff m pkt = (
    all_fields-In (λ f. accepts_at m pkt f (m f)),
    all_intro (λ f. accepts_at m pkt f (m f)) all_fields,
  )

  pub empty_entry :
      (m : MatchMap) (pkt : Packet) (f : Field) (p : Option (PatternOf f))
      → is_none p ≡ true
      → accepts_at m pkt f p ≡ true
  empty_entry m pkt f none h = refl
  empty_entry m pkt f (some p) h = ground arith

  pub match_eval-empty : (m : MatchMap) (pkt : Packet) → is_empty m ≡ true → match_eval m pkt ≡ true
  unfolding is_empty
  match_eval-empty m pkt h =
      (match_eval_iff m pkt).1
        (λ f. empty_entry m pkt f (m f) (all_fields-In (λ g. is_none (m g)) h f))
