-- ===== src/Fdd/Translate/Correct.antt =====
-- lib/path.py, FDDTranslator.translate: the diagram decides what the filter decides.
use pyretic.Base.{
  ℕ, suc, ◌+◌, ==_iff, Bool, true, false, ◌&&◌, not, Option, some, List, [], ◌∷◌, ◌≡◌, refl, ◌∙◌,
  ap, arith, inl, inr, bind, if◌then◌else◌, has, set_union, set_inter, all, OnSome-some, none≢some,
  ◌≢◌,
}
use pyretic.Packet.{Field, Packet}
use pyretic.Packet.Equality.{field_equality}
use pyretic.Ipaddr.{Ipaddr}
use pyretic.Fdd.{merge, neg}
use pyretic.Fdd.Leaves.{merge-Leaves}
use pyretic.Fdd.Merge.{joined, reach, size, merge-Joins}
use pyretic.Fdd.Negate.{AtMost, Only, neg-reach}
use pyretic.Fdd.Translate.{
  Pattern, plain, pattern_equal, pattern_equality, Diagram, get_id, get_drop, test_diagram,
  no_entries, merge_fresh, merge_tests, translate_match,
}

AtMost-joined :
    (pred : ℕ) (u : Bool) (s t : List ℕ)
    → AtMost pred s
    → AtMost pred t
    → AtMost pred (if u then set_union s t else set_inter s t)
unfolding set_union set_inter
AtMost-joined pred u s t (inl e) (inl f) = rw (e, f) (ground arith)
AtMost-joined pred u s t (inl e) (inr f) = rw (e, f) (ground arith)
AtMost-joined pred u s t (inr e) (inl f) = rw (e, f) (ground arith)
AtMost-joined pred u s t (inr e) (inr f) = rw (e, f) (ground (arith, (==_iff pred pred).1 refl))

has_self : (p : ℕ) → has p (p ∷ []) ≡ true
has_self p = ground (arith, (==_iff p p).1 refl)

module _ ⦃i : Ipaddr⦄ where
  -- The values that the tests compare.
  abbrev pub look : Packet → Field → Pattern
  look pkt f = plain (pkt.header f)

  -- The diagram has this predicate only, and leads a packet to it if the packet passes.
  pub record Decided (d : Diagram) (pred : ℕ) (test : Packet → Bool) : Type 0 where
    pub only : Only pred d
    pub says : (pkt : Packet) → has pred (reach (look pkt) d) ≡ test pkt

  abbrev pub Decides : Option Diagram → ℕ → (Packet → Bool) → Type 0
  Decides result pred test = (d : Diagram) × (result ≡ some d) × Decided d pred test

  pub Decided-id : (pred : ℕ) → Decided (get_id pred) pred (λ pkt. true)
  unfolding reach
  Decided-id pred = record { only = inr refl; says = λ pkt. has_self pred }

  pub Decided-drop : (pred : ℕ) → Decided get_drop pred (λ pkt. false)
  unfolding reach
  Decided-drop pred = record { only = inl refl; says = λ pkt. refl }

  abbrev pub holds : Packet → Field × Pattern → Bool
  holds pkt t = pattern_equal (look pkt t.0) t.1

  Decided-test :
      (pred : ℕ) (t : Field × Pattern) → Decided (test_diagram pred t) pred (λ pkt. holds pkt t)
  unfolding reach
  Decided-test pred t = record {
    only = (inr refl, inl refl);
    says = λ pkt. ground (arith, has_self pred);
  }

  pub Decided-cong :
      {d : Diagram} {pred : ℕ} {f : Packet → Bool} (g : Packet → Bool)
      → ((pkt : Packet) → f pkt ≡ g pkt)
      → Decided d pred f
      → Decided d pred g
  Decided-cong g h d = record { only = d.only; says = λ pkt. d.says pkt ∙ h pkt }

  pub negate-Decides :
      (result : Option Diagram) (pred : ℕ) (f : Packet → Bool)
      → Decides result pred f
      → Decides (bind result (λ d. neg d pred)) pred (λ pkt. not (f pkt))
  negate-Decides result pred f (d, e, h) =
      let (d', e', only, says) = neg-reach d pred h.only in
      (d', rw e e', record { only = only; says = λ pkt. says (look pkt) ∙ ap not (h.says pkt) })

  module _ (greater : Field → Pattern → Field → Pattern → Bool) where
    pub merge_fresh-Decides :
        (u : Bool) (pred : ℕ) (d1 d2 : Diagram) (f g : Packet → Bool)
        → Decided d1 pred f
        → Decided d2 pred g
        → Decides (merge_fresh greater u d1 d2) pred (λ pkt. joined u (f pkt) (g pkt))
    unfolding merge_fresh
    merge_fresh-Decides u pred d1 d2 f g h1 h2 =
        let n = suc (size d1 + size d2) in
        let j = merge-Joins greater u n d1 d2 no_entries (omega arith) in
        (
          j.merged,
          rw j.is_result refl,
          record {
            only =
                OnSome-some (λ x. Only pred x.0) (merge greater u n d1 d2 no_entries)
                  (merge-Leaves (AtMost pred) greater u (AtMost-joined pred u) n d1 d2 no_entries
                    h1.only h2.only)
                  j.is_result;
            says = λ pkt.
                j.says (look pkt) pred (λ k v e. absurd (none≢some e))
                ∙ rw (h1.says pkt, h2.says pkt) refl;
          },
        )

    merge_tests-Decides :
        (pred : ℕ) (ts : List (Field × Pattern)) (d : Diagram) (f : Packet → Bool)
        → Decided d pred f
        → Decides (merge_tests greater pred d ts) pred (λ pkt. f pkt && all (holds pkt) ts)
    unfolding merge_tests
    merge_tests-Decides pred [] d f h = (d, refl, Decided-cong _ (λ pkt. ground arith) h)
    merge_tests-Decides pred (t ∷ ts) d f h =
        let (e, is, he) =
          merge_fresh-Decides false pred d (test_diagram pred t) f (λ pkt. holds pkt t) h
            (Decided-test pred t) in
        let (r, is', hr) = merge_tests-Decides pred ts e (λ pkt. f pkt && holds pkt t) he in
        (r, rw is is', Decided-cong _ (λ pkt. ground arith) hr)

    pub translate_match-Decides :
        (pred : ℕ) (ts : List (Field × Pattern))
        → ts ≢ []
        → Decides (translate_match greater pred ts) pred (λ pkt. all (holds pkt) ts)
    unfolding translate_match
    translate_match-Decides pred [] h = absurd (h refl)
    translate_match-Decides pred (t ∷ ts) h =
        merge_tests-Decides pred ts (test_diagram pred t) (λ pkt. holds pkt t) (Decided-test pred t)
