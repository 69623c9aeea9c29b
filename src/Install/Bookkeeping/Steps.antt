-- ===== src/Install/Bookkeeping/Steps.antt =====
-- bookkeep_count_buckets: what adding and deleting rules leaves as it was.
use pyretic.Base.{
  ℕ, ◌==◌, ==_iff, Bool, true, false, Option, some, List, [], ◌∷◌, ◌≡◌, refl, sym, ◌∙◌, arith, inl,
  inr, all, any, has, Bool-cases, true≢false, fun_ext, if◌then◌else◌, int_eq_iff,
}
use pyretic.Action.{Action, count_bucket, modify_eq_refl}
use pyretic.Install.Concrete.{ConcreteAction, dict, object}
use pyretic.Install.Rules.{ListedRule}
use pyretic.Counting.{CountBucket}
use pyretic.Counting.Operations.{add_match, delete_match}
use pyretic.Install.Bookkeeping.{
  RuleKey, rule_key_eq, Buckets, Books, update_bucket, on_buckets, add_outstanding, is_outstanding,
  Op, update_count_bucket, update_actions, is_outstanding_for,
}

-- Which buckets are new, and whether a rule has one of them.
abbrev pub flags : Buckets → ℕ → Bool
flags bs n = (bs n).new_bucket

abbrev pub is_new : (ℕ → Bool) → ConcreteAction → Bool
is_new new (object (Action.query (count_bucket n))) = new n
is_new new _ = false

abbrev pub has_new_bucket : (ℕ → Bool) → ListedRule → Bool
has_new_bucket new r = any (is_new new) r.actions

-- The step succeeds, and the same buckets are new afterwards.
abbrev pub Keeps : Books → Option Books → Type 0
Keeps b result = (b' : Books) × (result ≡ some b') × (flags b'.buckets ≡ flags b.buckets)

flag_at :
    (t : Bool) (f : CountBucket → CountBucket) (b : CountBucket)
    → ((c : CountBucket) → (f c).new_bucket ≡ c.new_bucket)
    → (if t then f b else b).new_bucket ≡ b.new_bucket
flag_at true f b h = h b
flag_at false f b h = refl

update_bucket-flags :
    (n : ℕ) (f : CountBucket → CountBucket) (bs : Buckets)
    → ((b : CountBucket) → (f b).new_bucket ≡ b.new_bucket)
    → flags (update_bucket n f bs) ≡ flags bs
unfolding update_bucket
update_bucket-flags n f bs h = fun_ext (λ k. flag_at (n == k) f (bs k) h)

pub on_buckets-flags :
    (f : CountBucket → CountBucket) (ns : List ℕ) (bs : Buckets)
    → ((b : CountBucket) → (f b).new_bucket ≡ b.new_bucket)
    → flags (on_buckets f ns bs) ≡ flags bs
unfolding on_buckets
on_buckets-flags f [] bs h = refl
on_buckets-flags f (n ∷ ns) bs h =
    on_buckets-flags f ns (update_bucket n f bs) h ∙ update_bucket-flags n f bs h

rule_key_eq_refl : (key : RuleKey) → rule_key_eq key key ≡ true
unfolding rule_key_eq
rule_key_eq_refl key =
    rw
      (
        modify_eq_refl key.mat,
        (int_eq_iff key.priority key.priority).1 refl,
        (==_iff key.version key.version).1 refl,
      )
      refl

has_first : (n : ℕ) (ns : List ℕ) → has n (if has n ns then ns else n ∷ ns) ≡ true
has_first n ns = ground (arith, ==_iff n n)

is_outstanding-add :
    (key : RuleKey) (n : ℕ) (ds : List (RuleKey × List ℕ))
    → is_outstanding key n (add_outstanding key n ds) ≡ true
unfolding is_outstanding add_outstanding
is_outstanding-add key n [] = rw (rule_key_eq_refl key) (ground arith)
is_outstanding-add key n (d ∷ ds) = elim (Bool-cases (rule_key_eq key d.0)) [
  | inl e ↦ rw (e, e) (has_first n d.1)
  | inr e ↦ rw (e, e) (is_outstanding-add key n ds)
]

is_outstanding-kept :
    (key : RuleKey) (n k : ℕ) (ds : List (RuleKey × List ℕ))
    → is_outstanding key k ds ≡ true
    → is_outstanding key k (add_outstanding key n ds) ≡ true
unfolding is_outstanding add_outstanding
is_outstanding-kept key n k [] h = absurd (true≢false (sym h))
is_outstanding-kept key n k (d ∷ ds) h = elim (Bool-cases (rule_key_eq key d.0)) [
  | inl e ↦ let there : has k d.1 ≡ true = rw e at h in rw (e, e) (ground arith)
  | inr e ↦ rw (e, e) (is_outstanding-kept key n k ds (rw e at h))
]

add_match-new :
    (key : RuleKey) (b : CountBucket)
    → (add_match key.mat key.priority key.version b).new_bucket ≡ b.new_bucket
unfolding add_match
add_match-new key b = ground arith

pub add-Keeps :
    (key : RuleKey) (acts : List ConcreteAction) (b : Books)
    → Keeps b (update_actions Op.add key acts b)
unfolding update_actions update_count_bucket
add-Keeps key [] b = (b, refl, refl)
add-Keeps key (object (Action.query (count_bucket n)) ∷ acts) b =
    let f = add_match key.mat key.priority key.version in
    let b1 = record b { buckets = update_bucket n f b.buckets } in
    let (b', e, same) = add-Keeps key acts b1 in
    (b', e, same ∙ update_bucket-flags n f b.buckets (add_match-new key))
add-Keeps key (dict d ∷ acts) b = add-Keeps key acts b
add-Keeps key (object _ ∷ acts) b = add-Keeps key acts b

-- The deletion of a rule from its buckets, all of which are outstanding afterwards.
pub record Deletes (key : RuleKey) (acts : List ConcreteAction) (b : Books) (result : Option Books)
    : Type 0 where
  pub after : Books
  pub is_result : result ≡ some after
  pub same : flags after.buckets ≡ flags b.buckets
  pub recorded : all (is_outstanding_for key after.outstanding_deletes) acts ≡ true
  pub kept :
      (k : ℕ)
      → is_outstanding key k b.outstanding_deletes ≡ true
      → is_outstanding key k after.outstanding_deletes ≡ true

pub delete-Deletes :
    (key : RuleKey) (acts : List ConcreteAction) (b : Books)
    → Deletes key acts b (update_actions Op.delete key acts b)
unfolding update_actions update_count_bucket delete_match
delete-Deletes key [] b = record {
  after = b;
  is_result = refl;
  same = refl;
  recorded = refl;
  kept = λ k h. h;
}
delete-Deletes key (object (Action.query (count_bucket n)) ∷ acts) b =
    let f = delete_match key.mat key.priority key.version false in
    let b1 = record b {
      buckets = update_bucket n f b.buckets;
      outstanding_deletes = add_outstanding key n b.outstanding_deletes;
    } in
    let rest = delete-Deletes key acts b1 in
    record {
      after = rest.after;
      is_result = rest.is_result;
      same = rest.same ∙ update_bucket-flags n f b.buckets (λ c. refl);
      recorded = rw (rest.kept n (is_outstanding-add key n b.outstanding_deletes)) rest.recorded;
      kept = λ k h. rest.kept k (is_outstanding-kept key n k b.outstanding_deletes h);
    }
delete-Deletes key (dict d ∷ acts) b =
    let rest = delete-Deletes key acts b in
    record {
      after = rest.after;
      is_result = rest.is_result;
      same = rest.same;
      recorded = rest.recorded;
      kept = rest.kept;
    }
delete-Deletes key (object _ ∷ acts) b =
    let rest = delete-Deletes key acts b in
    record {
      after = rest.after;
      is_result = rest.is_result;
      same = rest.same;
      recorded = rest.recorded;
      kept = rest.kept;
    }
