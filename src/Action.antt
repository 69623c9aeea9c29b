-- ===== src/Action.antt =====
-- core/language.py: the actions of rules (identity, _modify, Controller and the query buckets), and
-- what evaluating one on a packet does.
pub mod Events
pub mod Chain
use pyretic.Base.{
  all_intro, ℕ, ◌*◌, ◌-◌, ◌^◌, bit_and, bit_or, leb, ◌==◌, Bool, true, false, ◌&&◌, ◌||◌, Option,
  none, some, List, [], ◌∷◌, ◌≡◌, refl, all, fun_ext, if◌then◌else◌, arith, ap, Bool-cases, ◌⊎◌,
  inl, inr, In, ◌↔◌,
}
use pyretic.Packet.{
  vlan_id, vlan_pcp, vlan_offset, vlan_nbits, vlan_total_stages, tag, all_fields, Value, num,
  option_eq, option_eq_iff, Packet, ModifyMap, modifymany,
}
use pyretic.Match.{vlan_mask, num?}
use pyretic.Match.Meaning.{all_fields-In}

-- The buckets that are actions themselves, by their identity. A FwdBucket is none: its classifier
-- has the action Controller.
pub data Bucket : Type 0 where
  count_bucket path_bucket netflow_bucket : ℕ → Bucket

-- What a policy puts packets into.
pub data Query : Type 0 where
  rule_bucket : Bucket → Query
  fwd_bucket : ℕ → Query

pub data Action : Type 0 where
  identity : Action
  modify : ModifyMap → Action
  controller : Action
  query : Bucket → Action

-- What an evaluation does: it returns a packet, puts one into a bucket, or raises.
pub data Event : Type 0 where
  emit : Packet → Event
  collect : Query → Packet → Event
  raised : Event

-- existing_vlan, where KeyError is caught
unfoldable pub existing_vlan : Option Value → Option Value → Option ℕ
existing_vlan none pcp = some 0
existing_vlan (some (num v)) none = some v
existing_vlan (some (num v)) (some (num p)) = some (bit_or v (p * 2 ^ 12))
existing_vlan _ _ = none

-- existing_vlan & (0xffff - mask), on Python's integers
unfoldable pub clear_bits : ℕ → ℕ → ℕ
clear_bits v mask =
    if leb mask 0xffff then bit_and v (0xffff - mask) else v - bit_and v (mask - 0xffff - 1)

abbrev set_vlan : Option Value → Option Value → ModifyMap
set_vlan vid pcp (tag vlan_id) = some vid
set_vlan vid pcp (tag vlan_pcp) = some pcp
set_vlan vid pcp _ = none

unfoldable pub new_vlan : ℕ → ℕ → ℕ → ℕ → ℕ → ℕ
unfolding vlan_mask clear_bits
new_vlan existing vid pcp offset nbits =
    bit_or (clear_bits existing (vlan_mask offset nbits))
      (bit_and (bit_or vid (pcp * 2 ^ 12)) (vlan_mask offset nbits))

write_vlan : Packet → Option ℕ → Option ℕ → Option ℕ → Option ℕ → Option ℕ → Event
write_vlan pkt (some vid) (some pcp) (some offset) (some nbits) (some existing) =
    let new = new_vlan existing vid pcp offset nbits in
    emit
      (modifymany pkt (set_vlan (some (num (bit_and new 0xfff))) (some (num (bit_and new 0x7000)))))
write_vlan _ _ _ _ _ _ = raised

-- vlan_modify, for the `vlan_id` of the dictionary
unfoldable pub vlan_modify : ModifyMap → Option Value → Packet → Event
unfolding write_vlan new_vlan existing_vlan
vlan_modify m none pkt = emit (modifymany pkt (set_vlan none none))
vlan_modify m vid pkt =
    write_vlan pkt (num? (some vid)) (num? (m (tag vlan_pcp))) (num? (m (tag vlan_offset)))
      (num? (m (tag vlan_nbits)))
      (existing_vlan (pkt.header (tag vlan_id)) (pkt.header (tag vlan_pcp)))

-- The dictionary without the five tagging headers.
abbrev no_tags : ModifyMap → ModifyMap
no_tags m (tag _) = none
no_tags m f = m f

abbrev not_none : Option (Option Value) → Bool
not_none none = false
not_none (some _) = true

abbrev has_all_tags : ModifyMap → Bool
has_all_tags m =
    not_none (m (tag vlan_offset))
    && (not_none (m (tag vlan_nbits))
        && (not_none (m (tag vlan_pcp)) && not_none (m (tag vlan_total_stages))))

-- _modify.eval: the chain of `del` fails at once without vlan_id, and raises if it fails later.
modify_eval_at : ModifyMap → Packet → Option (Option Value) → Event
modify_eval_at m pkt none = emit (modifymany pkt m)
modify_eval_at m pkt (some vid) =
    if has_all_tags m then vlan_modify m vid (modifymany pkt (no_tags m)) else raised

unfoldable pub modify_eval : ModifyMap → Packet → Event
unfolding modify_eval_at
modify_eval m pkt = modify_eval_at m pkt (m (tag vlan_id))

unfoldable pub action_eval : Action → Packet → List Event
action_eval identity pkt = emit pkt ∷ []
action_eval (modify m) pkt = modify_eval m pkt ∷ []
action_eval controller pkt = []
action_eval (query b) pkt = collect (rule_bucket b) pkt ∷ []

unfoldable pub bucket_eq : Bucket → Bucket → Bool
bucket_eq (count_bucket a) (count_bucket b) = a == b
bucket_eq (path_bucket a) (path_bucket b) = a == b
bucket_eq (netflow_bucket a) (netflow_bucket b) = a == b
bucket_eq _ _ = false

abbrev pub entry_eq : Option (Option Value) → Option (Option Value) → Bool
entry_eq none none = true
entry_eq (some v) (some w) = option_eq v w
entry_eq _ _ = false

unfoldable pub modify_eq : ModifyMap → ModifyMap → Bool
modify_eq m n = all (λ f. entry_eq (m f) (n f)) all_fields

unfoldable pub action_eq : Action → Action → Bool
unfolding bucket_eq
action_eq identity identity = true
action_eq (modify m) (modify n) = modify_eq m n
action_eq controller controller = true
action_eq (query a) (query b) = bucket_eq a b
action_eq _ _ = false

entry_eq_sound : (v w : Option (Option Value)) → entry_eq v w ≡ true → v ≡ w
entry_eq_sound none none h = refl
entry_eq_sound (some v) (some w) h = ap some ((option_eq_iff v w).0 h)
entry_eq_sound _ _ h = ground arith

entry_eq_refl : (v : Option (Option Value)) → entry_eq v v ≡ true
entry_eq_refl none = refl
entry_eq_refl (some v) = (option_eq_iff v v).1 refl

pub modify_eq_sound : (m n : ModifyMap) → modify_eq m n ≡ true → m ≡ n
unfolding modify_eq
modify_eq_sound m n h =
    fun_ext (λ f. entry_eq_sound (m f) (n f) (all_fields-In (λ g. entry_eq (m g) (n g)) h f))

pub modify_eq_refl : (m : ModifyMap) → modify_eq m m ≡ true
unfolding modify_eq
modify_eq_refl m = all_intro (λ f. entry_eq (m f) (m f)) all_fields (λ f. entry_eq_refl (m f))

pub action_eq_refl : (a : Action) → action_eq a a ≡ true
unfolding action_eq bucket_eq
action_eq_refl identity = refl
action_eq_refl (modify m) = modify_eq_refl m
action_eq_refl controller = refl
action_eq_refl (query (count_bucket n)) = ground arith
action_eq_refl (query (path_bucket n)) = ground arith
action_eq_refl (query (netflow_bucket n)) = ground arith

pub action_eq_sound : (a b : Action) → action_eq a b ≡ true → a ≡ b
unfolding action_eq modify_eq
action_eq_sound identity identity h = refl
action_eq_sound (modify m) (modify n) h = ap modify (modify_eq_sound m n h)
action_eq_sound controller controller h = refl
action_eq_sound (query (count_bucket a)) (query (count_bucket b)) h = ground arith
action_eq_sound (query (path_bucket a)) (query (path_bucket b)) h = ground arith
action_eq_sound (query (netflow_bucket a)) (query (netflow_bucket b)) h = ground arith
action_eq_sound _ _ h = ground arith

-- Sets of actions are lists without repetition.
unfoldable pub contains : List Action → Action → Bool
contains [] a = false
contains (x ∷ xs) a = action_eq a x || contains xs a

unfoldable pub insert : Action → List Action → List Action
unfolding contains
insert a xs = if contains xs a then xs else a ∷ xs

unfoldable pub union : List Action → List Action → List Action
unfolding insert
union [] ys = ys
union (x ∷ xs) ys = insert x (union xs ys)

pub contains-In : (xs : List Action) (a : Action) → contains xs a ≡ true → In a xs
unfolding contains
contains-In [] a h = ground arith
contains-In (x ∷ xs) a h = elim (Bool-cases (action_eq a x)) [
  | inl e ↦ inl (action_eq_sound a x e)
  | inr e ↦ inr (contains-In xs a (ground arith))
]

pub In-insert : (x a : Action) (xs : List Action) → In x (insert a xs) ↔ ((x ≡ a) ⊎ In x xs)
unfolding insert
In-insert x a xs = elim (Bool-cases (contains xs a)) [
  | inl e ↦ rw e (inr, elim [ inl p ↦ rw p (contains-In xs a e) | inr k ↦ k ])
  | inr e ↦ rw e (λ h. h, λ h. h)
]

pub In-union : (x : Action) (xs ys : List Action) → In x (union xs ys) ↔ (In x xs ⊎ In x ys)
unfolding union
In-union x [] ys = (inr, elim [ inl h ↦ absurd h | inr h ↦ h ])
In-union x (y ∷ xs) ys = (
  λ h. elim ((In-insert x y (union xs ys)).0 h) [
    | inl e ↦ inl (inl e)
    | inr k ↦ elim ((In-union x xs ys).0 k) [ inl l ↦ inl (inr l) | inr r ↦ inr r ]
  ],
  elim [
    | inl h ↦
        (In-insert x y (union xs ys)).1
          (elim h [ inl e ↦ inl e | inr l ↦ inr ((In-union x xs ys).1 (inl l)) ])
    | inr r ↦ (In-insert x y (union xs ys)).1 (inr ((In-union x xs ys).1 (inr r)))
  ],
)
