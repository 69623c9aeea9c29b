-- ===== src/Examples/Sample.antt =====
-- A concrete network: IPv4 prefixes as lists of bits, packets, matches and policies.
use pyretic.Base.{
  zero, suc, ℕ, ◌==◌, ◌/◌, ◌%◌, Bool, true, false, ◌&&◌, Option, none, some, List, [], ◌∷◌, ◌≡◌,
  refl, ◌⊎◌, inl, inr, arith,
}
use pyretic.Packet.{Field, ip, header, dstip, dstport, port, Value, num, Packet}
use pyretic.Ipaddr.{Ipaddr}
use pyretic.Match.{MatchMap}
use pyretic.Action.{count_bucket, rule_bucket}
use pyretic.Policy.{
  Policy, match, modify, query, negate, parallel, sequential, nil, cons, port_map, if_policy,
}

abbrev bit_eq : Bool → Bool → Bool
bit_eq true b = b
bit_eq false true = false
bit_eq false false = true

-- Is the first list a beginning of the second?
abbrev pub is_prefix : List Bool → List Bool → Bool
is_prefix [] ys = true
is_prefix (x ∷ xs) [] = false
is_prefix (x ∷ xs) (y ∷ ys) = bit_eq x y && is_prefix xs ys

abbrev pub bits_eq : List Bool → List Bool → Bool
bits_eq xs ys = is_prefix xs ys && is_prefix ys xs

bit_eq_refl : (b : Bool) → bit_eq b b ≡ true
bit_eq_refl true = refl
bit_eq_refl false = refl

pub is_prefix_refl : (xs : List Bool) → is_prefix xs xs ≡ true
is_prefix_refl [] = refl
is_prefix_refl (x ∷ xs) = rw (bit_eq_refl x, is_prefix_refl xs)

bit_eq_sound : (a b : Bool) → bit_eq a b ≡ true → a ≡ b
bit_eq_sound true true h = refl
bit_eq_sound false false h = refl
bit_eq_sound _ _ h = ground arith

pub bits_eq_sound : (xs ys : List Bool) → bits_eq xs ys ≡ true → xs ≡ ys
bits_eq_sound [] [] h = refl
bits_eq_sound [] (y ∷ ys) h = ground arith
bits_eq_sound (x ∷ xs) [] h = ground arith
bits_eq_sound (x ∷ xs) (y ∷ ys) h = ground (arith, bit_eq_sound x y, bits_eq_sound xs ys)

pub is_prefix_trans :
    (xs ys zs : List Bool)
    → is_prefix xs ys ≡ true
    → is_prefix ys zs ≡ true
    → is_prefix xs zs ≡ true
is_prefix_trans [] ys zs h k = refl
is_prefix_trans (x ∷ xs) [] zs h k = ground arith
is_prefix_trans (x ∷ xs) (y ∷ ys) [] h k = ground arith
is_prefix_trans (x ∷ xs) (y ∷ ys) (z ∷ zs) h k =
    ground (arith, bit_eq_sound x y, is_prefix_trans xs ys zs)

pub is_prefix_nested :
    (xs ys zs : List Bool)
    → is_prefix xs zs ≡ true
    → is_prefix ys zs ≡ true
    → (is_prefix ys xs ≡ true) ⊎ (is_prefix xs ys ≡ true)
is_prefix_nested [] ys zs h k = inr refl
is_prefix_nested (x ∷ xs) [] zs h k = inl refl
is_prefix_nested (x ∷ xs) (y ∷ ys) [] h k = ground arith
is_prefix_nested (x ∷ xs) (y ∷ ys) (z ∷ zs) h k =
    ground (arith, bit_eq_sound x z, bit_eq_sound y z, bit_eq_refl z, is_prefix_nested xs ys zs)

-- The last `n` bits of a number, the highest one first, before the bits given.
abbrev pub to_bits : ℕ → ℕ → List Bool → List Bool
to_bits zero v acc = acc
to_bits (suc n) v acc = to_bits n (v / 2) ((v % 2 == 1) ∷ acc)

abbrev pub address : Value → Option (List Bool)
address (num n) = some (to_bits 32 n [])
address _ = none

-- A network is its prefix.
instance abbrev pub prefixes : Ipaddr
prefixes = record {
  Network = List Bool;
  Address = List Bool;
  ipv4_address = address;
  contains = is_prefix;
  subnet = λ n m. is_prefix m n;
  network_eq = bits_eq;
  value_eq_network = λ v n. false;
  network_eq_iff = λ n m. (bits_eq_sound n m, λ e. rw e (rw is_prefix_refl));
  subnet_refl = is_prefix_refl;
  subnet_contains = λ n m a h k. is_prefix_trans m n a h k;
  nested = λ n m a h k. is_prefix_nested n m a h k;
}

-- 10.0.0.0/8
abbrev pub private_network : List Bool
private_network = to_bits 8 10 []

-- 10.1.0.0/16
abbrev pub site_network : List Bool
site_network = to_bits 16 2561 []

abbrev pub to_private : MatchMap
to_private (ip dstip) = some private_network
to_private _ = none

abbrev pub to_site_web : MatchMap
to_site_web (ip dstip) = some site_network
to_site_web (header dstport) = some (some (num 80))
to_site_web _ = none

abbrev web_fields : Field → Option Value
web_fields (header port) = some (num 1)
web_fields (header dstport) = some (num 80)
web_fields (ip dstip) = some (num 167837701)
web_fields _ = none

-- From port 1, to 10.1.0.5 at port 80
abbrev pub web_packet : Packet
web_packet = record { header = web_fields }

-- if_(match(dstip=10.1.0.0/16, dstport=80), fwd(2), ~match(dstip=10.0.0.0/8) >> fwd(3)) + count
abbrev pub routing : Policy
routing = parallel (
    cons
      (if_policy (match to_site_web) (modify (port_map 2))
        (sequential (cons (negate (match to_private)) (cons (modify (port_map 3)) nil))))
      (cons (query (rule_bucket (count_bucket 7))) nil))
