-- ===== src/Ipaddr.antt =====
-- The part of the third-party package ipaddr that core/language.py uses, as an interface: IPv4
-- networks up to its ==, addresses, and its two readings of `in`.
use pyretic.Base.{◌≡◌, ◌↔◌, ◌⊎◌, Bool, true, Option}
use pyretic.Packet.{Value}

pub record Ipaddr : Type 1 where
  pub Network : Type 0
  pub Address : Type 0
  -- IPv4Address(v); `none` where it raises
  pub ipv4_address : Value → Option Address
  -- a in n, of an address and a network
  pub contains : Network → Address → Bool
  -- n in m, of two networks
  pub subnet : Network → Network → Bool
  pub network_eq : Network → Network → Bool
  -- v == n, of the value in a `modify` and a network
  pub value_eq_network : Value → Network → Bool
  pub network_eq_iff : (n m : Network) → (network_eq n m ≡ true) ↔ (n ≡ m)
  pub subnet_refl : (n : Network) → subnet n n ≡ true
  pub subnet_contains :
      (n m : Network) (a : Address) → subnet n m ≡ true → contains n a ≡ true → contains m a ≡ true
  -- two blocks that share an address are nested
  pub nested :
      (n m : Network) (a : Address)
      → contains n a ≡ true
      → contains m a ≡ true
      → (subnet n m ≡ true) ⊎ (subnet m n ≡ true)
