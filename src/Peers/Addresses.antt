-- ===== src/Peers/Addresses.antt =====
-- The addresses that `create` gives out, whether asked for or chosen by edgekit.
use edgekit.Base.{
  none, some, inr, inl, false, str_eq-ne, str_eq, arith, Bool-cases, ◌<◌, ◌+◌, ok, ◌≤◌, Option,
  String, List, ◌≡◌, ℕ,
}
use edgekit.System.Wireguard.{v4, v6, num_addresses, Ip, in_network, Network, Addresses}
use edgekit.System.Wireguard.Free.{hosts-cons, Allocated-next_free_address, Allocated}
use edgekit.Peers.Service.{parsed_address, validate_address, hub_ip, choose_address}
use edgekit.System.Shell.{Host}

module _ (H : Host) (A : Addresses) (show_injective : (a b : ℕ) → A.show a ≡ A.show b → a ≡ b)
    (network : Network) (new_id : List ℕ → ℕ) where
  -- The canonical text of an address of the tunnel's network that is not the hub's.
  pub record Tunnel (t : String) : Type 0 where
    pub number : ℕ
    pub canonical : t ≡ A.show number
    pub low : network.base ≤ number
    pub high : number < network.base + num_addresses network
    pub not_hub : str_eq t (hub_ip H A network new_id) ≡ false

  hub_ip-small : network.prefixlen ≤ 30 → hub_ip H A network new_id ≡ A.show (network.base + 1)
  unfolding hub_ip
  hub_ip-small small = rw (hosts-cons network small)

  Tunnel-Allocated :
      (taken : List String) (t : String)
      → network.prefixlen ≤ 30
      → Allocated A show_injective network taken t
      → Tunnel t
  Tunnel-Allocated taken t small l = record {
    number = l.number;
    canonical = l.canonical;
    low = omega (arith, l.above_hub);
    high = omega (arith, l.below_broadcast);
    not_hub =
        rw (l.canonical, hub_ip-small small)
          (str_eq-ne (A.show l.number) (A.show (network.base + 1)) (λ e.
            absurd (omega (arith, l.above_hub, show_injective l.number (network.base + 1) e))));
  }

  Tunnel-parsed_address :
      (ip : Option Ip) (taken : List String) (t : String)
      → parsed_address H A network new_id ip taken ≡ ok t
      → Tunnel t
  unfolding in_network
  Tunnel-parsed_address none taken t e = absurd (cc)
  Tunnel-parsed_address (some (v6 u)) taken t e = absurd (cc)
  Tunnel-parsed_address (some (v4 a)) taken t e =
      let c : t ≡ A.show a = ground arith in
      record {
        number = a;
        canonical = c;
        low = ground arith;
        high = ground arith;
        not_hub = rw c (ground arith);
      }

  pub choose_address-Tunnel :
      (address : String) (taken : List String) (t : String)
      → network.prefixlen ≤ 30
      → choose_address H A network new_id address taken ≡ ok t
      → Tunnel t
  unfolding choose_address validate_address
  choose_address-Tunnel address taken t small e = elim (Bool-cases (str_eq address "")) [
    | inl chosen ↦
        Tunnel-Allocated taken t small
          (Allocated-next_free_address A show_injective network taken t small (rw chosen at e))
    | inr given ↦ Tunnel-parsed_address (A.parse address) taken t (rw given at e)
  ]
