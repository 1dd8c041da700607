-- ===== src/Chan/Bind.antt =====
-- The addresses that a server binds: `is_link_local`, `expand_bind_addrs` and `resolve_bind_addrs`
-- of rs/v-m-io-chan/src/lib.rs, with the tests of `std::net` that they use.
use v_m_io.Common.{
  ℕ, ◌/◌, ◌%◌, Bool, true, false, not, ◌&&◌, List, [], ◌∷◌, ◌++◌, any, ◌==◌, if◌then◌else◌,
}
use v_m_io.Common.Bytes.{Bytes}
use v_m_io.Io.{Result, ok, ◌>>=◌}

-- `IpAddr`: the octets, the first two of an IPv6 address apart.
pub data IpAddr : Type 0 where
  v4 : ℕ → ℕ → ℕ → ℕ → IpAddr
  v6 : ℕ → ℕ → Bytes → IpAddr

pub record SocketAddr : Type 0 where
  pub ip : IpAddr
  pub port : ℕ

-- `NetworkInterface`
pub record NetworkInterface : Type 0 where
  pub internal : Bool
  pub addr : List IpAddr

abbrev pub is_ipv4 : IpAddr → Bool
is_ipv4 (v4 a b c d) = true
is_ipv4 (v6 a b rest) = false

abbrev pub all_zero : Bytes → Bool
all_zero [] = true
all_zero (b ∷ s) = let rest = all_zero s in if b == 0 then rest else false

-- `0.0.0.0` and `::`
abbrev pub is_unspecified : IpAddr → Bool
is_unspecified (v4 a b c d) = all_zero (a ∷ b ∷ c ∷ d ∷ [])
is_unspecified (v6 a b rest) = all_zero (a ∷ b ∷ rest)

abbrev pub zero_then_one : Bytes → Bool
zero_then_one [] = false
zero_then_one (b ∷ []) = b == 1
zero_then_one (b ∷ c ∷ s) = let rest = zero_then_one (c ∷ s) in if b == 0 then rest else false

-- `127.0.0.0/8` and `::1`
abbrev pub is_loopback : IpAddr → Bool
is_loopback (v4 a b c d) = a == 127
is_loopback (v6 a b rest) = zero_then_one (a ∷ b ∷ rest)

-- `b & 0xc0 == 0x80` is a test of the two upper bits of the octet.
unfoldable pub is_link_local : IpAddr → Bool
is_link_local (v4 a b c d) = (a == 169) && (b == 254)
is_link_local (v6 a b rest) = (a == 254) && (b % 256 / 64 == 2)

abbrev pub same_bool : Bool → Bool → Bool
same_bool true b = b
same_bool false b = not b

-- The test of the inner loop.
unfoldable pub is_routable : Bool → IpAddr → Bool
is_routable want_v4 ip =
    same_bool (is_ipv4 ip) want_v4 && (not (is_loopback ip) && not (is_link_local ip))

-- What the inner loop pushes.
abbrev pub pick : SocketAddr → List IpAddr → List SocketAddr
pick addr [] = []
pick addr (ip ∷ ips) =
    let rest = pick addr ips in
    if is_routable (is_ipv4 addr.ip) ip then record { ip = ip; port = addr.port } ∷ rest else rest

abbrev pub pick_all : SocketAddr → List NetworkInterface → List SocketAddr
pick_all addr [] = []
pick_all addr (iface ∷ ifaces) =
    let rest = pick_all addr ifaces in if iface.internal then rest else pick addr iface.addr ++ rest

abbrev pub or_itself : SocketAddr → List SocketAddr → List SocketAddr
or_itself addr [] = addr ∷ []
or_itself addr (a ∷ found) = a ∷ found

abbrev pub expand_addr : List NetworkInterface → SocketAddr → List SocketAddr
expand_addr ifaces addr =
    if is_unspecified addr.ip then or_itself addr (pick_all addr ifaces) else addr ∷ []

-- `expand_bind_addrs`
unfoldable pub expand_bind_addrs : List SocketAddr → List NetworkInterface → List SocketAddr
expand_bind_addrs [] ifaces = []
expand_bind_addrs (addr ∷ bind) ifaces = expand_addr ifaces addr ++ expand_bind_addrs bind ifaces

-- `resolve_bind_addrs`; `show` is what listing the interfaces gives.
unfoldable pub resolve_bind_addrs :
    Result (List NetworkInterface) → List SocketAddr → Result (List SocketAddr)
resolve_bind_addrs show bind =
    let expanded = (do ifaces ← show; ok (expand_bind_addrs bind ifaces)) in
    if any (λ (a : SocketAddr). is_unspecified a.ip) bind then expanded else ok bind
