-- ===== src/Chan/Eligible.antt =====
-- What `expand_bind_addrs` of rs/v-m-io-chan/src/lib.rs picks in place of a wildcard, against the
-- address ranges that it is to leave out.
use v_m_io.Common.{
  ap, ◌%◌, ◌/◌, ◌<◌, Bool, ◌==◌, ◌&&◌, ◌≡◌, refl, true, false, List, [], ◌∷◌, subst, ◌≤◌,
  All-append, All, arith, Bool-cases, inl, inr,
}
use mathlib.Core.List.{Memᴰ}
use mathlib.Core.List.Memᴰ
use v_m_io.Chan.Bind.{
  IpAddr, v4, v6, is_loopback, is_link_local, SocketAddr, NetworkInterface, is_ipv4, is_routable,
  pick, pick_all,
}

-- 169.254.0.0/16 and fe80::/10
abbrev pub LinkLocal : IpAddr → Type 0
LinkLocal (v4 a b c d) = (a ≡ 169) × (b ≡ 254)
LinkLocal (v6 a b rest) = (a ≡ 254) × (128 ≤ b % 256) × (b % 256 < 192)

-- The ip may take the place of the wildcard: it is of its family, neither the loopback nor link
-- local, and on an interface that is not internal.
pub record Eligible (ifaces : List NetworkInterface) (addr : SocketAddr) (ip : IpAddr)
    : Type 0 where
  pub family : is_ipv4 ip ≡ is_ipv4 addr.ip
  pub no_loopback : is_loopback ip ≡ false
  pub routed : ¬ LinkLocal ip
  pub iface : NetworkInterface
  pub external : iface.internal ≡ false
  pub listed : Memᴰ iface ifaces
  pub its : Memᴰ ip iface.addr

is_link_local-false : (ip : IpAddr) → is_link_local ip ≡ false → ¬ LinkLocal ip
unfolding is_link_local
is_link_local-false (v4 a b c d) h l = ground arith
is_link_local-false (v6 a b rest) h l =
    let two : (b % 256 / 64) ≡ 2 = omega (arith, l.1, l.2) in ground (arith, l.0)

is_link_local_of : (ip : IpAddr) → ¬ LinkLocal ip → is_link_local ip ≡ false
unfolding is_link_local
is_link_local_of (v4 a b c d) h = elim (Bool-cases ((a == 169) && (b == 254))) [
  | inr e ↦ e
  | inl e ↦ absurd (h (ground arith, ground arith))
]
is_link_local_of (v6 a b rest) h = elim (Bool-cases ((a == 254) && (b % 256 / 64 == 2))) [
  | inr e ↦ e
  | inl e ↦
      let two : (b % 256 / 64) ≡ 2 = ground arith in
      absurd (h (ground arith, omega (arith, two), omega (arith, two)))
]

is_routable→ :
    (want_v4 : Bool) (ip : IpAddr)
    → is_routable want_v4 ip ≡ true
    → (is_ipv4 ip ≡ want_v4) × (is_loopback ip ≡ false) × (is_link_local ip ≡ false)
unfolding is_routable
is_routable→ want_v4 ip h = (ground arith, ground arith, ground arith)

→is_routable :
    (want_v4 : Bool) (ip : IpAddr)
    → is_ipv4 ip ≡ want_v4
    → is_loopback ip ≡ false
    → is_link_local ip ≡ false
    → is_routable want_v4 ip ≡ true
unfolding is_routable
→is_routable want_v4 ip f l k = ground arith

module _ (ifaces : List NetworkInterface) (addr : SocketAddr) where
  abbrev pub Fits : SocketAddr → Type 0
  Fits a = (a.port ≡ addr.port) × Eligible ifaces addr a.ip

  pick-Fits :
      (iface : NetworkInterface)
      → iface.internal ≡ false
      → Memᴰ iface ifaces
      → (ips : List IpAddr) → ((ip : IpAddr) → Memᴰ ip ips → Memᴰ ip iface.addr)
      → All Fits (pick addr ips)
  pick-Fits iface external listed [] sub = tt
  pick-Fits iface external listed (ip ∷ ips) sub =
      let rest = pick-Fits iface external listed ips (λ j h. sub j (Memᴰ.tail h)) in
      elim (Bool-cases (is_routable (is_ipv4 addr.ip) ip)) [
        | inr miss ↦ rw miss rest
        | inl hit ↦
            let (family, no_loopback, routed) = is_routable→ (is_ipv4 addr.ip) ip hit in
            let this : Eligible ifaces addr ip = record {
              family = family;
              no_loopback = no_loopback;
              routed = is_link_local-false ip routed;
              iface = iface;
              external = external;
              listed = listed;
              its = sub ip (Memᴰ.head refl);
            } in
            rw hit ((refl, this), rest)
      ]

  pub pick_all-Fits :
      (some_ifaces : List NetworkInterface)
      → ((i : NetworkInterface) → Memᴰ i some_ifaces → Memᴰ i ifaces)
      → All Fits (pick_all addr some_ifaces)
  pick_all-Fits [] sub = tt
  pick_all-Fits (i ∷ is) sub =
      let rest = pick_all-Fits is (λ j h. sub j (Memᴰ.tail h)) in
      elim (Bool-cases i.internal) [
        | inl hit ↦ rw hit rest
        | inr miss ↦ rw miss (
            All-append Fits (pick addr i.addr) (pick_all addr is)
              (pick-Fits i miss (sub i (Memᴰ.head refl)) i.addr (λ ip h. h)) rest)
      ]

  -- What is routable is picked.
  pick-all_routable :
      (ip : IpAddr)
      → is_routable (is_ipv4 addr.ip) ip ≡ true
      → (ips : List IpAddr) → Memᴰ ip ips
      → Memᴰ {A = SocketAddr} (record { ip = ip; port = addr.port }) (pick addr ips)
  pick-all_routable ip fit [] h = elim h [ ]
  pick-all_routable ip fit (j ∷ ips) (Memᴰ.head e) =
      let same : is_routable (is_ipv4 addr.ip) j ≡ true =
        subst (λ k. is_routable (is_ipv4 addr.ip) k ≡ true) e fit in
      rw same (Memᴰ.head (ap (λ k. record { ip = k; port = addr.port }) e))
  pick-all_routable ip fit (j ∷ ips) (Memᴰ.tail h) =
      let rest = pick-all_routable ip fit ips h in
      elim (Bool-cases (is_routable (is_ipv4 addr.ip) j)) [
        | inl hit ↦ rw hit (Memᴰ.tail rest)
        | inr miss ↦ rw miss rest
      ]

  pick_all-all_routable :
      (ip : IpAddr)
      → is_routable (is_ipv4 addr.ip) ip ≡ true
      → (iface : NetworkInterface) → iface.internal ≡ false
      → Memᴰ ip iface.addr
      → (is : List NetworkInterface) → Memᴰ iface is
      → Memᴰ {A = SocketAddr} (record { ip = ip; port = addr.port }) (pick_all addr is)
  pick_all-all_routable ip fit iface external its [] h = elim h [ ]
  pick_all-all_routable ip fit iface external its (i ∷ is) (Memᴰ.head e) =
      let open_i : i.internal ≡ false = subst (λ k. k.internal ≡ false) e external in
      rw open_i (
        Memᴰ.append_left (pick_all addr is)
          (pick-all_routable ip fit i.addr (subst (λ k. Memᴰ ip k.addr) e its)))
  pick_all-all_routable ip fit iface external its (i ∷ is) (Memᴰ.tail h) =
      let rest = pick_all-all_routable ip fit iface external its is h in
      elim (Bool-cases i.internal) [
        | inl hit ↦ rw hit rest
        | inr miss ↦ rw miss (Memᴰ.append_right (pick addr i.addr) rest)
      ]

  pub eligible-picked :
      (ip : IpAddr)
      → Eligible ifaces addr ip
      → Memᴰ {A = SocketAddr} (record { ip = ip; port = addr.port }) (pick_all addr ifaces)
  eligible-picked ip e =
      pick_all-all_routable ip
        (→is_routable (is_ipv4 addr.ip) ip e.family e.no_loopback (is_link_local_of ip e.routed))
        e.iface e.external e.its ifaces e.listed
