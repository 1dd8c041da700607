-- ===== src/Chan/Justified.antt =====
-- Where the addresses that a server binds come from: `resolve_bind_addrs` of
-- rs/v-m-io-chan/src/lib.rs.
use v_m_io.Common.{
  ◌++◌, ◌≡◌, refl, true, false, List, [], ◌∷◌, any, length, length-append, subst, ◌≤◌, All-map,
  All-append, All, if◌then◌else◌, arith, Bool-cases, inl, inr, ◌⊎◌,
}
use mathlib.Core.List.{Memᴰ}
use mathlib.Core.List.Memᴰ
use v_m_io.Io.{Result, ok, err, ◌>>=◌}
use v_m_io.Chan.Bind.{
  IpAddr, SocketAddr, NetworkInterface, is_unspecified, pick_all, or_itself, expand_addr,
  expand_bind_addrs, resolve_bind_addrs,
}
use v_m_io.Chan.Eligible.{Eligible, Fits, eligible-picked, pick_all-Fits}

-- The address was asked for, and is no wildcard or one that nothing can take the place of; or it
-- takes the place of a wildcard, with its port.
abbrev pub Justified : List SocketAddr → List NetworkInterface → SocketAddr → Type 0
Justified bind ifaces a =
    (Memᴰ a bind × ((is_unspecified a.ip ≡ false) ⊎ ((ip : IpAddr) → ¬ Eligible ifaces a ip)))
    ⊎ ((addr : SocketAddr) × Memᴰ addr bind
        × (is_unspecified addr.ip ≡ true)
        × (a.port ≡ addr.port)
        × Eligible ifaces addr a.ip)

-- An address that is no wildcard is bound, and for a wildcard all that can take its place.
abbrev pub Represented : List NetworkInterface → List SocketAddr → SocketAddr → Type 0
Represented ifaces out addr =
    ((is_unspecified addr.ip ≡ false) × Memᴰ addr out)
    ⊎ (is_unspecified addr.ip ≡ true)
      × ((ip : IpAddr)
          → Eligible ifaces addr ip
          → Memᴰ {A = SocketAddr} (record { ip = ip; port = addr.port }) out)

or_itself-mem :
    (addr a : SocketAddr) (found : List SocketAddr) → Memᴰ a found → Memᴰ a (or_itself addr found)
or_itself-mem addr a [] h = absurd (Memᴰ.not-nil h)
or_itself-mem addr a (b ∷ found) h = h

length-or_itself : (addr : SocketAddr) (found : List SocketAddr) → 1 ≤ length (or_itself addr found)
length-or_itself addr [] = omega arith
length-or_itself addr (a ∷ found) = omega arith

or_itself-Justified :
    (bind : List SocketAddr) (ifaces : List NetworkInterface) (addr : SocketAddr)
    → Memᴰ addr bind
    → is_unspecified addr.ip ≡ true
    → (found : List SocketAddr) → All (Fits ifaces addr) found
    → ((ip : IpAddr)
        → Eligible ifaces addr ip
        → Memᴰ {A = SocketAddr} (record { ip = ip; port = addr.port }) found)
    → All (Justified bind ifaces) (or_itself addr found)
or_itself-Justified bind ifaces addr m wild [] h all_found =
    (inl (m, inr (λ ip e. Memᴰ.not-nil (all_found ip e))), tt)
or_itself-Justified bind ifaces addr m wild (a ∷ found) h all_found =
    All-map _ _ (a ∷ found) (λ b fits. inr (addr, m, wild, fits.0, fits.1)) h

expand_addr-Justified :
    (bind : List SocketAddr) (ifaces : List NetworkInterface) (addr : SocketAddr)
    → Memᴰ addr bind
    → All (Justified bind ifaces) (expand_addr ifaces addr)
      × Represented ifaces (expand_addr ifaces addr) addr
      × (1 ≤ length (expand_addr ifaces addr))
expand_addr-Justified bind ifaces addr m = elim (Bool-cases (is_unspecified addr.ip)) [
  | inr miss ↦ rw miss ((inl (m, inl miss), tt), inl (refl, Memᴰ.head refl), omega arith)
  | inl hit ↦
      let found = pick_all addr ifaces in
      rw hit (
        or_itself-Justified bind ifaces addr m hit found
            (pick_all-Fits ifaces addr ifaces (λ i h. h)) (eligible-picked ifaces addr),
        inr (refl, λ ip e. or_itself-mem addr _ found (eligible-picked ifaces addr ip e)),
        length-or_itself addr found,
      )
]

Represented-mono :
    (ifaces : List NetworkInterface) (out out' : List SocketAddr) (addr : SocketAddr)
    → ((a : SocketAddr) → Memᴰ a out → Memᴰ a out')
    → Represented ifaces out addr
    → Represented ifaces out' addr
Represented-mono ifaces out out' addr sub (inl (plain, m)) = inl (plain, sub addr m)
Represented-mono ifaces out out' addr sub (inr (wild, h)) = inr (wild, λ ip e. sub _ (h ip e))

expand_bind_addrs-Justified :
    (ifaces : List NetworkInterface) (all_bind bind : List SocketAddr)
    → ((a : SocketAddr) → Memᴰ a bind → Memᴰ a all_bind)
    → All (Justified all_bind ifaces) (expand_bind_addrs bind ifaces)
      × All (Represented ifaces (expand_bind_addrs bind ifaces)) bind
      × (length bind ≤ length (expand_bind_addrs bind ifaces))
unfolding expand_bind_addrs
expand_bind_addrs-Justified ifaces all_bind [] sub = (tt, tt, omega arith)
expand_bind_addrs-Justified ifaces all_bind (addr ∷ bind) sub =
    let here = expand_addr ifaces addr in
    let later = expand_bind_addrs bind ifaces in
    let (first, present, one) =
      expand_addr-Justified all_bind ifaces addr (sub addr (Memᴰ.head refl)) in
    let (rest, others, enough) =
      expand_bind_addrs-Justified ifaces all_bind bind (λ a m. sub a (Memᴰ.tail m)) in
    (
      All-append (Justified all_bind ifaces) here later first rest,
      (
        Represented-mono ifaces here (here ++ later) addr (λ a m. Memᴰ.append_left later m) present,
        All-map _ _ bind
            (λ a r.
              Represented-mono ifaces later (here ++ later) a (λ b m. Memᴰ.append_right here m) r)
            others,
      ),
      omega (arith, length-append here later),
    )

-- If the addresses to bind are resolved: without a wildcard among those asked for, they are these.
-- Otherwise each one was asked for, and is no wildcard or one that nothing can take the place of,
-- or it takes the place of a wildcard that was, with its port; each one asked for that is no
-- wildcard is bound, and for a wildcard all that can take its place; and there are at least as
-- many as were asked for. What can take the place of a wildcard is an ip of its family, outside
-- the loopback range, 169.254.0.0/16 and fe80::/10, on an interface that is not internal.
pub resolve_bind_addrs-Justified :
    (show : Result (List NetworkInterface)) (bind out : List SocketAddr)
    → resolve_bind_addrs show bind ≡ ok out
    → ((any (λ (a : SocketAddr). is_unspecified a.ip) bind ≡ false) × (out ≡ bind))
      ⊎ ((ifaces : List NetworkInterface) × (show ≡ ok ifaces)
          × All (Justified bind ifaces) out
          × All (Represented ifaces out) bind
          × (length bind ≤ length out))
unfolding resolve_bind_addrs
resolve_bind_addrs-Justified show bind out h =
    elim (Bool-cases (any (λ (a : SocketAddr). is_unspecified a.ip) bind)) [
      | inr miss ↦ inl (miss, ground arith)
      | inl hit ↦ inr (
          resolved show (
            subst
              (λ b.
                (if b then (show >>= λ ifaces. ok (expand_bind_addrs bind ifaces)) else ok bind)
                ≡ ok out)
              hit h))
    ]
  where
    resolved :
        (r : Result (List NetworkInterface))
        → (r >>= λ ifaces. ok (expand_bind_addrs bind ifaces)) ≡ ok out
        → (ifaces : List NetworkInterface) × (r ≡ ok ifaces)
          × All (Justified bind ifaces) out
          × All (Represented ifaces out) bind
          × (length bind ≤ length out)
    resolved (err e) h = cc
    resolved (ok ifaces) h =
        let e : expand_bind_addrs bind ifaces ≡ out = cc in
        let (just, present, enough) = expand_bind_addrs-Justified ifaces bind bind (λ a m. m) in
        (
          ifaces,
          refl,
          subst (All (Justified bind ifaces)) e just,
          subst (λ o. All (Represented ifaces o) bind) e present,
          subst (λ o. length bind ≤ length o) e enough,
        )
