-- ===== src/Chan/Start.antt =====
-- `ChanSrv::new` of rs/v-m-io-chan/src/lib.rs, up to the tasks that it spawns. What `bind` and
-- `local_addr` of a listener answer are parameters.
use v_m_io.Common.{ℕ, List, [], ◌∷◌}
use v_m_io.Io.{Result, ok, ◌>>=◌}
use v_m_io.Chan.Requests.{SrvInner}
use v_m_io.Chan.Handlers.{register_all}
use v_m_io.Chan.Bind.{SocketAddr, NetworkInterface, resolve_bind_addrs}

-- `try_join_all`, and `collect` into a `Result`: all values, or the first error.
abbrev pub try_all {ℓ κ} : {A : Type ℓ} {B : Type κ} → (A → Result B) → List A → Result (List B)
try_all f [] = ok []
try_all f (a ∷ as') = let rest = try_all f as' in do b ← f a; bs ← rest; ok (b ∷ bs)

-- What the system answers.
pub record Sockets : Type 0 where
  pub show : Result (List NetworkInterface)
  -- `TcpListener::bind`
  pub bind : SocketAddr → Result ℕ
  -- `local_addr` of a listener
  pub local_addr : ℕ → Result SocketAddr

-- `ChanSrv`, with what its tasks share: a listener is accepted from by one task.
pub record ChanSrv (S : Type 0) : Type 0 where
  pub inner : SrvInner S
  pub local_addrs : List SocketAddr
  pub listeners : List ℕ

-- `ChanSrv::new`
unfoldable pub new : {S : Type 0} → Sockets → SrvInner S → List SocketAddr → Result (ChanSrv S)
unfolding register_all resolve_bind_addrs
new sockets config bind = do
  table ← register_all config.handlers
  let inner = record config { handlers = table }
  addrs ← resolve_bind_addrs sockets.show bind
  listeners ← try_all sockets.bind addrs
  local_addrs ← try_all sockets.local_addr listeners
  ok (record { inner = inner; local_addrs = local_addrs; listeners = listeners })
