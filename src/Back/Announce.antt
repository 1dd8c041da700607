-- ===== src/Back/Announce.antt =====
-- `announce_addrs` of rs/v-m-io-back/src/lib.rs and the task that repeats it.
use v_m_io.Common.{ℕ, suc, ◌*◌, none, some, List, [], ◌∷◌, ◌++◌, if◌then◌else◌}
use v_m_io.Common.Bytes.{Bytes}
use v_m_io.Common.Int.{ℤ, pos, ◌+ℤ◌, ltbℤ, i64_max}
use v_m_io.Io.{Result, ok, err}
use v_m_io.Back.Values.{State, Attempt, cfg_addr_prefix, upsert_value}

-- `a.saturating_add(b)` for a `b` that is not negative.
abbrev pub saturating_add : ℤ → ℤ → ℤ
saturating_add a b = if ltbℤ i64_max (a +ℤ b) then i64_max else a +ℤ b

-- `CFG_ADDR_TTL` in microseconds
abbrev pub cfg_addr_ttl : ℤ
cfg_addr_ttl = pos (120 * 1000 * 1000)

abbrev pub announce_next :
    Result (Unit {0}) × State → (State → Result (Unit {0}) × State) → Result (Unit {0}) × State
announce_next (ok u, st) rest = rest st
announce_next (err e, st) rest = (err e, st)

-- The loop of `announce_addrs`, over the addresses as text; the calls for the n-th one meet
-- `attempt n`.
unfoldable pub announce_each :
    (ℕ → ℕ → Attempt) → ℤ → ℕ → List Bytes → State → Result (Unit {0}) × State
unfolding upsert_value
announce_each attempt expires_at_micros n [] st = (ok tt, st)
announce_each attempt expires_at_micros n (addr ∷ addrs) st =
    announce_next
      (upsert_value (attempt n) (cfg_addr_prefix ++ addr) [] none (some expires_at_micros) st)
      (λ st'. announce_each attempt expires_at_micros (suc n) addrs st')

-- `announce_addrs`, from what the clock reads first.
unfoldable pub announce_addrs :
    (ℕ → ℕ → Attempt) → ℤ → List Bytes → State → Result (Unit {0}) × State
unfolding announce_each
announce_addrs attempt now addrs st =
    announce_each attempt (saturating_add now cfg_addr_ttl) 0 addrs st

-- What one turn of `announce_addrs_task` meets.
pub record Announcement : Type 0 where
  pub attempt : ℕ → ℕ → Attempt
  pub now : ℤ

-- `announce_addrs_task`: a turn, a sleep, and so on, with the errors only logged; a list stands for
-- the turns until the task is aborted.
unfoldable pub announce_addrs_task : List Announcement → List Bytes → State → State
unfolding announce_addrs
announce_addrs_task [] addrs st = st
announce_addrs_task (a ∷ turns) addrs st =
    announce_addrs_task turns addrs (announce_addrs a.attempt a.now addrs st).1
