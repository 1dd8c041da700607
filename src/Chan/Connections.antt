-- ===== src/Chan/Connections.antt =====
-- The connections of a server: `accept_loop` and `serve_connection` of rs/v-m-io-chan/src/lib.rs.
-- What happens, and in which order, is a list of events.
pub mod Permits
use v_m_io.Common.{
  ℕ, zero, suc, ◌+◌, Bool, true, false, not, ◌&&◌, Option, none, some, List, [], ◌∷◌, ◌++◌, keep,
  ◌==◌,
}
use v_m_io.Common.Bytes.{ascii}
use v_m_io.Chan.Requests.{SrvInner, Request, Response, resp_text, handle_request}

-- `MAX_CONNS`
abbrev pub max_conns : ℕ
max_conns = 2048

-- A task of the accept loop of a listener, by its number.
pub record Conn : Type 0 where
  pub listener : ℕ
  pub number : ℕ

-- The semaphore: its free permits, and the waiters in the order in which they first asked. It is
-- fair: a permit that is given back goes to the first waiter, whose task then has to be polled.
-- The tasks by where `serve_connection` is: spawned and not polled yet, waiting in the queue,
-- granted a permit, serving with it, answering that the service is unavailable, or done and not
-- reaped.
pub record Server : Type 0 where
  pub permits : ℕ
  pub accepted : ℕ
  pub spawned : List Conn
  pub queue : List Conn
  pub granted : List Conn
  pub served : List Conn
  pub refused : List Conn
  pub done : List Conn

abbrev pub with_first : Conn → Option (Conn × List Conn) → Option (Conn × List Conn)
with_first c none = none
with_first c (some (d, rest)) = some (d, c ∷ rest)

-- The connection at a position, and the others.
unfoldable pub pick_at : ℕ → List Conn → Option (Conn × List Conn)
pick_at n [] = none
pick_at zero (c ∷ conns) = some (c, conns)
pick_at (suc n) (c ∷ conns) = with_first c (pick_at n conns)

abbrev pub picked : Option (Conn × List Conn) → Server → (Conn → List Conn → Server) → Server
picked none s f = s
picked (some (c, rest)) s f = f c rest

-- `acquire_owned` at its first poll
abbrev pub acquire : ℕ → Conn → Server → Server
acquire zero c s = record s { queue = s.queue ++ (c ∷ []) }
acquire (suc permits) c s = record s { permits = permits; served = s.served ++ (c ∷ []) }

-- The first poll comes when the time to wait is over: `timeout` polls `acquire_owned` once.
abbrev pub acquire_late : ℕ → Conn → Server → Server
acquire_late zero c s = record s { refused = s.refused ++ (c ∷ []) }
acquire_late (suc permits) c s = record s { permits = permits; served = s.served ++ (c ∷ []) }

-- The permit is dropped.
abbrev pub give_back : List Conn → Server → Server
give_back [] s = record s { queue = []; permits = suc s.permits }
give_back (c ∷ queue) s = record s { queue = queue; granted = s.granted ++ (c ∷ []) }

-- What happens to a connection: it is polled for the first time, in time or late; its time is over
-- while it is in the queue; it is polled after it was granted a permit, which `timeout` does
-- before it looks at the time; and the connection ends, in whichever way, with a permit or
-- without.
pub data Happening : Type 0 where
  first_polled first_polled_late timed_out resumed ended ended_refused : Happening

-- `serve_connection`, for the connection at a position among those that it may happen to
unfoldable pub serve_connection : Happening → ℕ → Server → Server
unfolding pick_at
serve_connection first_polled n s =
    picked (pick_at n s.spawned) s (λ c rest. acquire s.permits c (record s { spawned = rest }))
serve_connection first_polled_late n s =
    picked (pick_at n s.spawned) s
      (λ c rest. acquire_late s.permits c (record s { spawned = rest }))
serve_connection timed_out n s =
    picked (pick_at n s.queue) s
      (λ c rest. record s { queue = rest; refused = s.refused ++ (c ∷ []) })
serve_connection resumed n s =
    picked (pick_at n s.granted) s
      (λ c rest. record s { granted = rest; served = s.served ++ (c ∷ []) })
serve_connection ended n s =
    picked (pick_at n s.served) s
      (λ c rest. give_back s.queue (record s { served = rest; done = s.done ++ (c ∷ []) }))
serve_connection ended_refused n s =
    picked (pick_at n s.refused) s
      (λ c rest. record s { refused = rest; done = s.done ++ (c ∷ []) })

-- `try_join_next` until there is none, by the loop of a listener.
abbrev pub reap_finished : ℕ → List Conn → List Conn
reap_finished listener = keep (λ c. not (c.listener == listener))

-- The listener's stream gives a connection or an error, or something happens to the connection at
-- a position.
pub data Event : Type 0 where
  arrived : ℕ → Event
  arrived_broken : ℕ → Event
  happened : Happening → ℕ → Event

-- A turn of `accept_loop`, or a step of `serve_connection`.
unfoldable pub step : Event → Server → Server
unfolding serve_connection
step (arrived listener) s = record s {
  accepted = suc s.accepted;
  spawned = s.spawned ++ (record { listener = listener; number = s.accepted } ∷ []);
  done = reap_finished listener s.done;
}
step (arrived_broken listener) s = record s { done = reap_finished listener s.done }
step (happened what n) s = serve_connection what n s

unfoldable pub run : List Event → Server → Server
run [] s = s
run (e ∷ events) s = run events (step e s)

-- A server as `ChanSrv::new` leaves it.
abbrev pub started : Server
started = record {
  permits = max_conns;
  accepted = 0;
  spawned = [];
  queue = [];
  granted = [];
  served = [];
  refused = [];
  done = [];
}

-- What is sent for a request: the response, and the value of RETRY_AFTER if that is set.
abbrev pub unavailable : Response × Option ℕ
unavailable = (resp_text 503 (ascii "Service Unavailable"), some 60)

-- Whether a connection serves with a permit, or answers without one.
pub data Phase : Type 0 where
  serving refusing : Phase

-- The service functions: a connection without a permit sends a refusal, and the handlers see
-- nothing of it.
unfoldable pub respond : {S : Type 0} → SrvInner S → Phase → Request → S → (Response × Option ℕ) × S
unfolding handle_request
respond inner serving req s = let (res, s') = handle_request inner req s in ((res, none), s')
respond inner refusing req s = (unavailable, s)
