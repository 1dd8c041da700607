-- ===== src/Chan/Connections/Permits.antt =====
-- The permits of rs/v-m-io-chan/src/lib.rs and the connections that have them.
use v_m_io.Common.{
  ℕ, zero, suc, ◌+◌, ◌<◌, ◌≡◌, refl, sym, ap, ◌∙◌, Option, none, some, List, [], ◌∷◌, ◌++◌, arith,
  inl, inr, ◌⊎◌, length, length-append, Option-cases,
}
use v_m_io.Chan.Connections.{
  max_conns, Conn, Server, pick_at, picked, acquire, acquire_late, give_back, Happening,
  first_polled, first_polled_late, timed_out, resumed, ended, ended_refused, serve_connection,
  Event, arrived, arrived_broken, happened, step, run, started,
}

length-snoc : (xs : List Conn) (c : Conn) → length (xs ++ (c ∷ [])) ≡ suc (length xs)
length-snoc xs c = omega (arith, length-append xs (c ∷ []))

length-pick_at :
    (n : ℕ) (xs : List Conn) (c : Conn) (rest : List Conn)
    → pick_at n xs ≡ some (c, rest)
    → length xs ≡ suc (length rest)
unfolding pick_at
length-pick_at n [] c rest h = cc
length-pick_at zero (x ∷ xs) c rest h =
    let same : xs ≡ rest = cc in ap (λ (l : List Conn). suc (length l)) same
length-pick_at (suc n) (x ∷ xs) c rest h = elim (Option-cases (pick_at n xs)) [
  | inl e ↦
      absurd (let no : ◌≡◌ {A = Option (Conn × List Conn)} none (some (c, rest)) = rw e at h in cc)
  | inr ((d, others), e) ↦
      let found : ◌≡◌ {A = Option (Conn × List Conn)} (some (d, x ∷ others)) (some (c, rest)) =
        rw e at h in
      let same : x ∷ others ≡ rest = cc in
      omega (arith, length-pick_at n xs d others e, ap length same)
]

-- Each permit is free, granted or with a connection that is served; and no connection waits while
-- one is free.
pub record IsFair (s : Server) : Type 0 where
  pub conserved : s.permits + (length s.granted + length s.served) ≡ max_conns
  pub busy : (s.queue ≡ []) ⊎ (s.permits ≡ 0)

picked-IsFair :
    (o : Option (Conn × List Conn)) (s : Server) (f : Conn → List Conn → Server)
    → IsFair s
    → ((c : Conn) (rest : List Conn) → o ≡ some (c, rest) → IsFair (f c rest))
    → IsFair (picked o s f)
picked-IsFair none s f h k = h
picked-IsFair (some (c, rest)) s f h k = k c rest refl

-- The queue is empty if a permit is free.
unqueued : (s : Server) (permits : ℕ) → s.permits ≡ suc permits → IsFair s → s.queue ≡ []
unqueued s permits e h = elim h.busy [
  | inl empty ↦ empty
  | inr none_free ↦ absurd (omega (arith, e, none_free))
]

acquire-IsFair :
    (permits : ℕ) (c : Conn) (rest : List Conn) (s : Server)
    → s.permits ≡ permits
    → IsFair s
    → IsFair (acquire permits c (record s { spawned = rest }))
acquire-IsFair zero c rest s e h = record { conserved = h.conserved; busy = inr e }
acquire-IsFair (suc permits) c rest s e h = record {
  conserved = omega (arith, h.conserved, e, length-snoc s.served c);
  busy = inl (unqueued s permits e h);
}

acquire_late-IsFair :
    (permits : ℕ) (c : Conn) (rest : List Conn) (s : Server)
    → s.permits ≡ permits
    → IsFair s
    → IsFair (acquire_late permits c (record s { spawned = rest }))
acquire_late-IsFair zero c rest s e h = record { conserved = h.conserved; busy = h.busy }
acquire_late-IsFair (suc permits) c rest s e h = record {
  conserved = omega (arith, h.conserved, e, length-snoc s.served c);
  busy = inl (unqueued s permits e h);
}

give_back-IsFair :
    (queue : List Conn) (rest done : List Conn) (s : Server)
    → s.queue ≡ queue
    → length s.served ≡ suc (length rest)
    → IsFair s
    → IsFair (give_back queue (record s { served = rest; done = done }))
give_back-IsFair [] rest done s e l h = record {
  conserved = omega (arith, h.conserved, l);
  busy = inl refl;
}
give_back-IsFair (c ∷ queue) rest done s e l h = record {
  conserved = omega (arith, h.conserved, l, length-snoc s.granted c);
  busy = elim h.busy [
    | inl empty ↦ absurd (let no : c ∷ queue ≡ [] = sym e ∙ empty in cc)
    | inr none_free ↦ inr none_free
  ];
}

-- Without the queue's member, as with it.
left_queue :
    (s : Server) (n : ℕ) (c : Conn) (rest : List Conn)
    → pick_at n s.queue ≡ some (c, rest)
    → IsFair s
    → s.permits ≡ 0
left_queue s n c rest e h = elim h.busy [
  | inl empty ↦ absurd (omega (arith, length-pick_at n s.queue c rest e, ap length empty))
  | inr none_free ↦ none_free
]

serve_connection-IsFair :
    (what : Happening) (n : ℕ) (s : Server) → IsFair s → IsFair (serve_connection what n s)
unfolding serve_connection
serve_connection-IsFair first_polled n s h =
    picked-IsFair (pick_at n s.spawned) s _ h (λ c rest e. acquire-IsFair s.permits c rest s refl h)
serve_connection-IsFair first_polled_late n s h =
    picked-IsFair (pick_at n s.spawned) s _ h
      (λ c rest e. acquire_late-IsFair s.permits c rest s refl h)
serve_connection-IsFair timed_out n s h =
    picked-IsFair (pick_at n s.queue) s _ h
      (λ c rest e. record { conserved = h.conserved; busy = inr (left_queue s n c rest e h) })
serve_connection-IsFair resumed n s h = picked-IsFair (pick_at n s.granted) s _ h (λ c rest e.
    record {
      conserved =
          omega (arith, h.conserved, length-pick_at n s.granted c rest e, length-snoc s.served c);
      busy = h.busy;
    })
serve_connection-IsFair ended n s h =
    picked-IsFair (pick_at n s.served) s _ h
      (λ c rest e. give_back-IsFair s.queue rest _ s refl (length-pick_at n s.served c rest e) h)
serve_connection-IsFair ended_refused n s h =
    picked-IsFair (pick_at n s.refused) s _ h
      (λ c rest e. record { conserved = h.conserved; busy = h.busy })

step-IsFair : (e : Event) (s : Server) → IsFair s → IsFair (step e s)
unfolding step
step-IsFair (arrived listener) s h = record { conserved = h.conserved; busy = h.busy }
step-IsFair (arrived_broken listener) s h = record { conserved = h.conserved; busy = h.busy }
step-IsFair (happened what n) s h = serve_connection-IsFair what n s h

run_from-IsFair : (events : List Event) (s : Server) → IsFair s → IsFair (run events s)
unfolding run
run_from-IsFair [] s h = h
run_from-IsFair (e ∷ events) s h = run_from-IsFair events (step e s) (step-IsFair e s h)

run-IsFair : (events : List Event) → IsFair (run events started)
run-IsFair events = run_from-IsFair events started (record { conserved = refl; busy = inl refl })

-- Whatever happens to the connections of a server and in which order, the free permits, the
-- connections that were granted one and wait to be polled, and those that are served are 2048
-- together.
pub run-permits :
    (events : List Event)
    → (let s = run events started in s.permits + (length s.granted + length s.served) ≡ max_conns)
run-permits events = (run-IsFair events).conserved

-- A connection is refused only where no permit is free.
picked-refused :
    (o : Option (Conn × List Conn)) (s : Server) (f : Conn → List Conn → Server)
    → ((c : Conn) (rest : List Conn)
        → o ≡ some (c, rest)
        → length s.refused < length (f c rest).refused
        → s.permits ≡ 0)
    → length s.refused < length (picked o s f).refused
    → s.permits ≡ 0
picked-refused none s f k h = absurd (omega arith)
picked-refused (some (c, rest)) s f k h = k c rest refl h

acquire-refuses :
    (permits : ℕ) (c : Conn) (rest : List Conn) (s : Server)
    → ¬ (length s.refused < length (acquire permits c (record s { spawned = rest })).refused)
acquire-refuses zero c rest s h = omega arith
acquire-refuses (suc permits) c rest s h = omega arith

acquire_late-refuses :
    (permits : ℕ) (c : Conn) (rest : List Conn) (s : Server)
    → s.permits ≡ permits
    → length s.refused < length (acquire_late permits c (record s { spawned = rest })).refused
    → s.permits ≡ 0
acquire_late-refuses zero c rest s e h = e
acquire_late-refuses (suc permits) c rest s e h = absurd (omega arith)

give_back-refuses :
    (queue rest done : List Conn) (s : Server)
    → ¬ (
        length s.refused
        < length (give_back queue (record s { served = rest; done = done })).refused)
give_back-refuses [] rest done s h = omega arith
give_back-refuses (c ∷ queue) rest done s h = omega arith

serve_connection-refuses :
    (what : Happening) (n : ℕ) (s : Server)
    → IsFair s
    → length s.refused < length (serve_connection what n s).refused
    → s.permits ≡ 0
unfolding serve_connection
serve_connection-refuses first_polled n s h =
    picked-refused (pick_at n s.spawned) s _
      (λ c rest e more. absurd (acquire-refuses s.permits c rest s more))
serve_connection-refuses first_polled_late n s h =
    picked-refused (pick_at n s.spawned) s _
      (λ c rest e more. acquire_late-refuses s.permits c rest s refl more)
serve_connection-refuses timed_out n s h =
    picked-refused (pick_at n s.queue) s _ (λ c rest e more. left_queue s n c rest e h)
serve_connection-refuses resumed n s h =
    picked-refused (pick_at n s.granted) s _ (λ c rest e more. absurd (omega arith))
serve_connection-refuses ended n s h =
    picked-refused (pick_at n s.served) s _
      (λ c rest e more. absurd (give_back-refuses s.queue rest _ s more))
serve_connection-refuses ended_refused n s h =
    picked-refused (pick_at n s.refused) s _
      (λ c rest e more. absurd (omega (arith, length-pick_at n s.refused c rest e)))

step-refuses :
    (e : Event) (s : Server)
    → IsFair s
    → length s.refused < length (step e s).refused
    → s.permits ≡ 0
unfolding step
step-refuses (arrived listener) s h more = absurd (omega arith)
step-refuses (arrived_broken listener) s h more = absurd (omega arith)
step-refuses (happened what n) s h more = serve_connection-refuses what n s h more

-- Whatever happened before: a step after which more connections are refused than before it comes
-- only where all 2048 permits are with connections that are served or were granted one.
pub run-refuses :
    (events : List Event) (e : Event)
    → (let s = run events started in length s.refused < length (step e s).refused)
    → (let s = run events started in length s.granted + length s.served ≡ max_conns)
run-refuses events e more =
    let h = run-IsFair events in
    omega (arith, h.conserved, step-refuses e (run events started) h more)
