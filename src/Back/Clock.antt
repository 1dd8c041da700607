-- ===== src/Back/Clock.antt =====
-- The shared counter of rs/v-m-io-back/src/lib.rs: `next_micros` and `fetch_max`.
use v_m_io.Common.{
  ◌≡◌, ◌≢◌, refl, sym, ap, subst, true, ◌++◌, All, All-map, false, List, [], ◌∷◌, if◌then◌else◌,
  arith, Bool-cases, inl, inr,
}
use v_m_io.Common.Int.{
  ℤ, pos, negsuc, ◌+ℤ◌, ◌<ℤ◌, ◌≤ℤ◌, ltbℤ, lebℤ, eqbℤ, eqbℤ→eq, eqbℤ_refl, i64_max, i64_min,
}

-- `prev + 1` on i64, with the wrap around of a release build; a debug build panics instead.
unfoldable pub succ_i64 : ℤ → ℤ
succ_i64 a = if eqbℤ a i64_max then i64_min else a +ℤ pos 1

-- The value that one turn of the loop proposes.
unfoldable pub propose : ℤ → ℤ → ℤ
unfolding succ_i64
propose now prev = if lebℤ now prev then succ_i64 prev else now

-- `next_micros`: the value, and the counter after it. `others` are the values that other threads
-- leave in the counter between a load and its compare-and-exchange; the loop ends at the first turn
-- in which they left it alone.
unfoldable pub next_micros : ℤ → List ℤ → ℤ → ℤ × ℤ
next_micros now [] counter = (propose now counter, propose now counter)
next_micros now (other ∷ others) counter =
    let again = next_micros now others other in
    if eqbℤ other counter then (propose now counter, propose now counter) else again

-- `counter.fetch_max(m)`
unfoldable pub fetch_max : ℤ → ℤ → ℤ
fetch_max m counter = if ltbℤ counter m then m else counter

succ_i64-grows : (a : ℤ) → eqbℤ a i64_max ≡ false → a <ℤ succ_i64 a
unfolding succ_i64 ◌+ℤ◌
succ_i64-grows (pos n) h = ground arith
succ_i64-grows (negsuc n) h = ground arith

-- Below the maximum, a proposal is larger than the counter and no older than the clock.
pub propose-grows :
    (now prev : ℤ)
    → eqbℤ prev i64_max ≡ false
    → (prev <ℤ propose now prev) × (now ≤ℤ propose now prev)
unfolding propose
propose-grows now prev h =
    let grows = succ_i64-grows prev h in
    elim (Bool-cases (lebℤ now prev)) [
      | inl late ↦ let late' : now ≤ℤ prev = ground arith in rw late (grows, omega arith)
      | inr early ↦ rw early (ground arith, omega arith)
    ]

-- What happens to the counter: a timestamp is handed out, or a given one is applied.
pub data CounterOp : Type 0 where
  hand_out : ℤ → CounterOp
  apply : ℤ → CounterOp

-- The counter is below the maximum whenever a timestamp is handed out.
unfoldable pub Unwrapped : List CounterOp → ℤ → Type 0
unfolding next_micros fetch_max
Unwrapped [] counter = Unit {0}
Unwrapped (hand_out now ∷ ops) counter =
    (eqbℤ counter i64_max ≡ false) × Unwrapped ops (next_micros now [] counter).1
Unwrapped (apply m ∷ ops) counter = Unwrapped ops (fetch_max m counter)

-- Each timestamp that the operations hand out is larger than all of `seen`, and than all that were
-- handed out or applied before it.
unfoldable pub Fresh : List ℤ → List CounterOp → ℤ → Type 0
unfolding next_micros fetch_max
Fresh seen [] counter = Unit {0}
Fresh seen (hand_out now ∷ ops) counter =
    let (value, counter') = next_micros now [] counter in
    All (λ m. m <ℤ value) seen × Fresh (value ∷ seen) ops counter'
Fresh seen (apply m ∷ ops) counter = Fresh (m ∷ seen) ops (fetch_max m counter)

fetch_max-reaches : (m counter : ℤ) → (m ≤ℤ fetch_max m counter) × (counter ≤ℤ fetch_max m counter)
unfolding fetch_max
fetch_max-reaches m counter = (ground arith, ground arith)

handed-Fresh :
    (ops : List CounterOp) (seen : List ℤ) (counter : ℤ)
    → All (λ m. m ≤ℤ counter) seen
    → Unwrapped ops counter
    → Fresh seen ops counter
unfolding Fresh Unwrapped next_micros fetch_max
handed-Fresh [] seen counter h u = tt
handed-Fresh (hand_out now ∷ ops) seen counter h u =
    let value = propose now counter in
    let grows : counter <ℤ value = (propose-grows now counter u.0).0 in
    (
      All-map _ _ seen (λ m le. omega (arith, le, grows)) h,
      handed-Fresh ops (value ∷ seen) value
          (omega arith, All-map _ _ seen (λ m le. omega (arith, le, grows)) h) u.1,
    )
handed-Fresh (apply m ∷ ops) seen counter h u =
    let (reached, kept) = fetch_max-reaches m counter in
    handed-Fresh ops (m ∷ seen) (fetch_max m counter)
      (reached, All-map _ _ seen (λ n le. omega (arith, le, kept)) h) u

-- Unless the counter reaches the i64 maximum: each timestamp that a sequence of operations on the
-- counter hands out is larger than what the counter held first and than every timestamp that was
-- handed out or applied before it.
pub counter_ops-Fresh :
    (ops : List CounterOp) (counter : ℤ) → Unwrapped ops counter → Fresh (counter ∷ []) ops counter
counter_ops-Fresh ops counter u = handed-Fresh ops (counter ∷ []) counter (omega arith, tt) u

eqbℤ-differs : (a b : ℤ) → eqbℤ a b ≡ false → b ≢ a
eqbℤ-differs a b h e =
    let same : eqbℤ a b ≡ true = subst (λ c. eqbℤ a c ≡ true) (sym e) (eqbℤ_refl a) in cc

-- What the counter holds after the others' values.
abbrev pub last_of : ℤ → List ℤ → ℤ
last_of counter [] = counter
last_of counter (other ∷ others) = last_of other others

-- Each value differs from the one before it.
abbrev pub Changes : ℤ → List ℤ → Type 0
Changes counter [] = Unit {0}
Changes counter (other ∷ others) = (counter ≢ other) × Changes other others

-- The next value, where there is one, is the same.
abbrev pub LeftAlone : ℤ → List ℤ → Type 0
LeftAlone held [] = Unit {0}
LeftAlone held (other ∷ others) = other ≡ held

-- Some of the others' values come to pass, each a change; then the counter is left alone, and what
-- it holds is exchanged for a proposal from it.
pub record Exchanged (now : ℤ) (others : List ℤ) (counter : ℤ) (r : ℤ × ℤ) : Type 0 where
  pub passed : List ℤ
  pub unused : List ℤ
  pub order : others ≡ passed ++ unused
  pub changes : Changes counter passed
  pub left_alone : LeftAlone (last_of counter passed) unused
  pub value : r.0 ≡ propose now (last_of counter passed)
  pub after : r.1 ≡ r.0

-- Whatever values the other threads leave in the counter: some of them come to pass, each
-- different from the one before, until the counter is left alone between a load and its exchange;
-- then the timestamp of next_micros is a proposal from the value that the counter holds at that
-- time, and the counter holds the timestamp.
pub next_micros-Exchanged :
    (now : ℤ) (others : List ℤ) (counter : ℤ)
    → Exchanged now others counter (next_micros now others counter)
unfolding next_micros
next_micros-Exchanged now [] counter = record {
  passed = [];
  unused = [];
  order = refl;
  changes = tt;
  left_alone = tt;
  value = refl;
  after = refl;
}
next_micros-Exchanged now (other ∷ others) counter = elim (Bool-cases (eqbℤ other counter)) [
  | inl same ↦ rw same (record {
    passed = [];
    unused = other ∷ others;
    order = refl;
    changes = tt;
    left_alone = eqbℤ→eq other counter same;
    value = refl;
    after = refl;
  })
  | inr changed ↦
      let ih = next_micros-Exchanged now others other in
      rw changed (record {
        passed = other ∷ ih.passed;
        unused = ih.unused;
        order = ap (λ l. other ∷ l) ih.order;
        changes = (eqbℤ-differs other counter changed, ih.changes);
        left_alone = ih.left_alone;
        value = ih.value;
        after = ih.after;
      })
]
