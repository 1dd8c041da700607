-- ===== src/Sql/Open.antt =====
-- `Sql::new` of rs/v-m-io-db/src/sql.rs: the calls that open and key the connections, in their
-- order. What each call answers is a parameter; a connection is named by the variable that it is
-- bound to.
use mathlib.Core.List.{append_assoc}
use v_m_io.Common.{
  ◌≡◌, refl, sym, ap, ◌∙◌, Bool, true, false, List, [], ◌∷◌, ◌++◌, All, All-append, Bool-cases, inl,
  inr, ◌⊎◌,
}
use v_m_io.Common.Bytes.{Bytes}
use v_m_io.Io.{Result, ok, err, sql, fault, guard}
use v_m_io.Sql.KeyLiteral.{key_literal}
use v_m_io.Sql.Pool.{RingPool}
use v_m_io.Sql.Pool as Pool

pub data Connection : Type 0 where
  c_write c_read_1 c_read_2 c_read_3 : Connection

-- The flags: read and write, creating the file; or read only.
pub data Mode : Type 0 where
  read_write_create read_only : Mode

-- The batches `PRAGMA`, which turns the foreign keys on, and `SCHEMA`.
pub data Batch : Type 0 where
  pragma schema : Batch

pub data OpenCall : Type 0 where
  open_with_flags : Connection → Mode → OpenCall
  -- the pragma `key`
  pragma_update : Connection → Bytes → OpenCall
  execute_batch : Connection → Batch → OpenCall

-- `Sql`
pub record Sql : Type 0 where
  pub write : Connection
  pub c_read_pool : RingPool Connection

-- The calls so far, the last one at the end.
abbrev pub Log : Type 0
Log = List OpenCall

abbrev pub Steps : Type 0
Steps = Log → Result (Unit {0}) × Log

-- `?`
abbrev pub then_do : Result (Unit {0}) × Log → Steps → Result (Unit {0}) × Log
then_do (err e, log) rest = (err e, log)
then_do (ok u, log) rest = rest log

module _ (answers : OpenCall → Bool) where
  abbrev pub call : OpenCall → Steps
  call c log = (guard (answers c) (sql fault), log ++ (c ∷ []))

  -- A connection is opened and keyed, and gets its pragmas.
  abbrev pub set_up : Connection → Mode → Bytes → Steps
  set_up c mode hex_key log =
      then_do (call (open_with_flags c mode) log)
        (λ log. then_do (call (pragma_update c hex_key) log) (call (execute_batch c pragma)))

  abbrev pub set_up_all : Bytes → Steps
  set_up_all hex_key log = then_do (set_up c_write read_write_create hex_key log) (λ log.
      then_do (call (execute_batch c_write schema) log) (λ log.
        then_do (set_up c_read_1 read_only hex_key log) (λ log.
          then_do (set_up c_read_2 read_only hex_key log) (set_up c_read_3 read_only hex_key))))

  abbrev pub with_connections : Result (Unit {0}) × Log → Result Sql × Log
  with_connections (err e, log) = (err e, log)
  with_connections (ok u, log) = (
    ok (record { write = c_write; c_read_pool = Pool.new Connection c_read_1 c_read_2 c_read_3 }),
    log,
  )

  -- `Sql::new`, with the calls that it made
  unfoldable pub new : Bytes → Result Sql × Log
  unfolding key_literal
  new sqlite_key = with_connections (set_up_all (key_literal sqlite_key) [])

-- The calls in the order of the source.
abbrev pub set_up_calls : Connection → Mode → Bytes → List OpenCall
set_up_calls c mode hex_key =
    open_with_flags c mode ∷ pragma_update c hex_key ∷ execute_batch c pragma ∷ []

abbrev pub script : Bytes → List OpenCall
script hex_key =
    set_up_calls c_write read_write_create hex_key
    ++ ((execute_batch c_write schema ∷ [])
        ++ (set_up_calls c_read_1 read_only hex_key
            ++ (set_up_calls c_read_2 read_only hex_key
                ++ set_up_calls c_read_3 read_only hex_key)))

-- One of the calls fails, after those before it worked, and it is the last that is made.
pub record Stops (answers : OpenCall → Bool) (calls : List OpenCall) (made : Log) : Type 0 where
  pub before : List OpenCall
  pub failing : OpenCall
  pub after : List OpenCall
  pub order : calls ≡ before ++ (failing ∷ after)
  pub worked : All (λ c. answers c ≡ true) before
  pub fails : answers failing ≡ false
  pub made_is : made ≡ before ++ (failing ∷ [])

module _ (answers : OpenCall → Bool) where
  -- The steps make these calls, until one of them fails.
  abbrev Makes : List OpenCall → Log → Result (Unit {0}) × Log → Type 0
  Makes calls log r =
      ((r ≡ (ok tt, log ++ calls)) × All (λ c. answers c ≡ true) calls)
      ⊎ (made : Log) × Stops answers calls made × (r ≡ (err (sql fault), log ++ made))

  call-Makes : (c : OpenCall) (log : Log) → Makes (c ∷ []) log (call answers c log)
  call-Makes c log = elim (Bool-cases (answers c)) [
    | inl e ↦ inl (rw e, (e, tt))
    | inr e ↦ inr (
      c ∷ [],
      record {
        before = [];
        failing = c;
        after = [];
        order = refl;
        worked = tt;
        fails = e;
        made_is = refl;
      },
      rw e,
    )
  ]

  -- More calls after those that stopped change nothing.
  Stops-more :
      (xs ys : List OpenCall) (made : Log) → Stops answers xs made → Stops answers (xs ++ ys) made
  Stops-more xs ys made s = record {
    before = s.before;
    failing = s.failing;
    after = s.after ++ ys;
    order = ap (λ l. l ++ ys) s.order ∙ append_assoc s.before (s.failing ∷ s.after) ys;
    worked = s.worked;
    fails = s.fails;
    made_is = s.made_is;
  }

  Stops-later :
      (xs ys : List OpenCall) (made : Log)
      → All (λ c. answers c ≡ true) xs
      → Stops answers ys made
      → Stops answers (xs ++ ys) (xs ++ made)
  Stops-later xs ys made worked s = record {
    before = xs ++ s.before;
    failing = s.failing;
    after = s.after;
    order = ap (λ l. xs ++ l) s.order ∙ sym (append_assoc xs s.before (s.failing ∷ s.after));
    worked = All-append _ xs s.before worked s.worked;
    fails = s.fails;
    made_is = ap (λ l. xs ++ l) s.made_is ∙ sym (append_assoc xs s.before (s.failing ∷ []));
  }

  then_do-Makes :
      (xs ys : List OpenCall) (log : Log) (r : Result (Unit {0}) × Log) (rest : Steps)
      → Makes xs log r
      → ((log' : Log) → Makes ys log' (rest log'))
      → Makes (xs ++ ys) log (then_do r rest)
  then_do-Makes xs ys log r rest (inl (done, worked)) k = rw done (elim (k (log ++ xs)) [
    | inl (all_done, all_worked) ↦
        inl (rw (all_done, append_assoc log xs ys), All-append _ xs ys worked all_worked)
    | inr (made, stops, failed) ↦
        inr (xs ++ made, Stops-later xs ys made worked stops, rw (failed, append_assoc log xs made))
  ])
  then_do-Makes xs ys log r rest (inr (made, stops, failed)) k =
      inr (made, Stops-more xs ys made stops, rw failed)

  set_up-Makes :
      (c : Connection) (mode : Mode) (hex_key : Bytes) (log : Log)
      → Makes (set_up_calls c mode hex_key) log (set_up answers c mode hex_key log)
  set_up-Makes c mode hex_key log =
      then_do-Makes (open_with_flags c mode ∷ []) _ log _ _ (call-Makes _ log) (λ log'.
        then_do-Makes (pragma_update c hex_key ∷ []) (execute_batch c pragma ∷ []) log' _ _
          (call-Makes _ log') (call-Makes _))

  set_up_all-Makes :
      (hex_key : Bytes) (log : Log) → Makes (script hex_key) log (set_up_all answers hex_key log)
  set_up_all-Makes hex_key log =
      then_do-Makes (set_up_calls c_write read_write_create hex_key) _ log _ _
        (set_up-Makes c_write read_write_create hex_key log)
        (λ l. then_do-Makes (execute_batch c_write schema ∷ []) _ l _ _ (call-Makes _ l) (λ l.
          then_do-Makes (set_up_calls c_read_1 read_only hex_key) _ l _ _
            (set_up-Makes c_read_1 read_only hex_key l)
            (λ l.
              then_do-Makes (set_up_calls c_read_2 read_only hex_key) _ l _ _
                (set_up-Makes c_read_2 read_only hex_key l)
                (set_up-Makes c_read_3 read_only hex_key))))

  -- Sql::new opens the write connection, gives it the literal of the key, its pragmas and the
  -- schema, and then each read connection with the key and its pragmas, in this order. Either all
  -- these calls work, and it gives the connections; or one of them fails, after those before it
  -- worked, and then it is the last call made, and the result is an error.
  pub new-Makes :
      (sqlite_key : Bytes)
      → (let calls = script (key_literal sqlite_key) in
          ((new answers sqlite_key ≡ (
            ok (record {
              write = c_write;
              c_read_pool = Pool.new Connection c_read_1 c_read_2 c_read_3;
            }),
            calls,
          ))
            × All (λ c. answers c ≡ true) calls)
          ⊎ (made : Log) × Stops answers calls made
            × (new answers sqlite_key ≡ (err (sql fault), made)))
  unfolding new
  new-Makes sqlite_key = elim (set_up_all-Makes (key_literal sqlite_key) []) [
    | inl (done, worked) ↦ inl (rw done, worked)
    | inr (made, stops, failed) ↦ inr (made, stops, rw failed)
  ]
