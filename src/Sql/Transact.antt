-- ===== src/Sql/Transact.antt =====
-- The rule for a step of sql.rs that runs in a transaction: what holds of every failure, with the
-- tables as they were, and of every success, holds of the step.
use v_m_io.Common.{◌≡◌, refl, Option, none, some}
use v_m_io.Io.{IoError, Result, ok, err, ◌>>=◌}
use v_m_io.Sql.Tables.{Tables}
use v_m_io.Sql.Methods.{satisfied, transact}

module _ {A B : Type 0} (Q : Result B × Tables → Type 0) (t : Tables)
    (failure : (e : IoError) → Q (err e, t)) where
  pub transact-bind :
      (m : Result A) (f : A → Result (B × Tables))
      → ((a : A) → m ≡ ok a → Q (transact t (f a)))
      → Q (transact t (m >>= f))
  transact-bind (ok a) f h = h a refl
  transact-bind (err e) f h = failure e

pub satisfied-ok {ℓ} : {A : Type ℓ} (o : Option A) (a : A) → satisfied o ≡ ok a → o ≡ some a
satisfied-ok none a h = cc
satisfied-ok (some b) a h = cc
