-- ===== src/Sql/Pool.antt =====
-- `RingPool` of rs/v-m-io-db/src/sql.rs: three connections go round through a channel. A step is a
-- `get` that takes one out, or the drop of a guard that returns its own; on an empty channel `get`
-- waits, so that it has no step.
use mathlib.Core.List.Perm
use mathlib.Core.List.{Perm, perm_middle}
use v_m_io.Common.{◌≡◌, refl, sym, ap, subst, List, [], ◌∷◌, ◌++◌}

module _ (T : Type 0) where
  -- What waits in the channel, and what the guards hold.
  pub record RingPool : Type 0 where
    pub waiting : List T
    pub held : List T

  -- `RingPool::new`
  abbrev pub new : T → T → T → RingPool
  new a b c = record { waiting = a ∷ b ∷ c ∷ []; held = [] }

  -- `get`, and `drop` of a guard
  pub data PoolStep : RingPool → RingPool → Type 0 where
    get :
        (x : T) (waiting held : List T)
        → PoolStep
            (record { waiting = x ∷ waiting; held = held })
            (record { waiting = waiting; held = x ∷ held })
    drop_guard :
        (x : T) (waiting before after : List T)
        → PoolStep
            (record { waiting = waiting; held = before ++ (x ∷ after) })
            (record { waiting = waiting ++ (x ∷ []); held = before ++ after })

  pub data PoolSteps : RingPool → RingPool → Type 0 where
    none_taken : {p : RingPool} → PoolSteps p p
    then_step : {p q r : RingPool} → PoolSteps p q → PoolStep q r → PoolSteps p r

  abbrev pub contents : RingPool → List T
  contents p = p.waiting ++ p.held

  snoc_append : (xs : List T) (x : T) (ys : List T) → (xs ++ (x ∷ [])) ++ ys ≡ xs ++ (x ∷ ys)
  snoc_append [] x ys = refl
  snoc_append (y ∷ xs) x ys = ap (λ l. y ∷ l) (snoc_append xs x ys)

  step-Perm : {p q : RingPool} → PoolStep p q → Perm (contents q) (contents p)
  step-Perm (get x waiting held) = perm_middle waiting held
  step-Perm (drop_guard x waiting before after) =
      subst (λ l. Perm l (waiting ++ (before ++ (x ∷ after))))
        (sym (snoc_append waiting x (before ++ after)))
        (Perm.append_left waiting (Perm.symm (perm_middle before after)))

  steps-Perm : {p q : RingPool} → PoolSteps p q → Perm (contents q) (contents p)
  steps-Perm none_taken = Perm.refl _
  steps-Perm (then_step steps step) = Perm.trans (step-Perm step) (steps-Perm steps)

  -- Whatever is taken from the pool and returned by guards, in any order, each of the three
  -- connections is in the channel or with one guard, once.
  pub pool_conserved :
      (a b c : T) (p : RingPool) → PoolSteps (new a b c) p → Perm (contents p) (a ∷ b ∷ c ∷ [])
  pool_conserved a b c p steps = steps-Perm steps
