-- ===== src/Chan/Handlers.antt =====
-- The table of handlers that `ChanSrv::new` of rs/v-m-io-chan/src/lib.rs builds.
use v_m_io.Common.{
  ◌≡◌, subst, refl, Bool, true, false, some, List, [], ◌∷◌, any, All, is_yes, is_yes→, →is_yes,
  if◌then◌else◌, Bool-cases, inl, inr, ◌⊎◌,
}
use v_m_io.Common.Bytes.{Bytes, dec_bytes}
use v_m_io.Io.{Result, ok, err, duplicate_handler}
use v_m_io.Chan.Requests.{ChanHandler, get_handler, health_handler, health_req}

module _ {S : Type 0} where
  abbrev pub has_name : Bytes → List (ChanHandler S) → Bool
  has_name name = any (λ h. is_yes (dec_bytes name h.req))

  -- The loop over the configured handlers, from the table so far.
  unfoldable pub register :
      List (ChanHandler S) → List (ChanHandler S) → Result (List (ChanHandler S))
  register table [] = ok table
  register table (h ∷ hs) =
      let rest = register (h ∷ table) hs in
      if has_name h.req table then err duplicate_handler else rest

  -- The table starts with the health check.
  unfoldable pub register_all : List (ChanHandler S) → Result (List (ChanHandler S))
  register_all handlers = register (health_handler ∷ []) handlers

  -- No two handlers have one name.
  unfoldable pub Distinct : List (ChanHandler S) → List (ChanHandler S) → Type 0
  Distinct table [] = Unit {0}
  Distinct table (h ∷ hs) = (has_name h.req table ≡ false) × Distinct (h ∷ table) hs

  found-has_name :
      (table : List (ChanHandler S)) (name : Bytes) (h : ChanHandler S)
      → get_handler name table ≡ some h
      → has_name name table ≡ true
  found-has_name [] name h e = cc
  found-has_name (x ∷ table) name h e = elim (Bool-cases (is_yes (dec_bytes name x.req))) [
    | inl s ↦ rw s
    | inr s ↦ rw s (
        found-has_name table name h
          (subst (λ b. (if b then some x else get_handler name table) ≡ some h) s e))
  ]

  -- A name that the table has answers as before once another is in front of it.
  found-push :
      (table : List (ChanHandler S)) (x : ChanHandler S) (name : Bytes) (h : ChanHandler S)
      → has_name x.req table ≡ false
      → get_handler name table ≡ some h
      → get_handler name (x ∷ table) ≡ some h
  found-push table x name h free f = elim (Bool-cases (is_yes (dec_bytes name x.req))) [
    | inr s ↦ rw s f
    | inl s ↦
        let same = is_yes→ (dec_bytes name x.req) s in
        let taken : has_name x.req table ≡ true =
          subst (λ n. has_name n table ≡ true) same (found-has_name table name h f) in
        cc
  ]

  -- What came of a registration: all names are distinct, and each handler answers to its name, as
  -- does each that was in the table; or a name came twice.
  pub record Registered (table handlers out : List (ChanHandler S)) : Type 0 where
    pub distinct : Distinct table handlers
    pub kept :
        (name : Bytes) (h : ChanHandler S)
        → get_handler name table ≡ some h
        → get_handler name out ≡ some h
    pub added : All (λ (h : ChanHandler S). get_handler h.req out ≡ some h) handlers

  register-Registered :
      (table handlers : List (ChanHandler S))
      → ((out : List (ChanHandler S)) × (register table handlers ≡ ok out)
          × Registered table handlers out)
        ⊎ (¬ Distinct table handlers) × (register table handlers ≡ err duplicate_handler)
  unfolding register Distinct
  register-Registered table [] =
      inl (table, refl, record { distinct = tt; kept = λ name h f. f; added = tt })
  register-Registered table (x ∷ hs) = elim (Bool-cases (has_name x.req table)) [
    | inl taken ↦ inr ((λ d. let free = d.0 in cc), rw taken)
    | inr free ↦ elim (register-Registered (x ∷ table) hs) [
      | inr (twice, e) ↦ inr ((λ d. twice d.1), rw free e)
      | inl (out, e, r) ↦ inl (
        out,
        rw free e,
        record {
          distinct = (free, r.distinct);
          kept = λ name h f. r.kept name h (found-push table x name h free f);
          added = (r.kept x.req x (rw (→is_yes (dec_bytes x.req x.req) refl)), r.added);
        },
      )
    ]
  ]

  health_found : get_handler health_req (health_handler {S = S} ∷ []) ≡ some health_handler
  unfolding health_handler
  health_found = rw (→is_yes (dec_bytes health_req health_req) refl)

  -- A server starts with a table in which the health check and each configured handler answer to
  -- their names, if no name comes twice or is that of the health check; otherwise it does not
  -- start.
  pub register_all-Registered :
      (handlers : List (ChanHandler S))
      → ((out : List (ChanHandler S)) × (register_all handlers ≡ ok out)
          × (get_handler health_req out ≡ some health_handler)
          × Registered (health_handler ∷ []) handlers out)
        ⊎ (¬ Distinct (health_handler ∷ []) handlers)
          × (register_all handlers ≡ err duplicate_handler)
  unfolding register_all
  register_all-Registered handlers = elim (register-Registered (health_handler ∷ []) handlers) [
    | inr twice ↦ inr twice
    | inl (out, e, r) ↦ inl (out, e, r.kept health_req health_handler health_found, r)
  ]
