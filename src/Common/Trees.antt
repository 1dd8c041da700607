-- ===== src/Common/Trees.antt =====
-- A `BTreeMap` from byte strings, as the list of its pairs in the order of the keys.
use mathlib.Core.Path.{◌≡◌, sym, subst}
use mathlib.Core.Logic.{◌≢◌, inl, inr}
use mathlib.Core.Bool.{true}
use mathlib.Core.List.{List, [], ◌∷◌}
use v_m_io.Common.Tests.{if◌then◌else◌, is_yes, Bool-cases, is_yes→, is_no→}
use v_m_io.Common.Lists.{All, All-map}
use v_m_io.Common.Bytes.{Bytes, dec_bytes, lex_leb, lex_leb_trans, lex_leb_total, lex_leb_antisymm}

-- A value under a key that is there takes the place of the old one.
unfoldable pub insert {ℓ} : {A : Type ℓ} → Bytes → A → List (Bytes × A) → List (Bytes × A)
insert key a [] = (key, a) ∷ []
insert key a ((k, b) ∷ map) =
    let rest = insert key a map in
    if is_yes (dec_bytes key k)
    then (key, a) ∷ map
    else if lex_leb key k
    then (key, a) ∷ (k, b) ∷ map
    else (k, b) ∷ rest

-- The keys ascend.
abbrev pub Ascending {ℓ} : {A : Type ℓ} → List (Bytes × A) → Type 0
Ascending [] = Unit
Ascending ((k, a) ∷ map) = All (λ q. (lex_leb k q.0 ≡ true) × (k ≢ q.0)) map × Ascending map

module _ {ℓ} {A : Type ℓ} (key : Bytes) (a : A) where
  pub insert-All :
      (P : Bytes × A → Type 0) (map : List (Bytes × A))
      → P (key, a)
      → All P map
      → All P (insert key a map)
  unfolding insert
  insert-All P [] h all = (h, tt)
  insert-All P ((k, b) ∷ map) h all = elim (Bool-cases (is_yes (dec_bytes key k))) [
    | inl e ↦ rw e (h, all.1)
    | inr ne ↦ elim (Bool-cases (lex_leb key k)) [
      | inl before ↦ rw (ne, before) (h, all)
      | inr after ↦ rw (ne, after) (all.0, insert-All P map h all.1)
    ]
  ]

  pub insert-Ascending : (map : List (Bytes × A)) → Ascending map → Ascending (insert key a map)
  unfolding insert
  insert-Ascending [] h = (tt, tt)
  insert-Ascending ((k, b) ∷ map) h = elim (Bool-cases (is_yes (dec_bytes key k))) [
    | inl e ↦
        let same = is_yes→ (dec_bytes key k) e in
        rw e (subst (λ x. All (λ q. (lex_leb x q.0 ≡ true) × (x ≢ q.0)) map) (sym same) h.0, h.1)
    | inr ne ↦
        let other = is_no→ (dec_bytes key k) ne in
        elim (Bool-cases (lex_leb key k)) [
          | inl before ↦
              rw (ne, before)
                (
                  (
                    (before, other),
                    All-map _ _ map
                        (λ q w. (
                          lex_leb_trans key k q.0 before w.0,
                          λ f. other (
                              lex_leb_antisymm key k before
                                (subst (λ x. lex_leb k x ≡ true) (sym f) w.0)),
                        ))
                        h.0,
                  ),
                  h,
                )
          | inr after ↦
              rw (ne, after)
                (
                  insert-All (λ q. (lex_leb k q.0 ≡ true) × (k ≢ q.0)) map
                      (lex_leb_total key k after, λ f. other (sym f)) h.0,
                  insert-Ascending map h.1,
                )
        ]
  ]

  -- The pair is there.
  pub insert-there :
      (P : Bytes × A → Type 0) (map : List (Bytes × A)) → All P (insert key a map) → P (key, a)
  unfolding insert
  insert-there P [] all = all.0
  insert-there P ((k, b) ∷ map) all = elim (Bool-cases (is_yes (dec_bytes key k))) [
    | inl e ↦ (rw e at all).0
    | inr ne ↦ elim (Bool-cases (lex_leb key k)) [
      | inl before ↦ (rw (ne, before) at all).0
      | inr after ↦ insert-there P map (rw (ne, after) at all).1
    ]
  ]
