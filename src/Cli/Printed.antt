-- ===== src/Cli/Printed.antt =====
-- What `cfg-get` of rs/v-m-io-cli/src/lib.rs prints of a listing in which one item has the key.
use v_m_io.Common.{
  ◌≡◌, refl, sym, ap, ◌∙◌, subst, Bool, true, false, Option, none, some, List, [], ◌∷◌, map, any,
  All, is_yes, is_yes→, Bool-cases, inl, inr, if◌then◌else◌,
}
use v_m_io.Common.Bytes.{Bytes, dec_bytes}
use v_m_io.Sql.Tables.{EntryRow}
use v_m_io.Chan.Client.{CfgGetItem}
use v_m_io.Back.Reading.{item_of}
use v_m_io.Cli.{shown, dump, item_under, last_under, item_under-dump}

abbrev pub any_under : Bytes → List CfgGetItem → Bool
any_under key = any (λ (i : CfgGetItem). is_yes (dec_bytes key i.key))

if_same : {A : Type 0} (b : Bool) (a : A) → (if b then a else a) ≡ a
if_same true a = refl
if_same false a = refl

if_found :
    {A : Type 0} (b c : Bool) (a d : A) → c ≡ false → (if b then if c then a else d else d) ≡ d
if_found true c a d h = rw h
if_found false c a d h = refl

module _ (show : Bool) (key : Bytes) (item : CfgGetItem) where
  abbrev Only : List CfgGetItem → Type 0
  Only = All (λ (i : CfgGetItem). key ≡ i.key → i ≡ item)

  -- Another item under the key that the filter lets through is none.
  passed_over :
      (found : Option CfgGetItem) (i : CfgGetItem)
      → is_yes (dec_bytes key i.key) ≡ false
      → (if shown show i then if is_yes (dec_bytes key i.key) then some i else found else found)
        ≡ found
  passed_over found i other =
      if_found (shown show i) (is_yes (dec_bytes key i.key)) (some i) found other

  last_shown :
      (found : Option CfgGetItem) (received : List CfgGetItem)
      → Only received
      → shown show item ≡ true
      → last_under show key found received ≡ (if any_under key received then some item else found)
  last_shown found [] h visible = refl
  last_shown found (i ∷ received) h visible = elim (Bool-cases (is_yes (dec_bytes key i.key))) [
    | inl k ↦
        let same = h.0 (is_yes→ (dec_bytes key i.key) k) in
        let visible' : shown show i ≡ true = subst (λ j. shown show j ≡ true) (sym same) visible in
        rw (k, visible')
          (last_shown (some i) received h.1 visible
            ∙ ap (λ j. if any_under key received then some item else some j) same
            ∙ if_same (any_under key received) (some item))
    | inr other ↦
        ap (λ f. last_under show key f received) (passed_over found i other)
        ∙ rw other (last_shown found received h.1 visible)
  ]

  last_hidden :
      (found : Option CfgGetItem) (received : List CfgGetItem)
      → Only received
      → shown show item ≡ false
      → last_under show key found received ≡ found
  last_hidden found [] h hidden = refl
  last_hidden found (i ∷ received) h hidden = elim (Bool-cases (is_yes (dec_bytes key i.key))) [
    | inl k ↦
        let same = h.0 (is_yes→ (dec_bytes key i.key) k) in
        let hidden' : shown show i ≡ false = subst (λ j. shown show j ≡ false) (sym same) hidden in
        rw hidden' (last_hidden found received h.1 hidden)
    | inr other ↦
        ap (λ f. last_under show key f received) (passed_over found i other)
        ∙ last_hidden found received h.1 hidden
  ]

  -- The only item under the key is printed if the filter lets it through.
  pub Only-dump :
      (received : List CfgGetItem)
      → Only received
      → any_under key received ≡ true
      → item_under key (dump show received) ≡ (if shown show item then some item else none)
  Only-dump received h there =
      (item_under-dump show key received).0 ∙ elim (Bool-cases (shown show item)) [
        | inl visible ↦ last_shown none received h visible ∙ rw (there, visible)
        | inr hidden ↦ last_hidden none received h hidden ∙ rw hidden
      ]

-- The items are those of the config entries.
pub items_only :
    (key : Bytes) (row : EntryRow) (rows : List EntryRow)
    → All (λ (e : EntryRow). key ≡ e.key → e ≡ row) rows
    → All (λ (i : CfgGetItem). key ≡ i.key → i ≡ item_of row) (map item_of rows)
items_only key row [] h = tt
items_only key row (e ∷ rows) h = (λ same. ap item_of (h.0 same), items_only key row rows h.1)

pub any_items :
    (key : Bytes) (rows : List EntryRow)
    → any_under key (map item_of rows) ≡ any (λ (e : EntryRow). is_yes (dec_bytes key e.key)) rows
any_items key [] = refl
any_items key (e ∷ rows) = rw (any_items key rows)
