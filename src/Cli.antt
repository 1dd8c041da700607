-- ===== src/Cli.antt =====
-- The commands of rs/v-m-io-cli/src/lib.rs on the config, with the tombstone of
-- rs/v-m-io-types/src/api.rs: what `cfg-rm` sends, and what `cfg-get` shows.
pub mod Run
pub mod Printed
pub mod ReadBack
use v_m_io.Common.{
  ◌^◌, ◌-◌, if◌then◌else◌, ◌*◌, ◌≡◌, refl, sym, ap, ◌∙◌, subst, Bool, true, false, not, ◌||◌,
  Option, none, some, List, [], ◌∷◌, ◌++◌, keep, find, arith, if◌then◌else◌, is_yes, is_yes→,
  is_no→, Bool-cases, inl, inr,
}
use v_m_io.Common.Bytes.{Bytes, ascii, dec_bytes, lex_leb}
use v_m_io.Common.Int.{negsuc, ltbℤ, i64_max, ℤ, pos, ◌+ℤ◌}
use v_m_io.Chan.Client.{CfgGetItem, CfgPutReq}

-- `CONFIG_TOMBSTONE`
abbrev pub config_tombstone : Bytes
config_tombstone = 31 ∷ (ascii "[[::TOMBSTONE::]]" ++ (4 ∷ []))

abbrev pub is_tombstone : CfgGetItem → Bool
is_tombstone item = is_yes (dec_bytes item.value config_tombstone)

-- The filter of `CfgGet`.
abbrev pub shown : Bool → CfgGetItem → Bool
shown show_tombstones item = show_tombstones || not (is_tombstone item)

-- Insertion into a `BTreeMap`, as the list of its items in the order of their keys: an item under a
-- key that is there takes the place of the old one.
unfoldable pub insert_item : CfgGetItem → List CfgGetItem → List CfgGetItem
insert_item item [] = item ∷ []
insert_item item (i ∷ items) =
    let rest = insert_item item items in
    if is_yes (dec_bytes item.key i.key)
    then item ∷ items
    else if lex_leb item.key i.key
    then item ∷ i ∷ items
    else i ∷ rest

-- `collect`
unfoldable pub collect : List CfgGetItem → List CfgGetItem → List CfgGetItem
unfolding insert_item
collect map' [] = map'
collect map' (item ∷ items) = collect (insert_item item map') items

-- What `CfgGet` prints of the items that the server sent.
unfoldable pub dump : Bool → List CfgGetItem → List CfgGetItem
unfolding collect
dump show_tombstones items = collect [] (keep (shown show_tombstones) items)

-- 30 days in microseconds
abbrev pub default_expiry : ℤ
default_expiry = pos (1000 * 1000 * 60 * 60 * 24 * 30)

-- `+` on i64, for an addend that is not negative, with the wrap around of a release build; a debug
-- build panics instead.
unfoldable pub add_i64 : ℤ → ℤ → ℤ
add_i64 a b = if ltbℤ i64_max (a +ℤ b) then a +ℤ b +ℤ negsuc (2 ^ 64 - 1) else a +ℤ b

abbrev pub expiry_or : Option ℤ → ℤ → ℤ
expiry_or none now = add_i64 now default_expiry
expiry_or (some x) now = x

-- What `CfgRm` sends, from what the clock reads.
unfoldable pub cfg_rm : Bytes → Option ℤ → Option ℤ → ℤ → CfgPutReq
cfg_rm key expires_at_micros modified_at_micros now = record {
  key = key;
  value = config_tombstone;
  expires_at_micros = some (expiry_or expires_at_micros now);
  modified_at_micros = modified_at_micros;
}

abbrev pub item_under : Bytes → List CfgGetItem → Option CfgGetItem
item_under key = find (λ (i : CfgGetItem). is_yes (dec_bytes key i.key))

-- The last of the items under a key that the filter lets through, or what was there before.
abbrev pub last_under : Bool → Bytes → Option CfgGetItem → List CfgGetItem → Option CfgGetItem
last_under show key found [] = found
last_under show key found (i ∷ items) =
    last_under show key
      (if shown show i then if is_yes (dec_bytes key i.key) then some i else found else found) items

item_under-insert_item :
    (key : Bytes) (item : CfgGetItem) (items : List CfgGetItem)
    → item_under key (insert_item item items)
      ≡ (if is_yes (dec_bytes key item.key) then some item else item_under key items)
unfolding insert_item
item_under-insert_item key item [] = refl
item_under-insert_item key item (i ∷ items) =
    let ih = item_under-insert_item key item items in
    elim (Bool-cases (is_yes (dec_bytes item.key i.key))) [
      | inl same ↦
          let e = is_yes→ (dec_bytes item.key i.key) same in
          elim (Bool-cases (is_yes (dec_bytes key i.key))) [
            | inl k ↦
                let k' : is_yes (dec_bytes key item.key) ≡ true =
                  subst (λ x. is_yes (dec_bytes key x) ≡ true) (sym e) k in
                rw (same, k')
            | inr k ↦
                let k' : is_yes (dec_bytes key item.key) ≡ false =
                  subst (λ x. is_yes (dec_bytes key x) ≡ false) (sym e) k in
                rw (same, k', k)
          ]
      | inr other ↦ elim (Bool-cases (lex_leb item.key i.key)) [
        | inl before ↦ rw (other, before)
        | inr after ↦ elim (Bool-cases (is_yes (dec_bytes key i.key))) [
          | inr k ↦ rw (other, after, k) ih
          | inl k ↦
              let e = is_yes→ (dec_bytes key i.key) k in
              let k' : is_yes (dec_bytes key item.key) ≡ false =
                elim (Bool-cases (is_yes (dec_bytes key item.key))) [
                  | inr f ↦ f
                  | inl t ↦ absurd (
                      is_no→ (dec_bytes item.key i.key) other
                        (sym (is_yes→ (dec_bytes key item.key) t) ∙ e))
                ] in
              rw (other, after, k, k')
        ]
      ]
    ]

item_under-collect :
    (show : Bool) (key : Bytes) (map' items : List CfgGetItem)
    → item_under key (collect map' (keep (shown show) items))
      ≡ last_under show key (item_under key map') items
unfolding collect
item_under-collect show key map' [] = refl
item_under-collect show key map' (i ∷ items) = elim (Bool-cases (shown show i)) [
  | inl s ↦ rw s (
      item_under-collect show key (insert_item i map') items
      ∙ ap (λ o. last_under show key o items) (item_under-insert_item key i map'))
  | inr s ↦ rw s (item_under-collect show key map' items)
]

-- What is found is no tombstone.
abbrev IsLive : Option CfgGetItem → Type 0
IsLive none = Unit {0}
IsLive (some item) = is_tombstone item ≡ false

last_under-IsLive :
    (key : Bytes) (found : Option CfgGetItem) (items : List CfgGetItem)
    → IsLive found
    → IsLive (last_under false key found items)
last_under-IsLive key found [] h = h
last_under-IsLive key found (i ∷ items) h = elim (Bool-cases (shown false i)) [
  | inr s ↦ rw s (last_under-IsLive key found items h)
  | inl s ↦ elim (Bool-cases (is_yes (dec_bytes key i.key))) [
    | inl k ↦
        let live : is_tombstone i ≡ false = ground arith in
        rw (s, k) (last_under-IsLive key (some i) items live)
    | inr k ↦ rw (s, k) (last_under-IsLive key found items h)
  ]
]

live_of :
    (o : Option CfgGetItem) (item : CfgGetItem)
    → IsLive o
    → o ≡ some item
    → is_tombstone item ≡ false
live_of none item h e = cc
live_of (some i) item h e = let same : i ≡ item = cc in subst (λ j. is_tombstone j ≡ false) same h

-- Under each key, what cfg-get prints is the last of the received items with that key that the
-- filter lets through; and without the flag for tombstones no printed item is one.
pub item_under-dump :
    (show : Bool) (key : Bytes) (items : List CfgGetItem)
    → (item_under key (dump show items) ≡ last_under show key none items)
      × ((item : CfgGetItem)
          → item_under key (dump false items) ≡ some item
          → is_tombstone item ≡ false)
unfolding dump
item_under-dump show key items = (
  item_under-collect show key [] items,
  (λ item e.
      live_of _ item (last_under-IsLive key none items tt)
        (sym (item_under-collect false key [] items) ∙ e)),
)
