-- ===== src/History.antt =====
-- src/electrumx.js: the choice of the transaction that holds a name's current value, and the
-- Electrum calls around it. A server's reply is `none` where the call fails (an error reply, a
-- timeout, a lost connection), else what it resolves to.
pub mod Sort
pub mod Select
pub mod Verdict
pub mod Resolve
mod Tests
use strfry_namecoin_policy.Prelude.{
  ℕ, zero, suc, ◌+◌, ◌-◌, ◌*◌, ◌%◌, Bool, true, false, not, ◌&&◌, ◌||◌, Option, none, some, List,
  [], ◌∷◌, ◌++◌, map, length, take, ltb, leb, ◌==◌, if◌then◌else◌,
}
use strfry_namecoin_policy.Prelude.Int.{ℤ, pos, negsuc, pos_part, neg_part, sub_ℕ}
use strfry_namecoin_policy.Js.{Text, txt, same, Runtime, to_lower, is_hex}
use strfry_namecoin_policy.Js.Json.{Json, num, prop, truthy, is_object, as_text, as_array}
use strfry_namecoin_policy.Script.{
  Bytes, NameScript, parse_name_script, build_name_index_script, electrum_script_hash,
}

abbrev pub name_expire_depth : ℕ
name_expire_depth = 36_000

abbrev pub max_history_walk : ℕ
max_history_walk = 32

abbrev pub tip_cache_ttl_ms : ℕ
tip_cache_ttl_ms = 60_000

abbrev hex_value : ℕ → ℕ
hex_value c = if leb c b'9' then c - b'0' else if leb c b'F' then c - b'A' + 10 else c - b'a' + 10

-- `Buffer.from(hex, 'hex')` stops at the first pair that is not two hexadecimal digits.
unfoldable pub from_hex : Text → Bytes
unfolding is_hex
from_hex (c ∷ d ∷ s) =
    if is_hex c && is_hex d then (hex_value c * 16 + hex_value d) ∷ from_hex s else []
from_hex _ = []

-- `v && v[k]` where only a text counts in the end.
abbrev then_prop : Option Json → Text → Option Json
then_prop none k = none
then_prop (some v) k = if truthy (some v) then prop v k else none

module _ (rt : Runtime) where
  -- One round of the loop of `parseNameFromTx`.
  unfoldable pub parse_output : Text → Json → Option NameScript
  unfolding from_hex to_lower
  parse_output expected vout =
      elim (as_text (then_prop (then_prop (some vout) (txt "scriptPubKey")) (txt "hex"))) [
        | none ↦ none
        | some hex ↦
            let first = to_lower rt (take 2 hex) in
            if not (same first (txt "53")) && not (same first (txt "52"))
            then none
            else elim (parse_name_script rt (from_hex hex)) [
              | none ↦ none
              | some parsed ↦ if same parsed.name expected then some parsed else none
            ]
      ]

  unfoldable pub parse_outputs : Text → List Json → Option NameScript
  parse_outputs expected [] = none
  parse_outputs expected (vout ∷ more) =
      let rest = parse_outputs expected more in
      elim (parse_output expected vout) [ some parsed ↦ some parsed | none ↦ rest ]

  unfoldable pub parse_name_from_tx : Option Json → Text → Option NameScript
  parse_name_from_tx tx expected =
      if is_object tx
      then elim (as_array (then_prop tx (txt "vout"))) [
        | none ↦ none
        | some outs ↦ parse_outputs expected outs
      ]
      else none

pub record Entry : Type 0 where
  pub tx_hash : Text
  pub height : ℕ

-- `Number.isFinite(m) ? Math.max(0, Math.floor(m)) : 1`
unfoldable pub min_conf_of : Option ℤ → ℕ
min_conf_of none = 1
min_conf_of (some (pos n)) = n
min_conf_of (some (negsuc n)) = 0

-- `(tip - ht) + 1 < minConf`, with no subtraction.
abbrev pub is_under_confirmed : ℤ → ℕ → ℕ → Bool
is_under_confirmed tip ht min_conf = ltb (pos_part tip + 1) (min_conf + ht + neg_part tip)

abbrev pub confirmed : Option ℤ → ℕ → ℕ → Bool
confirmed none ht min_conf = true
confirmed (some tip) ht min_conf = not (ltb 0 min_conf && is_under_confirmed tip ht min_conf)

-- `typeof h.height === 'number' ? h.height : 0`, and what is not positive is dropped.
unfoldable pub height_of : Option Json → Option ℕ
height_of (some (num (pos (suc n)))) = some (suc n)
height_of _ = none

-- One round of the filter: what becomes of one item of the history.
unfoldable pub eligible : Option ℤ → ℕ → Json → Option Entry
eligible tip min_conf h = elim (as_text (then_prop (some h) (txt "tx_hash"))) [
  | none ↦ none
  | some tx_hash ↦ elim (height_of (prop h (txt "height"))) [
    | none ↦ none
    | some ht ↦
        if confirmed tip ht min_conf then some (record { tx_hash = tx_hash; height = ht }) else none
  ]
]

unfoldable pub filtered : Option ℤ → ℕ → List Json → List Entry
filtered tip min_conf [] = []
filtered tip min_conf (h ∷ hs) = elim (eligible tip min_conf h) [
  | none ↦ filtered tip min_conf hs
  | some e ↦ e ∷ filtered tip min_conf hs
]

-- `filtered.sort((a, b) => b.height - a.height)`: highest first, and stable.
unfoldable pub insert_entry : Entry → List Entry → List Entry
insert_entry e [] = e ∷ []
insert_entry e (x ∷ xs) = if leb x.height e.height then e ∷ x ∷ xs else x ∷ insert_entry e xs

unfoldable pub sort_entries : List Entry → List Entry
sort_entries [] = []
sort_entries (e ∷ es) = insert_entry e (sort_entries es)

pub record NameRow : Type 0 where
  pub name : Text
  pub value : Text
  pub txid : Text
  pub height : ℕ
  pub expires_in : Option ℤ
  pub tip : Option ℤ

-- What a lookup ends with: no record, a record, or an error, which is definitive if no other
-- server would answer otherwise.
pub data Outcome : Type 0 where
  missing : Outcome
  found : NameRow → Outcome
  failed : (definitive : Bool) → Outcome

-- `(tip - height) >= NAME_EXPIRE_DEPTH`, with no subtraction.
abbrev pub is_expired : Option ℤ → ℕ → Bool
is_expired none height = false
is_expired (some tip) height = leb (name_expire_depth + height + neg_part tip) (pos_part tip)

abbrev pub expires_in_of : Option ℤ → ℕ → Option ℤ
expires_in_of none height = none
expires_in_of (some tip) height =
    some (sub_ℕ (name_expire_depth + height + neg_part tip) (pos_part tip))

module _ (rt : Runtime) (fetch_tx : Text → Option (Option Json)) (name : Text) where
  -- The name script for the name that one entry's transaction holds, if any.
  unfoldable pub carried : Entry → Option NameScript
  carried e = elim (fetch_tx e.tx_hash) [ none ↦ none | some tx ↦ parse_name_from_tx rt tx name ]

  unfoldable pub walk : List Entry → Option (Entry × NameScript)
  walk [] = none
  walk (e ∷ es) =
      let rest = walk es in elim (carried e) [ none ↦ rest | some parsed ↦ some (e, parsed) ]

  unfoldable pub conclude : Option ℤ → Option (Entry × NameScript) → Outcome
  conclude tip none = missing
  conclude tip (some (e, parsed)) =
      if is_expired tip e.height
      then failed true
      else found (record {
        name = parsed.name;
        value = parsed.value;
        txid = e.tx_hash;
        height = e.height;
        expires_in = expires_in_of tip e.height;
        tip = tip;
      })

  unfoldable pub select_name_row : List Json → Option ℤ → Option ℤ → Outcome
  select_name_row history tip min_confirmations = conclude tip (
      walk (
        take max_history_walk
          (sort_entries (filtered tip (min_conf_of min_confirmations) history))))

-- The module-level cache of the chain's tip.
pub record TipCache : Type 0 where
  pub cached_tip : Option ℤ
  pub cached_tip_at : ℕ

-- One server's replies during one lookup.
pub record Server : Type 0 where
  pub version : Option (Option Json)
  pub get_history : Text → Option (Option Json)
  pub headers : Option (Option Json)
  pub get_tx : Text → Option (Option Json)

-- `now - cachedTipAt < TIP_CACHE_TTL_MS`, with no subtraction.
abbrev pub fresh_tip : TipCache → ℕ → Option ℤ
fresh_tip c now = if ltb now (c.cached_tip_at + tip_cache_ttl_ms) then c.cached_tip else none

-- `typeof headers.height === 'number'`
unfoldable pub tip_of : Option (Option Json) → Option ℤ
tip_of (some (some v)) = elim (prop v (txt "height")) [
  | none ↦ none
  | some h ↦ elim h [ num n ↦ some n | _ ↦ none ]
]
tip_of _ = none

-- The tip, and the cache after it has been asked for.
unfoldable pub current_tip : Server → TipCache → ℕ → TipCache × Option ℤ
unfolding tip_of
current_tip server cache now = elim (fresh_tip cache now) [
  | some tip ↦ (cache, some tip)
  | none ↦ elim (tip_of server.headers) [
    | none ↦ (cache, none)
    | some tip ↦ (record { cached_tip = some tip; cached_tip_at = now }, some tip)
  ]
]

unfoldable pub run_resolve : Runtime → Server → Option ℤ → Text → ℕ → TipCache → TipCache × Outcome
run_resolve rt server min_confirmations name now cache = elim server.version [
  | none ↦ (cache, failed false)
  | some _ ↦
      let script = build_name_index_script (map (λ c. c % 256) name) in
      elim (server.get_history (electrum_script_hash rt script)) [
        | none ↦ (cache, failed false)
        | some reply ↦ elim (as_array reply) [
          | none ↦ (cache, missing)
          | some history ↦
              if length history == 0
              then (cache, missing)
              else let (cache', tip) = current_tip server cache now in
                (cache', select_name_row rt server.get_tx name history tip min_confirmations)
        ]
      ]
]
