-- ===== src/History/Tests.antt =====
-- src/electrumx.js: scripts and one name's history, and the theorems on them.
use strfry_namecoin_policy.Prelude.{
  ℕ, ◌+◌, ◌≡◌, ◌≢◌, refl, false, Option, none, some, List, [], ◌∷◌, ◌++◌, length, arith,
}
use strfry_namecoin_policy.Prelude.Int.{pos}
use strfry_namecoin_policy.Js.{Text, txt, Runtime, same, to_lower, is_hex}
use strfry_namecoin_policy.Js.Json.{
  Json, num, str, arr, obj, nil, cons, end, field, prop, truthy, is_object, as_text, as_array,
  field_of, array_index,
}
use strfry_namecoin_policy.Script.{
  push_data, push_header, read_push_data, read_body, build_name_index_script, parse_name_script,
  read_value, electrum_script_hash, op_name_update, op_name_firstupdate, to_ascii, to_hex,
}
use strfry_namecoin_policy.Script.Push.{read_push_data-push_data}
use strfry_namecoin_policy.Script.Name.{
  update_script, firstupdate_script, parse-update_script, parse-firstupdate_script,
  parse_forgets_high_bits,
}
use strfry_namecoin_policy.History.{
  sort_entries, insert_entry, filtered, eligible, height_of, min_conf_of, NameRow, Outcome, missing,
  found, failed, carried, walk, conclude, select_name_row, parse_name_from_tx, parse_outputs,
  parse_output, from_hex, TipCache, Server, run_resolve, current_tip, tip_of,
}

script : Unit {0}
unfolding push_data push_header read_push_data read_body build_name_index_script read_value
    parse_name_script
script = tt

lookup : Unit {0}
unfolding script same to_lower is_hex prop field_of array_index truthy is_object as_text as_array
    from_hex parse_output parse_outputs parse_name_from_tx height_of eligible filtered insert_entry
    sort_entries min_conf_of carried walk conclude select_name_row tip_of current_tip run_resolve
    electrum_script_hash to_hex
lookup = tt

abbrev plain : Runtime
plain = record {
  lower_wide = λ c. c ∷ [];
  other_number = λ s. none;
  decode_utf8 = λ bs. bs;
  sha256 = λ bs. bs;
}

abbrev output : Text → Json
output hex = obj (field (txt "scriptPubKey") (obj (field (txt "hex") (str hex) end)) end)

-- A transaction with an update of the name "d/a" to the value "v".
abbrev update_tx : Json
update_tx = obj (
    field (txt "vout")
      (arr (cons (output (txt "76a9")) (cons (output (txt "5303642f61017675")) nil))) end)

abbrev item : Text → ℕ → Json
item tx_hash height =
    obj (field (txt "tx_hash") (str tx_hash) (field (txt "height") (num (pos height)) end))

abbrev fetch : Text → Option (Option Json)
fetch tx_hash = some (some update_tx)

abbrev items_of_name : List Json
items_of_name = item (txt "t1") 100 ∷ item (txt "t2") 200 ∷ item (txt "t3") 0 ∷ []

abbrev row : NameRow
row = record {
  name = txt "d/a";
  value = txt "v";
  txid = txt "t2";
  height = 200;
  expires_in = some (pos 35_900);
  tip = some (pos 300);
}

read_none :
    select_name_row plain fetch (txt "d/b") items_of_name (some (pos 300)) (some (pos 1)) ≡ missing
unfolding lookup
read_none = refl

read_push_data-push_data_example :
    read_push_data (1 ∷ 2 ∷ (push_data (7 ∷ 8 ∷ []) ++ 9 ∷ [])) 2
    ≡ some (record { bytes = 7 ∷ 8 ∷ []; next = 2 + length (push_data (7 ∷ 8 ∷ [])) })
read_push_data-push_data_example =
    read_push_data-push_data (1 ∷ 2 ∷ []) (7 ∷ 8 ∷ []) (9 ∷ []) (omega arith)

parse-update_script_example :
    parse_name_script plain (update_script op_name_update (txt "d/a") (txt "v") (0x75 ∷ []))
    ≡ some (record { op = op_name_update; name = to_ascii (txt "d/a"); value = txt "v" })
unfolding script
parse-update_script_example =
    parse-update_script plain (txt "d/a") (txt "v") (0x75 ∷ []) (omega arith) (omega arith)
      (omega arith)

abbrev rand : List ℕ
rand = txt "01234567890123456789"

parse-firstupdate_script_example :
    parse_name_script plain (firstupdate_script (txt "d/a") rand (txt "v") [])
    ≡ some (record { op = op_name_firstupdate; name = to_ascii (txt "d/a"); value = txt "v" })
parse-firstupdate_script_example =
    parse-firstupdate_script plain (txt "d/a") (txt "v") [] (omega arith) (omega arith) rand refl

-- 0xe1 is 0x61, the letter a, with the high bit set.
parse_forgets_high_bits_example :
    (push_data (txt "d/a") ≢ push_data (b'd' ∷ b'/' ∷ 0xe1 ∷ []))
    × (parse_name_script plain (update_script op_name_update (txt "d/a") (txt "v") [])
        ≡ parse_name_script plain
            (update_script op_name_update (b'd' ∷ b'/' ∷ 0xe1 ∷ []) (txt "v") []))
unfolding script
parse_forgets_high_bits_example =
    parse_forgets_high_bits plain (txt "d/a") (b'd' ∷ b'/' ∷ 0xe1 ∷ []) (txt "v") [] (omega arith)
      (omega arith) (omega arith) (omega arith) (omega arith) (ground arith) refl

abbrev server : Server
server = record {
  version = some (some (str (txt "1.4")));
  get_history = λ key. some (some (arr (cons (item (txt "t2") 200) nil)));
  headers = some (some (obj (field (txt "height") (num (pos 300)) end)));
  get_tx = fetch;
}

abbrev no_tip : TipCache
no_tip = record { cached_tip = none; cached_tip_at = 0 }

abbrev resolved : TipCache × Outcome
resolved = run_resolve plain server (some (pos 1)) (txt "d/a") 1000 no_tip

read_resolved : resolved.1 ≡ found row
unfolding lookup
read_resolved = refl

abbrev silent_server : Server
silent_server = record server { get_history = λ key. none }

abbrev unresolved : TipCache × Outcome
unresolved = run_resolve plain silent_server (some (pos 1)) (txt "d/a") 1000 no_tip

read_unresolved : unresolved.1 ≡ failed false
unfolding lookup
read_unresolved = refl
