-- ===== src/Client/Tests.antt =====
-- src/electrumx.js: runs of the client, and its theorems at concrete networks.
use strfry_namecoin_policy.Prelude.{
  ◌++◌, if◌then◌else◌, ℕ, ◌==◌, ◌<◌, ◌≤◌, ◌≡◌, ◌⊎◌, ◌↔◌, refl, true, false, none, some, List, [],
  ◌∷◌, map, arith, All, Any,
}
use strfry_namecoin_policy.Prelude.Int.{pos}
use strfry_namecoin_policy.Js.{
  Text, txt, Runtime, same, to_lower, is_hex, byte_length, split, trim, starts_with,
}
use strfry_namecoin_policy.Js.Json.{
  JsonRuntime, null, Json, num, str, arr, obj, nil, cons, end, field, prop, truthy, is_object,
  as_text, as_array, field_of, array_index,
}
use strfry_namecoin_policy.Script.{
  push_data, push_header, read_push_data, read_body, build_name_index_script, parse_name_script,
  read_value, electrum_script_hash, to_hex,
}
use strfry_namecoin_policy.History.{
  sort_entries, insert_entry, filtered, eligible, height_of, min_conf_of, NameRow, carried, walk,
  conclude, select_name_row, failed, parse_name_from_tx, parse_outputs, parse_output, from_hex,
  Server, run_resolve, current_tip, tip_of,
}
use strfry_namecoin_policy.Circuit.{
  Host, HostState, HostBreaker, healthy, opened, half_open, cool, claim, scan, pick_next,
  is_available, fail, record_failure, record_success, succeed,
}
use strfry_namecoin_policy.Circuit.Step.{IsValid, healthy-IsSound}
use strfry_namecoin_policy.Circuit.Pick.{IsBlocked}
use strfry_namecoin_policy.Client.{
  Client, Network, refused, linked, query_on_host, threw, settle, try_host, attempts, name_show,
}
use strfry_namecoin_policy.Client.Attempts.{Allows, Loops, name_show-Loops}
use strfry_namecoin_policy.Client.Pool
use strfry_namecoin_policy.Client.Pool.{
  Event, opens, calls, times_out, chunk, killed, resolved, rejected, fresh, call, kill, on_line,
  on_lines, take_lines, on_data, on_event, on_events,
}
use strfry_namecoin_policy.Client.Pool.Once.{IsSettled, on_events-IsSettled}
use strfry_namecoin_policy.Client.Pins.{
  Base64, Pin, spki, is_spki, only_hex, parse_pin, parse_parts, parse_cert_pins, Certificate,
  passed, verify_cert_pins,
}
use strfry_namecoin_policy.Client.Pins.Match.{IsPin, Matches, parse_cert_pins-verify}
use strfry_namecoin_policy.Client.Stuck.{here, pick, definitive-IsBlocked}

program : Unit {0}
unfolding push_data push_header read_push_data read_body build_name_index_script read_value
    parse_name_script same to_lower is_hex prop field_of array_index truthy is_object as_text
    as_array from_hex parse_output parse_outputs parse_name_from_tx height_of eligible filtered
    insert_entry sort_entries min_conf_of carried walk conclude select_name_row tip_of current_tip
    run_resolve electrum_script_hash to_hex byte_length pick_next scan cool is_available claim fail
    record_failure record_success succeed query_on_host settle try_host attempts name_show
program = tt

abbrev plain : Runtime
plain = record {
  lower_wide = λ c. c ∷ [];
  other_number = λ s. none;
  decode_utf8 = λ bs. bs;
  sha256 = λ bs. bs;
}

abbrev local_host : Host
local_host = record { host = b'l' ∷ []; port = 50_002; tls = true }

abbrev output : Text → Json
output hex = obj (field (txt "scriptPubKey") (obj (field (txt "hex") (str hex) end)) end)

-- A transaction with an update of the name "d/a" to the value "v".
abbrev update_tx : Json
update_tx = obj (
    field (txt "vout")
      (arr (cons (output (txt "76a9")) (cons (output (txt "5303642f61017675")) nil))) end)

abbrev serving : ℕ → Server
serving tip = record {
  version = some (some (str (txt "1.4")));
  get_history = λ key. some (
      some (
        arr (
          cons
            (obj
              (field (txt "tx_hash") (str (txt "t2")) (field (txt "height") (num (pos 200)) end)))
            nil)));
  headers = some (some (obj (field (txt "height") (num (pos tip)) end)));
  get_tx = λ tx_hash. some (some update_tx);
}

-- The first attempt finds no connection, the later ones do.
abbrev net : Network
net = record {
  link =
      λ attempt host. elim (attempt == 0) [ true ↦ refused | false ↦ linked (serving 300) false ];
  picked_at = λ attempt. 1000;
  asked_at = λ attempt. 2000;
  failed_at = λ attempt. 3000;
}

abbrev client : Client
client = record {
  breaker = record {
    hosts = local_host ∷ record local_host { port = 50_001 } ∷ [];
    state = healthy ∷ healthy ∷ [];
    cursor = 0;
  };
  retries = pos 2;
  min_confirmations = 1;
  tip = record { cached_tip = none; cached_tip_at = 0 };
}

abbrev shown : NameRow
shown = record {
  name = txt "d/a";
  value = txt "v";
  txid = txt "t2";
  height = 200;
  expires_in = some (pos 35_900);
  tip = some (pos 300);
}

client-IsValid : IsValid client.breaker
client-IsValid = record {
  some_host = omega arith;
  paired = refl;
  in_range = omega arith;
  sound = (healthy-IsSound, (healthy-IsSound, tt));
}

name_show-Loops_example :
    ((byte_length (txt "d/a") < 1) ⊎ (255 < byte_length (txt "d/a"))
      → name_show plain net (txt "d/a") client ≡ (client, threw true))
    × (0 < byte_length (txt "d/a")
        → byte_length (txt "d/a") ≤ 255
        → (n : ℕ) × Allows (pos 2) n
          × Loops plain net (txt "d/a") n 0 client (name_show plain net (txt "d/a") client))
name_show-Loops_example = name_show-Loops plain net (txt "d/a") client

-- The first host's cooldown is over, and every server is so far ahead that the name is expired.
abbrev late_net : Network
late_net = record net {
  link = λ attempt host. linked (serving 36_200) false;
  picked_at = λ attempt. 40_000;
}

abbrev down : HostState
down = record healthy { phase = opened; opened_at = 1000; failures = 1 }

abbrev probing : Client
probing = record client { breaker = record client.breaker { state = down ∷ healthy ∷ [] } }

abbrev stuck : HostBreaker
stuck = (attempts plain late_net (txt "d/a") 3 0 probing).0.breaker

read_probing :
    ((pick_next 40_000 probing.breaker).1.all_open ≡ false)
    × ((pick_next 40_000 probing.breaker).1.index ≡ 0)
    × ((try_host plain late_net (txt "d/a") 0 probing).1.1 ≡ failed true)
unfolding program
read_probing = (refl, refl, refl)

definitive-IsBlocked_example :
    IsBlocked
      (map (cool 90_000_000) (pick_next 80_000_000 stuck).0.state)
      (pick_next 40_000 probing.breaker).1.index
unfolding program
definitive-IsBlocked_example =
    definitive-IsBlocked plain late_net (txt "d/a") 2 0 probing
      {s = record down { phase = half_open }} {b = (pick_next 80_000_000 stuck).0} read_probing.0
      refl refl read_probing.2 (pick 80_000_000 here) 90_000_000

-- An encoding of 32 bytes by themselves, in place of base64.
abbrev base64 : Base64
base64 = record { decode = λ s. s; encode = λ bytes. bytes }

abbrev pinned : Text
pinned = txt "0123456789ABCDEF0123456789ABCDEF"

abbrev certificate : Certificate
certificate = record { raw = []; pubkey = some pinned }

abbrev pins : List Pin
pins = spki pinned ∷ []

read_pins :
    parse_cert_pins plain base64 (txt "SHA256/ 0123456789ABCDEF0123456789ABCDEF,,") ≡ some pins
unfolding program parse_cert_pins parse_parts parse_pin is_spki only_hex split trim starts_with
read_pins = refl

parse_cert_pins-verify_example :
    All (IsPin base64) pins
    × ((verify_cert_pins plain base64 (some certificate) pins ≡ passed) ↔ (
        (pins ≡ [])
        ⊎ ((cert : Certificate) × (some certificate ≡ some cert)
            × Any (Matches plain base64 cert) pins)))
parse_cert_pins-verify_example =
    parse_cert_pins-verify plain base64 (txt "SHA256/ 0123456789ABCDEF0123456789ABCDEF,,")
      (some certificate) {pins = pins} read_pins

-- Every line is read as the reply to the first call, except the line "null".
abbrev replies : JsonRuntime
replies = record {
  parse = λ line.
      if same line (txt "null")
      then some null
      else some (obj (field (txt "id") (num (pos 1)) (field (txt "result") (str line) end)));
  stringify = λ v. [];
}

abbrev events : List Event
events =
    opens
    ∷ calls true
    ∷ calls true
    ∷ chunk (txt "ok")
    ∷ chunk (10 ∷ txt "again")
    ∷ killed
    ∷ times_out 2
    ∷ calls true
    ∷ []

-- The first call is answered once, the second rejected when the connection ends; a line "null"
-- throws.
pool_runs :
    ((on_events replies events fresh).settled
      ≡ (1, resolved (some (str (txt "ok")))) ∷ (2, rejected) ∷ [])
    × ((on_event replies (chunk (txt "null" ++ 10 ∷ [])) fresh).crashed ≡ true)
unfolding program Pool.settle call kill on_line on_lines take_lines on_data on_event trim
pool_runs = (refl, refl)

on_events-IsSettled_example : IsSettled (on_events replies events fresh)
on_events-IsSettled_example = on_events-IsSettled replies events
