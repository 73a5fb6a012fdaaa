-- ===== src/Socks5/Tests.antt =====
-- src/socks5.js: runs of the handshake, and its theorems at concrete bytes.
use strfry_namecoin_policy.Prelude.{◌≡◌, refl, some, List, [], ◌∷◌, ◌++◌, map, arith, All}
use strfry_namecoin_policy.Js.{txt}
use strfry_namecoin_policy.Script.{Bytes}
use strfry_namecoin_policy.Socks5.{
  connected, chunk, fails, rejected, resolved, crashed, connect_failed, timed_out, hello,
  connect_request, greeted, enough, read_reply, replied, on_event, on_events, fresh, host_bytes,
  ascii_bytes,
}
use strfry_namecoin_policy.Socks5.Request.{read_request, IsByte, host_bytes-request}
use strfry_namecoin_policy.Socks5.Handshake.{domain}
use strfry_namecoin_policy.Socks5.Chunks.{joined, IsTunnel, on_events-IsTunnel}

program : Unit {0}
unfolding connect_request greeted enough read_reply replied on_event host_bytes
program = tt

abbrev onion : Bytes
onion = txt "x.onion"

-- A tunnel in three chunks, a refusal, one that comes too late, and a port that needs three bytes.
runs :
    ((on_events onion 50_002
        (connected
          ∷ chunk (5 ∷ 0 ∷ [])
          ∷ chunk (5 ∷ 0 ∷ 0 ∷ 1 ∷ 0 ∷ [])
          ∷ chunk (0 ∷ 0 ∷ 0 ∷ 0 ∷ 0 ∷ 7 ∷ 8 ∷ [])
          ∷ [])
        fresh).settled
      ≡ some (resolved (7 ∷ 8 ∷ [])))
    × ((on_events onion 50_002
          (chunk (5 ∷ 0 ∷ []) ∷ chunk (5 ∷ 4 ∷ 0 ∷ 1 ∷ []) ∷ fails timed_out ∷ [])
          fresh).settled
        ≡ some (rejected (connect_failed 4)))
    × ((on_events onion 50_002 (fails timed_out ∷ chunk (5 ∷ 0 ∷ []) ∷ []) fresh).settled
        ≡ some (rejected timed_out))
    × ((on_events onion 70_000 (chunk (5 ∷ 0 ∷ []) ∷ []) fresh).settled ≡ some crashed)
unfolding program
runs = (refl, refl, refl, refl)

host_bytes-request_example :
    (read_request (connect_request onion 50_002) ≡ some (ascii_bytes (txt "x.onion"), 50_002))
    × All IsByte (connect_request onion 50_002)
unfolding program
host_bytes-request_example =
    host_bytes-request (txt "127.0.0.1") (txt "x.onion") 50_002 {bytes = onion} refl (omega arith)

on_events-IsTunnel_example :
    (before after : List Bytes) × ((5 ∷ 0 ∷ 0 ∷ [])
        ∷ (3 ∷ 1 ∷ [])
        ∷ (9 ∷ 0 ∷ 80 ∷ 7 ∷ [])
        ∷ (8 ∷ [])
        ∷ []
      ≡ before ++ after)
    × (leftover : Bytes) × (leftover ++ joined after ≡ 7 ∷ 8 ∷ [])
    × IsTunnel onion 50_002 leftover (hello ∷ connect_request onion 50_002 ∷ []) (
        on_events onion 50_002
          (connected ∷ map chunk ((5 ∷ []) ∷ (0 ∷ []) ∷ []) ++ map chunk before)
          fresh)
on_events-IsTunnel_example =
    on_events-IsTunnel onion 50_002 0 (domain (9 ∷ [])) (0 ∷ 80 ∷ []) (7 ∷ 8 ∷ [])
      ((5 ∷ []) ∷ (0 ∷ []) ∷ [])
      ((5 ∷ 0 ∷ 0 ∷ []) ∷ (3 ∷ 1 ∷ []) ∷ (9 ∷ 0 ∷ 80 ∷ 7 ∷ []) ∷ (8 ∷ []) ∷ []) (omega arith)
      (omega arith) refl refl refl
