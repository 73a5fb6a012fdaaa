-- ===== src/Script.antt =====
-- src/electrumx.js: name scripts as lists of bytes: push data, the name index script, and the
-- parser of NAME_UPDATE and NAME_FIRSTUPDATE outputs.
pub mod Push
pub mod Name
use mathlib.Core.List.{reverse}
use strfry_namecoin_policy.Prelude.{
  ℕ, zero, suc, ◌+◌, ◌-◌, ◌*◌, ◌/◌, ◌%◌, Bool, true, false, not, ◌&&◌, ◌||◌, Option, none, some,
  List, [], ◌∷◌, ◌++◌, map, length, get_elem?, take, drop, ltb, leb, ◌==◌, if◌then◌else◌,
}
use strfry_namecoin_policy.Js.{Text, Runtime, same}

abbrev pub op_0 : ℕ
op_0 = 0x00

abbrev pub op_pushdata1 : ℕ
op_pushdata1 = 0x4c

abbrev pub op_pushdata2 : ℕ
op_pushdata2 = 0x4d

abbrev pub op_pushdata4 : ℕ
op_pushdata4 = 0x4e

abbrev pub op_return : ℕ
op_return = 0x6a

abbrev pub op_2drop : ℕ
op_2drop = 0x6d

abbrev pub op_drop : ℕ
op_drop = 0x75

abbrev pub op_name_update : ℕ
op_name_update = 0x53

abbrev pub op_name_firstupdate : ℕ
op_name_firstupdate = 0x52

abbrev pub name_firstupdate_rand_len : ℕ
name_firstupdate_rand_len = 20

abbrev pub Bytes : Type 0
Bytes = List ℕ

-- The opcode and the length in front of the data. Node's buffers are shorter than 2^32 bytes; of
-- a longer one `writeUInt32LE` would refuse the length.
unfoldable pub push_header : ℕ → Bytes
push_header len =
    if ltb len op_pushdata1
    then len ∷ []
    else if leb len 0xff
    then op_pushdata1 ∷ len ∷ []
    else if leb len 0xffff
    then op_pushdata2 ∷ (len % 256) ∷ (len / 256) ∷ []
    else op_pushdata4
      ∷ (len % 256)
      ∷ (len / 256 % 256)
      ∷ (len / 65536 % 256)
      ∷ (len / 16777216)
      ∷ []

unfoldable pub push_data : Bytes → Bytes
push_data bytes = push_header (length bytes) ++ bytes

unfoldable pub build_name_index_script : Bytes → Bytes
unfolding push_data
build_name_index_script name_bytes =
    op_name_update
    ∷ (push_data name_bytes ++ (push_data [] ++ (op_2drop ∷ op_drop ∷ op_return ∷ [])))

abbrev hex_digit : ℕ → ℕ
hex_digit n = if ltb n 10 then b'0' + n else b'a' + (n - 10)

-- `toString('hex')`
unfoldable pub to_hex : Bytes → Text
to_hex [] = []
to_hex (b ∷ bs) = hex_digit (b / 16) ∷ hex_digit (b % 16) ∷ to_hex bs

unfoldable pub electrum_script_hash : Runtime → Bytes → Text
unfolding to_hex
electrum_script_hash rt script = to_hex (reverse (rt.sha256 script))

-- `script[i]`, where the code has tested that `i` is in range.
abbrev pub byte_at : Bytes → ℕ → ℕ
byte_at [] i = 0
byte_at (b ∷ bs) zero = b
byte_at (b ∷ bs) (suc i) = byte_at bs i

abbrev pub slice : Bytes → ℕ → ℕ → Bytes
slice bs from to = take (to - from) (drop from bs)

pub record PushData : Type 0 where
  pub bytes : Bytes
  pub next : ℕ

-- The data of `len` bytes that begin at `from`, if the script is long enough.
unfoldable pub read_body : Bytes → ℕ → ℕ → Option PushData
read_body script from len =
    if ltb (length script) (from + len)
    then none
    else some (record { bytes = slice script from (from + len); next = from + len })

unfoldable pub read_push_data : Bytes → ℕ → Option PushData
read_push_data script pos =
    let op = byte_at script pos in
    if leb (length script) pos
    then none
    else if op == op_0
    then some (record { bytes = []; next = pos + 1 })
    else if ltb op op_pushdata1
    then read_body script (pos + 1) op
    else if op == op_pushdata1
    then (if ltb (length script) (pos + 2)
        then none
        else read_body script (pos + 2) (byte_at script (pos + 1)))
    else if op == op_pushdata2
    then (if ltb (length script) (pos + 3)
        then none
        else read_body script (pos + 3) (byte_at script (pos + 1) + 256 * byte_at script (pos + 2)))
    else if op == op_pushdata4
    then (if ltb (length script) (pos + 5)
        then none
        else read_body script (pos + 5) (
            byte_at script (pos + 1)
            + 256 * byte_at script (pos + 2)
            + 65536 * byte_at script (pos + 3)
            + 16777216 * byte_at script (pos + 4)))
    else none

pub record NameScript : Type 0 where
  pub op : ℕ
  pub name : Text
  pub value : Text

-- `toString('ascii')`: Node drops the high bit of each byte.
abbrev pub to_ascii : Bytes → Text
to_ascii bs = map (λ b. b % 128) bs

infixl 5 ◌>>=◌
abbrev pub ◌>>=◌ : {A B : Type 0} → Option A → (A → Option B) → Option B
none >>= f = none
some a >>= f = f a

-- The bytes of the value, which stand behind the name and, in a NAME_FIRSTUPDATE with a `rand` of
-- the right length, behind that.
unfoldable pub read_value : Bytes → ℕ → PushData → Option PushData
unfolding read_push_data
read_value script op first =
    if op == op_name_firstupdate
    then elim (read_push_data script first.next) [
      | none ↦ read_push_data script first.next
      | some rand ↦
          if length rand.bytes == name_firstupdate_rand_len
          then read_push_data script rand.next
          else read_push_data script first.next
    ]
    else read_push_data script first.next

unfoldable pub parse_name_script : Runtime → Bytes → Option NameScript
unfolding read_value
parse_name_script rt script =
    let op = byte_at script 0 in
    if ltb (length script) 4
    then none
    else if not (op == op_name_update) && not (op == op_name_firstupdate)
    then none
    else (do
      first ← read_push_data script 1
      v ← read_value script op first
      some (record { op = op; name = to_ascii first.bytes; value = rt.decode_utf8 v.bytes }))
