-- ===== src/Script/Push.antt =====
-- src/electrumx.js: reading back what `pushData` writes, and the bounds that `readPushData` keeps.
use strfry_namecoin_policy.Prelude.{
  ℕ, suc, ◌+◌, ◌-◌, ◌*◌, ◌/◌, ◌%◌, ◌^◌, ◌<◌, ◌≤◌, ◌≡◌, refl, ap, ◌∙◌, sym, Option, some, [], ◌∷◌,
  ◌++◌, length, drop, arith, length-append, take-length-append, drop-length-append, length-take,
  length-drop, inl, inr, ◌⊎◌,
}
use mathlib.Core.List.{append_assoc}
use mathlib.Core.Path.{subst}
use mathlib.Core.Option.{some-injective}
use native.Mathlib.Decide.{dec_lt}
use native.Mathlib.Nat.{add_assoc}
use strfry_namecoin_policy.Script.{
  Bytes, push_header, push_data, byte_at, slice, PushData, read_body, read_push_data, op_pushdata1,
  op_pushdata2, op_pushdata4,
}

byte_at-append : (pre xs : Bytes) (k : ℕ) → byte_at (pre ++ xs) (length pre + k) ≡ byte_at xs k
byte_at-append [] xs k = ap (byte_at xs) (omega arith)
byte_at-append (b ∷ pre) xs k =
    ap (byte_at (b ∷ pre ++ xs)) (suc_add (length pre) k) ∙ byte_at-append pre xs k
  where
    suc_add : (n m : ℕ) → suc n + m ≡ suc (n + m)
    suc_add n m = omega arith

drop-append : (pre xs : Bytes) (k : ℕ) → drop (length pre + k) (pre ++ xs) ≡ drop k xs
drop-append [] xs k = ap (λ n. drop n xs) (omega arith)
drop-append (b ∷ pre) xs k =
    ap (λ n. drop n (b ∷ pre ++ xs)) (suc_add (length pre) k) ∙ drop-append pre xs k
  where
    suc_add : (n m : ℕ) → suc n + m ≡ suc (n + m)
    suc_add n m = omega arith

read_body-eq :
    (script bytes rest : Bytes) (from len : ℕ)
    → drop from script ≡ bytes ++ rest
    → from + length bytes ≤ length script
    → len ≡ length bytes
    → read_body script from len ≡ some (record { bytes = bytes; next = from + length bytes })
unfolding read_body
read_body-eq script bytes rest from len at fits same =
    let e : from + len - from ≡ length bytes = omega arith in
    let found : slice script from (from + len) ≡ bytes =
      rw (e, at) (take-length-append bytes rest) in
    ground arith

-- Four bytes, least first.
le_bytes :
    (n : ℕ)
    → n < 2 ^ 32
    → n % 256 + 256 * (n / 256 % 256) + 65536 * (n / 65536 % 256) + 16777216 * (n / 16777216) ≡ n
le_bytes n h = omega arith

header_0 : (n : ℕ) → n < op_pushdata1 → push_header n ≡ n ∷ []
unfolding push_header
header_0 n h = ground arith

header_1 : (n : ℕ) → op_pushdata1 ≤ n → n ≤ 0xff → push_header n ≡ op_pushdata1 ∷ n ∷ []
unfolding push_header
header_1 n h k = ground arith

header_2 :
    (n : ℕ) → 0xff < n → n ≤ 0xffff → push_header n ≡ op_pushdata2 ∷ (n % 256) ∷ (n / 256) ∷ []
unfolding push_header
header_2 n h k = ground arith

header_4 :
    (n : ℕ)
    → 0xffff < n
    → push_header n
      ≡ op_pushdata4 ∷ (n % 256) ∷ (n / 256 % 256) ∷ (n / 65536 % 256) ∷ (n / 16777216) ∷ []
unfolding push_header
header_4 n h = ground arith

push_data_split :
    (bytes rest : Bytes) → push_data bytes ++ rest ≡ push_header (length bytes) ++ (bytes ++ rest)
unfolding push_data
push_data_split bytes rest = append_assoc (push_header (length bytes)) bytes rest

pub length-push_data :
    (bytes : Bytes) → length (push_header (length bytes)) + length bytes ≡ length (push_data bytes)
unfolding push_data
length-push_data bytes = sym (length-append (push_header (length bytes)) bytes)

List-cases : (bs : Bytes) → (bs ≡ []) ⊎ (0 < length bs)
List-cases [] = inl refl
List-cases (b ∷ bs) = inr (omega arith)

module _ (pre bytes rest : Bytes) where
  abbrev around : Bytes → Bytes
  around hdr = pre ++ (hdr ++ (bytes ++ rest))

  abbrev read_back : ℕ → Option PushData
  read_back n = some (record { bytes = bytes; next = length pre + n + length bytes })

  body_at :
      (hdr : Bytes) (n : ℕ)
      → length hdr ≡ n
      → read_body (around hdr) (length pre + n) (length bytes) ≡ read_back n
  body_at hdr n e =
      read_body-eq (around hdr) bytes rest (length pre + n) (length bytes)
        (drop-append pre (hdr ++ (bytes ++ rest)) n
          ∙ ap (λ m. drop m (hdr ++ (bytes ++ rest))) (sym e)
          ∙ drop-length-append hdr (bytes ++ rest))
        (omega (
          arith,
          length-append pre (hdr ++ (bytes ++ rest)),
          length-append hdr (bytes ++ rest),
          length-append bytes rest,
        ))
        refl

  long_enough : (hdr : Bytes) → length pre + length hdr + length bytes ≤ length (around hdr)
  long_enough hdr = omega (
    arith,
    length-append pre (hdr ++ (bytes ++ rest)),
    length-append hdr (bytes ++ rest),
    length-append bytes rest,
  )

  opcode : (op : ℕ) (hdr : Bytes) → byte_at (around (op ∷ hdr)) (length pre) ≡ op
  opcode op hdr =
      ap (byte_at (around (op ∷ hdr))) (sym (plus_zero (length pre)))
      ∙ byte_at-append pre (op ∷ (hdr ++ (bytes ++ rest))) 0
    where
      plus_zero : (n : ℕ) → n + 0 ≡ n
      plus_zero n = omega arith

  read_empty : bytes ≡ [] → read_push_data (around (0 ∷ [])) (length pre) ≡ read_back 1
  unfolding read_push_data
  read_empty e = ground (arith, opcode 0 [], long_enough (0 ∷ []), ap length e)

  read_short :
      0 < length bytes
      → length bytes < op_pushdata1
      → read_push_data (around (length bytes ∷ [])) (length pre) ≡ read_back 1
  unfolding read_push_data
  read_short lo hi = ground (
    arith,
    opcode (length bytes) [],
    long_enough (length bytes ∷ []),
    body_at (length bytes ∷ []) 1 refl,
  )

  read_1 : read_push_data (around (op_pushdata1 ∷ length bytes ∷ [])) (length pre) ≡ read_back 2
  unfolding read_push_data
  read_1 = ground (
    arith,
    opcode op_pushdata1 (length bytes ∷ []),
    long_enough (op_pushdata1 ∷ length bytes ∷ []),
    byte_at-append pre (op_pushdata1 ∷ length bytes ∷ (bytes ++ rest)) 1,
    body_at (op_pushdata1 ∷ length bytes ∷ []) 2 refl,
  )

  read_2 :
      (a b : ℕ)
      → a + 256 * b ≡ length bytes
      → read_push_data (around (op_pushdata2 ∷ a ∷ b ∷ [])) (length pre) ≡ read_back 3
  unfolding read_push_data
  read_2 a b e =
      let tail = op_pushdata2 ∷ a ∷ b ∷ (bytes ++ rest) in
      ground (
        arith,
        opcode op_pushdata2 (a ∷ b ∷ []),
        long_enough (op_pushdata2 ∷ a ∷ b ∷ []),
        byte_at-append pre tail 1,
        byte_at-append pre tail 2,
        ap (read_body (around (op_pushdata2 ∷ a ∷ b ∷ [])) (length pre + 3)) e,
        body_at (op_pushdata2 ∷ a ∷ b ∷ []) 3 refl,
      )

  read_4 :
      (a b c d : ℕ)
      → a + 256 * b + 65536 * c + 16777216 * d ≡ length bytes
      → read_push_data (around (op_pushdata4 ∷ a ∷ b ∷ c ∷ d ∷ [])) (length pre) ≡ read_back 5
  unfolding read_push_data
  read_4 a b c d e =
      let tail = op_pushdata4 ∷ a ∷ b ∷ c ∷ d ∷ (bytes ++ rest) in
      ground (
        arith,
        opcode op_pushdata4 (a ∷ b ∷ c ∷ d ∷ []),
        long_enough (op_pushdata4 ∷ a ∷ b ∷ c ∷ d ∷ []),
        byte_at-append pre tail 1,
        byte_at-append pre tail 2,
        byte_at-append pre tail 3,
        byte_at-append pre tail 4,
        ap (read_body (around (op_pushdata4 ∷ a ∷ b ∷ c ∷ d ∷ [])) (length pre + 5)) e,
        body_at (op_pushdata4 ∷ a ∷ b ∷ c ∷ d ∷ []) 5 refl,
      )

  with_header :
      length bytes < 2 ^ 32
      → read_push_data (around (push_header (length bytes))) (length pre)
        ≡ read_back (length (push_header (length bytes)))
  with_header h = elim (dec_lt 0xffff (length bytes)) [
    | yes p ↦ rw (header_4 (length bytes) p) (read_4 _ _ _ _ (le_bytes (length bytes) h))
    | no np ↦ elim (dec_lt 0xff (length bytes)) [
      | yes p ↦ rw (header_2 (length bytes) p (omega arith)) (read_2 _ _ (omega arith))
      | no nq ↦ elim (dec_lt (length bytes) op_pushdata1) [
        | no nr ↦ rw (header_1 (length bytes) (omega arith) (omega arith)) read_1
        | yes r ↦ rw (header_0 (length bytes) r) (short r)
      ]
    ]
  ]
    where
      short :
          length bytes < op_pushdata1
          → read_push_data (around (length bytes ∷ [])) (length pre) ≡ read_back 1
      short r = elim (List-cases bytes) [
        | inl e ↦
            subst (λ n. read_push_data (around (n ∷ [])) (length pre) ≡ read_back 1)
              (sym (ap length e)) (read_empty e)
        | inr lo ↦ read_short lo r
      ]

-- What `pushData` writes is read back from where it stands, whatever stands around it, and the
-- reader then stands right behind it. The data has less than 2^32 bytes.
pub read_push_data-push_data :
    (pre bytes rest : Bytes)
    → length bytes < 2 ^ 32
    → read_push_data (pre ++ (push_data bytes ++ rest)) (length pre)
      ≡ some (record { bytes = bytes; next = length pre + length (push_data bytes) })
read_push_data-push_data pre bytes rest h =
    let hdr = push_header (length bytes) in
    ap (λ s. read_push_data (pre ++ s) (length pre)) (push_data_split bytes rest)
    ∙ with_header pre bytes rest h
    ∙ ap (λ n. some (record { bytes = bytes; next = n }))
        (add_assoc (length pre) (length hdr) (length bytes)
          ∙ ap (length pre +◌) (length-push_data bytes))

read_body_bounds :
    (script : Bytes) (from len : ℕ) {p : PushData}
    → read_body script from len ≡ some p
    → (p.next ≡ from + len) × (from + len ≤ length script) × (length p.bytes ≡ len)
unfolding read_body
read_body_bounds script from len e =
    ground (arith, length-take (from + len - from) (drop from script), length-drop from script)

-- A successful read moves forward and stays within the script, and what it gives is no longer than
-- what it moved over.
pub read_push_data_bounds :
    (script : Bytes) (pos : ℕ) {p : PushData}
    → read_push_data script pos ≡ some p
    → (pos < p.next) × (p.next ≤ length script) × (pos + length p.bytes < p.next)
unfolding read_push_data
read_push_data_bounds script pos {p} e = ground (
  arith,
  read_body_bounds script (pos + 1) (byte_at script pos) {p = p},
  read_body_bounds script (pos + 2) (byte_at script (pos + 1)) {p = p},
  read_body_bounds script (pos + 3) (byte_at script (pos + 1) + 256 * byte_at script (pos + 2))
      {p = p},
  read_body_bounds script (pos + 5)
      (byte_at script (pos + 1)
        + 256 * byte_at script (pos + 2)
        + 65536 * byte_at script (pos + 3)
        + 16777216 * byte_at script (pos + 4))
      {p = p},
)

-- Two pieces of data that are written alike are the same.
pub push_data-injective :
    (a b : Bytes) → length a < 2 ^ 32 → length b < 2 ^ 32 → push_data a ≡ push_data b → a ≡ b
push_data-injective a b sa sb e =
    let read = λ (s : Bytes). read_push_data ([] ++ (s ++ [])) 0 in
    ap (λ p. p.bytes)
      (some-injective _ _ (
        sym (read_push_data-push_data [] a [] sa)
        ∙ ap read e
        ∙ read_push_data-push_data [] b [] sb))

pub header_pos : (n : ℕ) → 0 < length (push_header n)
unfolding push_header
header_pos n = ground arith
