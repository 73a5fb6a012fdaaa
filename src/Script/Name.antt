-- ===== src/Script/Name.antt =====
-- src/electrumx.js: what `parseNameScript` finds in the scripts of NAME_UPDATE and
-- NAME_FIRSTUPDATE outputs, written by `pushData`.
use mathlib.Core.List.{append_assoc}
use mathlib.Core.Path.{subst₂}
use strfry_namecoin_policy.Prelude.{
  ℕ, suc, ◌+◌, ◌^◌, ◌<◌, ◌≤◌, ◌≡◌, ◌≢◌, ap, ◌∙◌, sym, some, [], ◌∷◌, ◌++◌, length, arith,
  length-append,
}
use strfry_namecoin_policy.Js.{Runtime}
use strfry_namecoin_policy.Script.{
  Bytes, push_data, read_push_data, parse_name_script, read_value, to_ascii, op_name_update,
  op_name_firstupdate, name_firstupdate_rand_len, build_name_index_script, op_2drop, op_drop,
  op_return,
}
use strfry_namecoin_policy.Script.Push.{
  read_push_data-push_data, length-push_data, header_pos, push_data-injective,
}

-- The output scripts, with the rest of the script, `tail`, behind the pushes.
abbrev pub update_script : ℕ → Bytes → Bytes → Bytes → Bytes
update_script op name value tail = op ∷ (push_data name ++ (push_data value ++ tail))

abbrev pub firstupdate_script : Bytes → Bytes → Bytes → Bytes → Bytes
firstupdate_script name rand value tail =
    op_name_firstupdate ∷ (push_data name ++ (push_data rand ++ (push_data value ++ tail)))

abbrev pub IsShort : Bytes → Type 0
IsShort bytes = length bytes < 2 ^ 32

module _ (op : ℕ) (name : Bytes) (short : IsShort name) where
  read_name :
      (rest : Bytes)
      → read_push_data (op ∷ (push_data name ++ rest)) 1
        ≡ some (record { bytes = name; next = 1 + length (push_data name) })
  read_name rest = read_push_data-push_data (op ∷ []) name rest short

  -- A push that stands behind others.
  read_behind :
      (before bytes rest : Bytes)
      → IsShort bytes
      → read_push_data (op ∷ (before ++ (push_data bytes ++ rest))) (1 + length before)
        ≡ some (record { bytes = bytes; next = 1 + length before + length (push_data bytes) })
  read_behind before bytes rest small =
      ap (read_push_data (op ∷ (before ++ (push_data bytes ++ rest)))) (one_plus (length before))
      ∙ read_push_data-push_data (op ∷ before) bytes rest small
      ∙ ap (λ n. some (record { bytes = bytes; next = n + length (push_data bytes) }))
          (sym (one_plus (length before)))
    where
      one_plus : (n : ℕ) → 1 + n ≡ suc n
      one_plus n = omega arith

  read_third :
      (rand bytes rest : Bytes)
      → IsShort bytes
      → read_push_data
          (op ∷ (push_data name ++ (push_data rand ++ (push_data bytes ++ rest))))
          (1 + length (push_data name) + length (push_data rand))
        ≡ some (record {
          bytes = bytes;
          next = 1 + length (push_data name) + length (push_data rand) + length (push_data bytes);
        })
  read_third rand bytes rest small =
      subst₂
        (λ s n.
          read_push_data (op ∷ s) n
          ≡ some (record { bytes = bytes; next = n + length (push_data bytes) }))
        (append_assoc (push_data name) (push_data rand) (push_data bytes ++ rest))
        (length_both (push_data name) (push_data rand))
        (read_behind (push_data name ++ push_data rand) bytes rest small)
    where
      length_both : (a b : Bytes) → 1 + length (a ++ b) ≡ 1 + length a + length b
      length_both a b = omega (arith, length-append a b)

module _ (rt : Runtime) (name value tail : Bytes) (name_short : IsShort name)
    (value_short : IsShort value) where
  abbrev pub Parsed : ℕ → Bytes → Type 0
  Parsed op script =
      parse_name_script rt script
      ≡ some (record { op = op; name = to_ascii name; value = rt.decode_utf8 value })

  -- The script of a NAME_UPDATE output of at least four bytes parses to its name, read as seven-bit
  -- ASCII, and its value; name and value have less than 2^32 bytes.
  pub parse-update_script :
      4 ≤ length (update_script op_name_update name value tail)
      → Parsed op_name_update (update_script op_name_update name value tail)
  unfolding parse_name_script read_value
  parse-update_script long = ground (
    arith,
    read_name op_name_update name name_short (push_data value ++ tail),
    read_behind op_name_update name name_short (push_data name) value tail value_short,
  )

  -- The script of a NAME_FIRSTUPDATE output, with a `rand` of 20 bytes that is skipped, parses
  -- to its name, read as seven-bit ASCII, and its value; name and value have less than 2^32
  -- bytes.
  pub parse-firstupdate_script :
      (rand : Bytes)
      → length rand ≡ name_firstupdate_rand_len
      → Parsed op_name_firstupdate (firstupdate_script name rand value tail)
  unfolding parse_name_script read_value
  parse-firstupdate_script rand twenty = ground (
    arith,
    long,
    read_name op_name_firstupdate name name_short (push_data rand ++ (push_data value ++ tail)),
    read_behind op_name_firstupdate name name_short (push_data name) rand (push_data value ++ tail)
        (omega arith),
    read_third op_name_firstupdate name name_short rand value tail value_short,
  )
    where
      long : 4 ≤ length (firstupdate_script name rand value tail)
      long = omega (
        arith,
        length-append (push_data name) (push_data rand ++ (push_data value ++ tail)),
        length-append (push_data rand) (push_data value ++ tail),
        length-push_data rand,
      )

  -- In a NAME_FIRSTUPDATE script of at least four bytes a middle push of any other length than
  -- 20 is taken for the value; name and value have less than 2^32 bytes.
  pub parse-firstupdate_fallback :
      4 ≤ length (update_script op_name_firstupdate name value tail)
      → length value ≢ name_firstupdate_rand_len
      → Parsed op_name_firstupdate (update_script op_name_firstupdate name value tail)
  unfolding parse_name_script read_value
  parse-firstupdate_fallback long other = ground (
    arith,
    read_name op_name_firstupdate name name_short (push_data value ++ tail),
    read_behind op_name_firstupdate name name_short (push_data name) value tail value_short,
  )

-- The script whose hash names the index of a name parses to that name, with an empty value.
pub parse-build_name_index_script :
    (rt : Runtime) (name : Bytes)
    → IsShort name
    → parse_name_script rt (build_name_index_script name)
      ≡ some (record { op = op_name_update; name = to_ascii name; value = rt.decode_utf8 [] })
unfolding build_name_index_script
parse-build_name_index_script rt name short =
    parse-update_script rt name [] (op_2drop ∷ op_drop ∷ op_return ∷ []) short (omega arith) (
      omega (
        arith,
        length-append (push_data name) (push_data [] ++ (op_2drop ∷ op_drop ∷ op_return ∷ [])),
        length-append (push_data []) (op_2drop ∷ op_drop ∷ op_return ∷ []),
        length-push_data name,
        length-push_data [],
        header_pos (length name),
        header_pos 0,
      ))

-- Two names that differ in the high bits of their bytes alone are told apart by their scripts, and
-- not by what the parser makes of those.
pub parse_forgets_high_bits :
    (rt : Runtime) (a b value tail : Bytes)
    → IsShort a
    → IsShort b
    → IsShort value
    → 4 ≤ length (update_script op_name_update a value tail)
    → 4 ≤ length (update_script op_name_update b value tail)
    → a ≢ b
    → to_ascii a ≡ to_ascii b
    → (push_data a ≢ push_data b)
      × (parse_name_script rt (update_script op_name_update a value tail)
          ≡ parse_name_script rt (update_script op_name_update b value tail))
parse_forgets_high_bits rt a b value tail sa sb sv la lb differ alike = (
  λ e. differ (push_data-injective a b sa sb e),
  parse-update_script rt a value tail sa sv la
      ∙ ap (λ n. some (record { op = op_name_update; name = n; value = rt.decode_utf8 value }))
          alike
      ∙ sym (parse-update_script rt b value tail sb sv lb),
)
