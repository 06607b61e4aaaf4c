-- ===== src/Metadata/MessagePack.antt =====
-- `MessagePackReader` of light-rocr/loader/metadata_reader.cpp on the bytes of a descriptor, which start at
-- the file offset `base`. The cursor is an argument and a result; it never passes the end of the bytes.
-- A signed integer is the bit pattern of the `int64_t`. Offsets do not wrap: the descriptor lies in the file.

pub mod Reads
pub mod Values
use light_rocm_runtime.Prelude.{
  ℕ, zero, suc, ◌+◌, ◌-◌, ◌*◌, ◌/◌, ◌%◌, ◌^◌, Bool, true, false, not, ◌&&◌, ◌||◌, Option, none,
  some, List, [], ◌∷◌, length, take, drop, bit_and, bit_or, ltb, leb, ◌==◌, ◌!=◌, if◌then◌else◌,
}
use light_rocm_runtime.Word.{u64_limit, u64_max}
use light_rocm_runtime.Loader.{
  Outcome, done, failed, fault, ◌>>=◌, reject_if, invalid_metadata, unsupported_metadata_encoding,
}
use light_rocm_runtime.Loader.Bytes.{byte_at}

-- Every value has its file offset.
mutual
  pub data Value : Type 0 where
    nil : ℕ → Value
    boolean : ℕ → Bool → Value
    unsigned : ℕ → ℕ → Value
    signed : ℕ → ℕ → Value
    text : ℕ → List ℕ → Value
    array : ℕ → Items → Value
    map_of : ℕ → Fields → Value

  pub data Items : Type 0 where
    no_items : Items
    item : Value → Items → Items

  pub data Fields : Type 0 where
    no_fields : Fields
    field : List ℕ → Value → Fields → Fields

abbrev pub offset_of : Value → ℕ
offset_of (nil offset) = offset
offset_of (boolean offset b) = offset
offset_of (unsigned offset n) = offset
offset_of (signed offset n) = offset
offset_of (text offset t) = offset
offset_of (array offset xs) = offset
offset_of (map_of offset fs) = offset

-- A result, with the cursor behind it.
pub record Parsed (A : Type 0) : Type 0 where
  pub result : A
  pub cursor : ℕ

unfoldable pub bytes_equal : List ℕ → List ℕ → Bool
bytes_equal [] [] = true
bytes_equal [] (y ∷ ys) = false
bytes_equal (x ∷ xs) [] = false
bytes_equal (x ∷ xs) (y ∷ ys) = x == y && bytes_equal xs ys

-- The set of the keys of a map.
unfoldable pub has_key : List ℕ → List (List ℕ) → Bool
unfolding bytes_equal
has_key key [] = false
has_key key (k ∷ ks) = bytes_equal key k || has_key key ks

module _ (bytes : List ℕ) (base : ℕ) where
  -- `fail` with the code `InvalidMetadata`, at an offset in the bytes.
  abbrev fail {ℓ} : {A : Type ℓ} → ℕ → Outcome A
  fail relative = failed (record { code = invalid_metadata; offset = base + relative })

  -- `take`, or the error of bytes that are not there; the result is where they start.
  pub take_bytes : ℕ → ℕ → ℕ → Outcome (Parsed ℕ)
  take_bytes count marker_offset cursor =
      if ltb (length bytes - cursor) count
      then fail marker_offset
      else done (record { result = cursor; cursor = cursor + count })

  -- The loop `result = (result << 8) | start[index]`.
  pub big_endian_loop : ℕ → ℕ → ℕ → Outcome ℕ
  unfolding byte_at
  big_endian_loop zero start result = done result
  big_endian_loop (suc count) start result = byte_at bytes start >>= λ b.
      big_endian_loop count (start + 1) (bit_or (result * 2 ^ 8 % u64_limit) b)

  -- `read_big_endian`, and `read_length`, whose value is always in a `size_t`.
  pub read_big_endian : ℕ → ℕ → ℕ → Outcome (Parsed ℕ)
  unfolding take_bytes big_endian_loop
  read_big_endian count marker_offset cursor = take_bytes count marker_offset cursor >>= λ taken.
      big_endian_loop count taken.result 0 >>= λ value.
      done (record { result = value; cursor = taken.cursor })

  pub parse_string : ℕ → ℕ → ℕ → Outcome (Parsed Value)
  unfolding take_bytes
  parse_string count marker_offset cursor = take_bytes count marker_offset cursor >>= λ taken.
      if ltb (length bytes) (taken.result + count)
      then fault
      else done (record {
        result = text (base + marker_offset) (take count (drop taken.result bytes));
        cursor = taken.cursor;
      })

  -- The sign of an integer of `width` bytes is extended to 64 bits.
  sign_extended : ℕ → ℕ → ℕ
  sign_extended width bits =
      if ltb width 8 && bit_and bits (2 ^ (width * 8 - 1)) != 0
      then bit_or bits (u64_max * 2 ^ (width * 8) % u64_limit)
      else bits

  module _ (parse : ℕ → Outcome (Parsed Value)) where
    -- The elements of an array.
    pub parse_items : ℕ → ℕ → Outcome (Parsed Items)
    parse_items zero cursor = done (record { result = no_items; cursor = cursor })
    parse_items (suc count) cursor = parse cursor >>= λ first.
        parse_items count first.cursor >>= λ rest.
        done (record { result = item first.result rest.result; cursor = rest.cursor })

    pub parse_array : ℕ → ℕ → ℕ → Outcome (Parsed Value)
    unfolding parse_items
    parse_array count marker_offset cursor =
        if ltb (length bytes - cursor) count
        then fail marker_offset
        else (parse_items count cursor >>= λ items.
            done (record {
              result = array (base + marker_offset) items.result;
              cursor = items.cursor;
            }))

    -- The key of an entry: a string that no entry before has.
    pub key_text : List (List ℕ) → Value → Outcome (List ℕ)
    unfolding has_key
    key_text keys (text offset key) =
        if has_key key keys
        then failed (record { code = invalid_metadata; offset = offset })
        else done key
    key_text keys other = failed (record { code = invalid_metadata; offset = offset_of other })

    -- The entries of a map.
    pub parse_fields : List (List ℕ) → ℕ → ℕ → Outcome (Parsed Fields)
    unfolding key_text
    parse_fields keys zero cursor = done (record { result = no_fields; cursor = cursor })
    parse_fields keys (suc count) cursor = parse cursor >>= λ key.
        key_text keys key.result >>= λ name. parse key.cursor >>= λ mapped.
        parse_fields (name ∷ keys) count mapped.cursor >>= λ rest.
        done (record { result = field name mapped.result rest.result; cursor = rest.cursor })

    pub parse_map : ℕ → ℕ → ℕ → Outcome (Parsed Value)
    unfolding parse_fields
    parse_map count marker_offset cursor =
        if ltb ((length bytes - cursor) / 2) count
        then fail marker_offset
        else (parse_fields [] count cursor >>= λ fields. done (record {
          result = map_of (base + marker_offset) fields.result;
          cursor = fields.cursor;
        }))

    parse_unsigned : ℕ → ℕ → ℕ → Outcome (Parsed Value)
    unfolding read_big_endian
    parse_unsigned width marker_offset cursor = read_big_endian width marker_offset cursor >>= λ n.
        done (record { result = unsigned (base + marker_offset) n.result; cursor = n.cursor })

    parse_signed : ℕ → ℕ → ℕ → Outcome (Parsed Value)
    unfolding read_big_endian sign_extended
    parse_signed width marker_offset cursor = read_big_endian width marker_offset cursor >>= λ n.
        done (record {
          result = signed (base + marker_offset) (sign_extended width n.result);
          cursor = n.cursor;
        })

    -- The `switch` on the markers with a length or an integer behind them.
    parse_wide : ℕ → ℕ → ℕ → Outcome (Parsed Value)
    unfolding read_big_endian parse_unsigned parse_signed parse_string parse_array parse_map
    parse_wide marker offset cursor =
        if leb 0xcc marker && leb marker 0xcf
        then parse_unsigned (2 ^ (marker - 0xcc)) offset cursor
        else if leb 0xd0 marker && leb marker 0xd3
        then parse_signed (2 ^ (marker - 0xd0)) offset cursor
        else if leb 0xd9 marker && leb marker 0xdb
        then (read_big_endian (2 ^ (marker - 0xd9)) offset cursor >>= λ n.
            parse_string n.result offset n.cursor)
        else if marker == 0xdc || marker == 0xdd
        then (read_big_endian (if marker == 0xdc then 2 else 4) offset cursor >>= λ n.
            parse_array n.result offset n.cursor)
        else if marker == 0xde || marker == 0xdf
        then (read_big_endian (if marker == 0xde then 2 else 4) offset cursor >>= λ n.
            parse_map n.result offset n.cursor)
        else failed (record { code = unsupported_metadata_encoding; offset = base + offset })

    -- The value of a marker at `offset`.
    parse_marker : ℕ → ℕ → ℕ → Outcome (Parsed Value)
    unfolding parse_string parse_array parse_map parse_wide
    parse_marker marker offset cursor =
        if leb marker 0x7f
        then done (record { result = unsigned (base + offset) marker; cursor = cursor })
        else if leb 0xe0 marker
        then done (record {
          result = signed (base + offset) (u64_limit - 0x100 + marker);
          cursor = cursor;
        })
        else if bit_and marker 0xe0 == 0xa0
        then parse_string (bit_and marker 0x1f) offset cursor
        else if bit_and marker 0xf0 == 0x90
        then parse_array (bit_and marker 0xf) offset cursor
        else if bit_and marker 0xf0 == 0x80
        then parse_map (bit_and marker 0xf) offset cursor
        else if marker == 0xc0
        then done (record { result = nil (base + offset); cursor = cursor })
        else if marker == 0xc2 || marker == 0xc3
        then done (record { result = boolean (base + offset) (marker == 0xc3); cursor = cursor })
        else parse_wide marker offset cursor

  -- `parse_value`, with `left` levels left: the depth is 65 less than that.
  pub parse_value : ℕ → ℕ → Outcome (Parsed Value)
  unfolding take_bytes byte_at parse_marker
  parse_value zero cursor = fail cursor
  parse_value (suc left) cursor = take_bytes 1 cursor cursor >>= λ taken.
      byte_at bytes taken.result >>= λ marker.
      parse_marker (parse_value left) marker cursor taken.cursor

  abbrev maximum_metadata_depth : ℕ
  maximum_metadata_depth = 64

  unfoldable pub parse_message_pack : Outcome Value
  unfolding parse_value
  parse_message_pack = parse_value (maximum_metadata_depth + 1) 0 >>= λ value.
      reject_if (value.cursor != length bytes) invalid_metadata (base + value.cursor) >>= λ _.
      done value.result
