-- ===== src/Metadata/MessagePack/Values.antt =====
-- `parse_value` and `parse` of the MessagePackReader of light-rocr/loader/metadata_reader.cpp.
use light_rocm_runtime.Prelude.{
  ℕ, zero, suc, ◌+◌, ◌-◌, ◌^◌, ◌≤◌, ◌≡◌, subst, get_or, bit_and, Bool, true, false, List, length,
  leb, ◌==◌, ◌!=◌, ◌&&◌, ◌||◌, arith, if◌then◌else◌,
}
use light_rocm_runtime.Word.{u64_limit}
use light_rocm_runtime.Loader.{
  Outcome, done, ◌>>=◌, reject_if, invalid_metadata, unsupported_metadata_encoding, Safe, >>=-Safe,
  >>=-done, done-injective,
}
use light_rocm_runtime.Loader.Bytes.{byte_at_lem}
use light_rocm_runtime.Metadata.MessagePack.{
  Value, nil, boolean, unsigned, signed, Parsed, take_bytes, read_big_endian, parse_unsigned,
  parse_signed, parse_wide, parse_marker, parse_value, parse_message_pack,
}
use light_rocm_runtime.Metadata.MessagePack.Reads.{
  HasDistinctKeys, AnyNumber, IsRead, bind-IsRead, then-IsRead, done-IsRead, failed-IsRead,
  take_bytes-Safe, take_bytes_lem, read_big_endian-IsRead, parse_string-IsRead, parse_array-IsRead,
  parse_map-IsRead,
}

module _ (bytes : List ℕ) (base : ℕ) where
  abbrev Good : Outcome (Parsed Value) → Type 0
  Good = IsRead bytes HasDistinctKeys

  if-Good : (c : Bool) (x y : Outcome (Parsed Value)) → Good x → Good y → Good (if c then x else y)
  if-Good true x y gx gy = gx
  if-Good false x y gx gy = gy

  module _ (parse : ℕ → Outcome (Parsed Value))
      (reads : (cursor : ℕ) → cursor ≤ length bytes → Good (parse cursor)) where
    parse_unsigned-IsRead :
        (width offset cursor : ℕ)
        → cursor ≤ length bytes
        → Good (parse_unsigned bytes base parse width offset cursor)
    unfolding parse_unsigned HasDistinctKeys
    parse_unsigned-IsRead width offset cursor le =
        then-IsRead bytes (AnyNumber bytes base) HasDistinctKeys
          (read_big_endian bytes base width offset cursor) _
          (read_big_endian-IsRead bytes base width offset cursor le)
          λ n le1 _. done-IsRead bytes HasDistinctKeys _ n.cursor le1 tt

    parse_signed-IsRead :
        (width offset cursor : ℕ)
        → cursor ≤ length bytes
        → Good (parse_signed bytes base parse width offset cursor)
    unfolding parse_signed HasDistinctKeys
    parse_signed-IsRead width offset cursor le =
        then-IsRead bytes (AnyNumber bytes base) HasDistinctKeys
          (read_big_endian bytes base width offset cursor) _
          (read_big_endian-IsRead bytes base width offset cursor le)
          λ n le1 _. done-IsRead bytes HasDistinctKeys _ n.cursor le1 tt

    -- A length, and a read of that length.
    sized-IsRead :
        (width offset cursor : ℕ) (f : Parsed ℕ → Outcome (Parsed Value))
        → cursor ≤ length bytes
        → ((n : Parsed ℕ) → n.cursor ≤ length bytes → Good (f n))
        → Good (read_big_endian bytes base width offset cursor >>= f)
    sized-IsRead width offset cursor f le h =
        then-IsRead bytes (AnyNumber bytes base) HasDistinctKeys
          (read_big_endian bytes base width offset cursor) f
          (read_big_endian-IsRead bytes base width offset cursor le) λ n le1 _. h n le1

    parse_wide-IsRead :
        (marker offset cursor : ℕ)
        → cursor ≤ length bytes
        → Good (parse_wide bytes base parse marker offset cursor)
    unfolding parse_wide
    parse_wide-IsRead marker offset cursor le =
        if-Good (leb 0xcc marker && leb marker 0xcf) _ _
          (parse_unsigned-IsRead (2 ^ (marker - 0xcc)) offset cursor le)
          (if-Good (leb 0xd0 marker && leb marker 0xd3) _ _
            (parse_signed-IsRead (2 ^ (marker - 0xd0)) offset cursor le)
            (if-Good (leb 0xd9 marker && leb marker 0xdb) _ _
              (sized-IsRead (2 ^ (marker - 0xd9)) offset cursor _ le
                λ n le1. parse_string-IsRead bytes base n.result offset n.cursor le1)
              (if-Good (marker == 0xdc || marker == 0xdd) _ _
                (sized-IsRead (if marker == 0xdc then 2 else 4) offset cursor _ le
                  λ n le1. parse_array-IsRead bytes base parse reads n.result offset n.cursor le1)
                (if-Good (marker == 0xde || marker == 0xdf) _ _
                  (sized-IsRead (if marker == 0xde then 2 else 4) offset cursor _ le
                    λ n le1. parse_map-IsRead bytes base parse reads n.result offset n.cursor le1)
                  (failed-IsRead bytes HasDistinctKeys
                    (record { code = unsupported_metadata_encoding; offset = base + offset }))))))

    parse_marker-IsRead :
        (marker offset cursor : ℕ)
        → cursor ≤ length bytes
        → Good (parse_marker bytes base parse marker offset cursor)
    unfolding parse_marker HasDistinctKeys
    parse_marker-IsRead marker offset cursor le =
        if-Good (leb marker 0x7f) _ _
          (done-IsRead bytes HasDistinctKeys (unsigned (base + offset) marker) cursor le tt)
          (if-Good (leb 0xe0 marker) _ _
            (done-IsRead bytes HasDistinctKeys (signed (base + offset) (u64_limit - 0x100 + marker))
              cursor le tt)
            (if-Good (bit_and marker 0xe0 == 0xa0) _ _
              (parse_string-IsRead bytes base (bit_and marker 0x1f) offset cursor le)
              (if-Good (bit_and marker 0xf0 == 0x90) _ _
                (parse_array-IsRead bytes base parse reads (bit_and marker 0xf) offset cursor le)
                (if-Good (bit_and marker 0xf0 == 0x80) _ _
                  (parse_map-IsRead bytes base parse reads (bit_and marker 0xf) offset cursor le)
                  (if-Good (marker == 0xc0) _ _
                    (done-IsRead bytes HasDistinctKeys (nil (base + offset)) cursor le tt)
                    (if-Good (marker == 0xc2 || marker == 0xc3) _ _
                      (done-IsRead bytes HasDistinctKeys (boolean (base + offset) (marker == 0xc3))
                        cursor le tt)
                      (parse_wide-IsRead marker offset cursor le)))))))

  parse_value-IsRead :
      (left cursor : ℕ) → cursor ≤ length bytes → Good (parse_value bytes base left cursor)
  unfolding parse_value
  parse_value-IsRead zero cursor le = failed-IsRead bytes HasDistinctKeys _
  parse_value-IsRead (suc left) cursor le =
      bind-IsRead bytes HasDistinctKeys (take_bytes bytes base 1 cursor cursor) _
        (take_bytes-Safe bytes base 1 cursor cursor)
        λ taken e.
          let (start, behind, fits) = take_bytes_lem bytes base 1 cursor cursor taken le e in
          rw (byte_at_lem bytes taken.result (omega arith)) (
            parse_marker-IsRead (parse_value bytes base left)
              (λ c lec. parse_value-IsRead left c lec) (get_or bytes taken.result 0) cursor
              taken.cursor (omega arith))

  -- Whatever the bytes are, the reader ends and reads none outside of them; and in a value that it returns
  -- no map, at any depth, has one key twice.
  pub parse_message_pack_lem :
      Safe (parse_message_pack bytes base)
      × ((v : Value) → parse_message_pack bytes base ≡ done v → HasDistinctKeys v)
  unfolding parse_message_pack
  parse_message_pack_lem =
      let read = parse_value-IsRead 65 0 (omega arith) in
      (
        >>=-Safe (parse_value bytes base 65 0) _ read.no_fault (λ value _. ground arith),
        λ v e.
            let (value, ran, e1) = >>=-done (parse_value bytes base 65 0) _ e in
            let (_, _, e2) =
              >>=-done
                (reject_if (value.cursor != length bytes) invalid_metadata (base + value.cursor)) _
                e1 in
            subst HasDistinctKeys (done-injective e2) (read.ends value ran).1,
      )
