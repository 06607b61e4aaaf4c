-- ===== src/Metadata/MessagePack/Reads.antt =====
-- `MessagePackReader` of light-rocr/loader/metadata_reader.cpp on arbitrary bytes.
use light_rocm_runtime.Prelude.{
  ℕ, zero, suc, ◌+◌, ◌-◌, ◌/◌, ◌≤◌, ◌≡◌, ◌≢◌, refl, sym, ap, subst, ◌∙◌, true, false, inl, inr,
  List, [], ◌∷◌, length, ltb, arith, Bool-cases,
}
use light_rocm_runtime.Loader.{
  ParseError, Outcome, done, failed, ◌>>=◌, Safe, >>=-Safe, >>=-done, done-injective,
}
use light_rocm_runtime.Loader.Bytes.{byte_at_lem}
use light_rocm_runtime.Metadata.MessagePack.{
  Value, nil, boolean, unsigned, signed, text, array, map_of, Items, no_items, item, Fields,
  no_fields, field, Parsed, bytes_equal, has_key, take_bytes, big_endian_loop, read_big_endian,
  parse_string, parse_items, parse_array, key_text, parse_fields, parse_map,
}

-- No entry has the key.
pub Lacks : List ℕ → Fields → Type 0
Lacks key no_fields = Unit {0}
Lacks key (field k v fs) = (k ≢ key) × Lacks key fs

-- No two entries of a map, at any depth, have one key.
unfoldable mutual
  unfolding Lacks

  pub HasDistinctKeys : Value → Type 0
  HasDistinctKeys (nil offset) = Unit {0}
  HasDistinctKeys (boolean offset b) = Unit {0}
  HasDistinctKeys (unsigned offset n) = Unit {0}
  HasDistinctKeys (signed offset n) = Unit {0}
  HasDistinctKeys (text offset t) = Unit {0}
  HasDistinctKeys (array offset xs) = ItemsDistinct xs
  HasDistinctKeys (map_of offset fs) = FieldsDistinct fs

  pub ItemsDistinct : Items → Type 0
  ItemsDistinct no_items = Unit {0}
  ItemsDistinct (item x xs) = HasDistinctKeys x × ItemsDistinct xs

  pub FieldsDistinct : Fields → Type 0
  FieldsDistinct no_fields = Unit {0}
  FieldsDistinct (field k v fs) = Lacks k fs × HasDistinctKeys v × FieldsDistinct fs

-- The entries' keys are none of the list.
AvoidsKeys : List (List ℕ) → Fields → Type 0
AvoidsKeys keys no_fields = Unit {0}
AvoidsKeys keys (field k v fs) = (has_key k keys ≡ false) × AvoidsKeys keys fs

pub bytes_equal_refl : (xs : List ℕ) → bytes_equal xs xs ≡ true
unfolding bytes_equal
bytes_equal_refl [] = refl
bytes_equal_refl (x ∷ xs) = ground (arith, bytes_equal_refl xs)

avoids_lem :
    (key : List ℕ) (keys : List (List ℕ)) (fs : Fields)
    → AvoidsKeys (key ∷ keys) fs
    → Lacks key fs × AvoidsKeys keys fs
unfolding AvoidsKeys Lacks has_key
avoids_lem key keys no_fields h = (tt, tt)
avoids_lem key keys (field k v fs) h =
    let rest = avoids_lem key keys fs h.1 in
    ((other (ground arith), rest.0), (ground arith, rest.1))
  where
    other : bytes_equal k key ≡ false → k ≢ key
    other e same =
        let equal = sym (ap (λ j. bytes_equal j key) same) ∙ e in
        absurd (ground (arith, equal, bytes_equal_refl key))

module _ (bytes : List ℕ) {A : Type 0} (P : A → Type 0) where
  -- A read stays inside the bytes, and its result has the property.
  pub record IsRead (m : Outcome (Parsed A)) : Type 0 where
    pub no_fault : Safe m
    pub ends : (p : Parsed A) → m ≡ done p → (p.cursor ≤ length bytes) × P p.result

  pub bind-IsRead :
      {B : Type 0} (m : Outcome B) (f : B → Outcome (Parsed A))
      → Safe m
      → ((b : B) → m ≡ done b → IsRead (f b))
      → IsRead (m >>= f)
  bind-IsRead m f safe h = record {
    no_fault = >>=-Safe m f safe λ b e. (h b e).no_fault;
    ends = λ p e. let (b, ran, rest) = >>=-done m f e in (h b ran).ends p rest;
  }

  pub done-IsRead :
      (a : A) (cursor : ℕ)
      → cursor ≤ length bytes
      → P a
      → IsRead (done (record { result = a; cursor = cursor }))
  done-IsRead a cursor le p = record {
    no_fault = λ e. cc;
    ends = λ q e. subst (λ q. (q.cursor ≤ length bytes) × P q.result) (done-injective e) (le, p);
  }

  pub failed-IsRead : (e : ParseError) → IsRead (failed e)
  failed-IsRead e = record { no_fault = λ x. cc; ends = λ q x. cc }

module _ (bytes : List ℕ) {A B : Type 0} (Q : B → Type 0) (P : A → Type 0) where
  -- A read behind a read.
  pub then-IsRead :
      (m : Outcome (Parsed B)) (f : Parsed B → Outcome (Parsed A))
      → IsRead bytes Q m
      → ((p : Parsed B) → p.cursor ≤ length bytes → Q p.result → IsRead bytes P (f p))
      → IsRead bytes P (m >>= f)
  then-IsRead m f read h =
      bind-IsRead bytes P m f read.no_fault λ p e. let (le, q) = read.ends p e in h p le q

module _ (bytes : List ℕ) (base : ℕ) where
  abbrev pub AnyNumber : ℕ → Type 0
  AnyNumber n = Unit {0}

  pub take_bytes-Safe : (count offset cursor : ℕ) → Safe (take_bytes bytes base count offset cursor)
  unfolding take_bytes
  take_bytes-Safe count offset cursor = ground arith

  pub take_bytes_lem :
      (count offset cursor : ℕ) (p : Parsed ℕ)
      → cursor ≤ length bytes
      → take_bytes bytes base count offset cursor ≡ done p
      → (p.result ≡ cursor) × (p.cursor ≡ cursor + count) × (cursor + count ≤ length bytes)
  unfolding take_bytes
  take_bytes_lem count offset cursor p le e = ground arith

  big_endian_loop-Safe :
      (count start result : ℕ)
      → start + count ≤ length bytes
      → Safe (big_endian_loop bytes base count start result)
  unfolding big_endian_loop
  big_endian_loop-Safe zero start result fits = λ e. cc
  big_endian_loop-Safe (suc count) start result fits =
      rw (byte_at_lem bytes start (omega arith), big_endian_loop)
        (big_endian_loop-Safe count (start + 1) _ (omega arith))

  pub read_big_endian-IsRead :
      (count offset cursor : ℕ)
      → cursor ≤ length bytes
      → IsRead bytes AnyNumber (read_big_endian bytes base count offset cursor)
  unfolding read_big_endian
  read_big_endian-IsRead count offset cursor le =
      bind-IsRead bytes AnyNumber (take_bytes bytes base count offset cursor) _
        (take_bytes-Safe count offset cursor)
        λ taken e.
          let (start, behind, fits) = take_bytes_lem count offset cursor taken le e in
          bind-IsRead bytes AnyNumber (big_endian_loop bytes base count taken.result 0) _
            (big_endian_loop-Safe count taken.result 0 (omega arith))
            λ value _. done-IsRead bytes AnyNumber value taken.cursor (omega arith) tt

  pub parse_string-IsRead :
      (count offset cursor : ℕ)
      → cursor ≤ length bytes
      → IsRead bytes HasDistinctKeys (parse_string bytes base count offset cursor)
  unfolding parse_string HasDistinctKeys
  parse_string-IsRead count offset cursor le =
      bind-IsRead bytes HasDistinctKeys (take_bytes bytes base count offset cursor) _
        (take_bytes-Safe count offset cursor)
        λ taken e.
          let (start, behind, fits) = take_bytes_lem count offset cursor taken le e in
          let inside : ltb (length bytes) (taken.result + count) ≡ false = ground arith in
          rw inside (done-IsRead bytes HasDistinctKeys _ taken.cursor (omega arith) tt)

  module _ (parse : ℕ → Outcome (Parsed Value))
      (reads : (cursor : ℕ)
        → cursor ≤ length bytes
        → IsRead bytes HasDistinctKeys (parse cursor)) where
    parse_items-IsRead :
        (count cursor : ℕ)
        → cursor ≤ length bytes
        → IsRead bytes ItemsDistinct (parse_items bytes base parse count cursor)
    unfolding parse_items HasDistinctKeys
    parse_items-IsRead zero cursor le = done-IsRead bytes ItemsDistinct no_items cursor le tt
    parse_items-IsRead (suc count) cursor le =
        then-IsRead bytes HasDistinctKeys ItemsDistinct (parse cursor) _ (reads cursor le)
          λ first le1 distinct.
            then-IsRead bytes ItemsDistinct ItemsDistinct
              (parse_items bytes base parse count first.cursor) _
              (parse_items-IsRead count first.cursor le1)
              λ rest le2 others.
                done-IsRead bytes ItemsDistinct (item first.result rest.result) rest.cursor le2
                  (distinct, others)

    pub parse_array-IsRead :
        (count offset cursor : ℕ)
        → cursor ≤ length bytes
        → IsRead bytes HasDistinctKeys (parse_array bytes base parse count offset cursor)
    unfolding parse_array HasDistinctKeys
    parse_array-IsRead count offset cursor le =
        elim (Bool-cases (ltb (length bytes - cursor) count)) [
          | inl e ↦ rw (e, parse_array) (failed-IsRead bytes HasDistinctKeys _)
          | inr e ↦
              rw (e, parse_array)
                (then-IsRead bytes ItemsDistinct HasDistinctKeys
                  (parse_items bytes base parse count cursor) _ (parse_items-IsRead count cursor le)
                  λ items le1 distinct.
                    done-IsRead bytes HasDistinctKeys (array (base + offset) items.result)
                      items.cursor le1 distinct)
        ]

    key_text-Safe : (keys : List (List ℕ)) (v : Value) → Safe (key_text bytes base parse keys v)
    unfolding key_text
    key_text-Safe keys v = ground arith

    key_text_lem :
        (keys : List (List ℕ)) (v : Value) (key : List ℕ)
        → key_text bytes base parse keys v ≡ done key
        → has_key key keys ≡ false
    unfolding key_text
    key_text_lem keys (text offset t) key e = elim (Bool-cases (has_key t keys)) [
      | inl f ↦ absurd (ground (arith, e, f))
      | inr f ↦
          let same : t ≡ key = ground (arith, e, f) in subst (λ k. has_key k keys ≡ false) same f
    ]
    key_text_lem keys (nil offset) key e = cc
    key_text_lem keys (boolean offset b) key e = cc
    key_text_lem keys (unsigned offset n) key e = cc
    key_text_lem keys (signed offset n) key e = cc
    key_text_lem keys (array offset xs) key e = cc
    key_text_lem keys (map_of offset fs) key e = cc

    abbrev NewFields : List (List ℕ) → Fields → Type 0
    NewFields keys fs = FieldsDistinct fs × AvoidsKeys keys fs

    parse_fields-IsRead :
        (keys : List (List ℕ)) (count cursor : ℕ)
        → cursor ≤ length bytes
        → IsRead bytes (NewFields keys) (parse_fields bytes base parse keys count cursor)
    unfolding parse_fields HasDistinctKeys AvoidsKeys
    parse_fields-IsRead keys zero cursor le =
        done-IsRead bytes (NewFields keys) no_fields cursor le (tt, tt)
    parse_fields-IsRead keys (suc count) cursor le =
        then-IsRead bytes HasDistinctKeys (NewFields keys) (parse cursor) _ (reads cursor le)
          λ key le1 _.
            bind-IsRead bytes (NewFields keys) (key_text bytes base parse keys key.result) _
              (key_text-Safe keys key.result)
              λ name named.
                then-IsRead bytes HasDistinctKeys (NewFields keys) (parse key.cursor) _
                  (reads key.cursor le1)
                  λ mapped le2 distinct.
                    then-IsRead bytes (NewFields (name ∷ keys)) (NewFields keys)
                      (parse_fields bytes base parse (name ∷ keys) count mapped.cursor) _
                      (parse_fields-IsRead (name ∷ keys) count mapped.cursor le2)
                      λ rest le3 others.
                        let (lacks, avoids) = avoids_lem name keys rest.result others.1 in
                        done-IsRead bytes (NewFields keys) (field name mapped.result rest.result)
                          rest.cursor le3
                          (
                            (lacks, distinct, others.0),
                            (key_text_lem keys key.result name named, avoids),
                          )

    pub parse_map-IsRead :
        (count offset cursor : ℕ)
        → cursor ≤ length bytes
        → IsRead bytes HasDistinctKeys (parse_map bytes base parse count offset cursor)
    unfolding parse_map HasDistinctKeys
    parse_map-IsRead count offset cursor le =
        elim (Bool-cases (ltb ((length bytes - cursor) / 2) count)) [
          | inl e ↦ rw (e, parse_map) (failed-IsRead bytes HasDistinctKeys _)
          | inr e ↦
              rw (e, parse_map)
                (then-IsRead bytes (NewFields []) HasDistinctKeys
                  (parse_fields bytes base parse [] count cursor) _
                  (parse_fields-IsRead [] count cursor le)
                  λ fields le1 distinct.
                    done-IsRead bytes HasDistinctKeys (map_of (base + offset) fields.result)
                      fields.cursor le1 distinct.0)
        ]
