-- ===== src/Grpc/Messages/Trip.antt =====
-- What becomes of a value on its way through a message.
use Prim.Native.String.{String}
use palmira.Prelude.{
  ◌>>=◌, ℕ, ◌≡◌, refl, Bool, true, false, ◌&&◌, map, Result, ok, err, Exception, inl, inr,
  Bool-cases,
}
use palmira.Prelude.Int.{ℤ}
use palmira.Values.{
  Bytes, Wide, key_charstr, key_other, Zval, Zmap, Zmaps, Zvals, MetaValue, Metadata, Metadatas,
  MetaValues, z_untyped, z_char, z_int16, z_int32, z_int64, z_byte, z_word16, z_word32, z_word64,
  z_float, z_double, z_bool, z_charstr, z_widestr, z_zmap, z_array_char, z_array_int16,
  z_array_int32, z_array_int64, z_array_byte, z_array_word16, z_array_word32, z_array_word64,
  z_array_float, z_array_double, z_array_charstr, z_array_widestr, z_array_zmap, z_array_zval,
  no_entry, entry, no_zmap, next_zmap, no_zval, next_zval, as_metadata, as_array_metadata,
  as_array_metavalue, no_datum, datum, no_metadata, next_metadata, no_metavalue, next_metavalue,
}
use palmira.Grpc.Messages.{
  wrap_int32, wrap_uint32, to_metavalue, to_metadata, to_metadatas, to_metavalues, to_zval, to_zmap,
  to_zmaps, to_zvals,
}

abbrev mutual
  -- A value that has a type, and no map in it has a key other than a string of bytes.
  pub can_convert : Zval → Bool
  can_convert z_untyped = false
  can_convert (z_zmap m) = can_convert_zmap m
  can_convert (z_array_zmap ms) = can_convert_zmaps ms
  can_convert (z_array_zval vs) = can_convert_zvals vs
  can_convert _ = true

  pub can_convert_zmap : Zmap → Bool
  can_convert_zmap no_entry = true
  can_convert_zmap (entry (key_other n) v m) = false
  can_convert_zmap (entry (key_charstr k) v m) = can_convert v && can_convert_zmap m

  pub can_convert_zmaps : Zmaps → Bool
  can_convert_zmaps no_zmap = true
  can_convert_zmaps (next_zmap m ms) = can_convert_zmap m && can_convert_zmaps ms

  pub can_convert_zvals : Zvals → Bool
  can_convert_zvals no_zval = true
  can_convert_zvals (next_zval v vs) = can_convert v && can_convert_zvals vs

both : (a b : Bool) → (a && b) ≡ true → (a ≡ true) × (b ≡ true)
both true b h = (refl, h)
both false b h = absurd (cc h)

second : (a b : Bool) → a ≡ true → (a && b) ≡ false → b ≡ false
second true b h k = k
second false b h k = absurd (cc h)

module _ (to_utf8 : Wide → Bytes) (float_to_int double_to_int : ℕ → ℤ) where
  abbrev mutual
    -- The value that arrives: small integers widened, wide strings in UTF-8, and what the code cuts to
    -- 32 bits or to integers cut.
    pub arrives : Zval → Zval
    arrives (z_char n) = z_int32 n
    arrives (z_byte n) = z_word32 n
    arrives (z_int16 n) = z_int32 n
    arrives (z_word16 n) = z_word32 n
    arrives (z_word64 n) = z_word32 (wrap_uint32 n)
    arrives (z_widestr w) = z_charstr (to_utf8 w)
    arrives (z_array_char ns) = z_array_int32 ns
    arrives (z_array_byte ns) = z_array_word32 ns
    arrives (z_array_int16 ns) = z_array_int32 ns
    arrives (z_array_word16 ns) = z_array_word32 ns
    arrives (z_array_int64 ns) = z_array_int32 (map wrap_int32 ns)
    arrives (z_array_word64 ns) = z_array_word32 (map wrap_uint32 ns)
    arrives (z_array_float ns) = z_array_int32 (map float_to_int ns)
    arrives (z_array_double ns) = z_array_int32 (map double_to_int ns)
    arrives (z_array_widestr ws) = z_array_charstr (map to_utf8 ws)
    arrives (z_zmap m) = z_zmap (arrives_zmap m)
    arrives (z_array_zmap ms) = z_array_zmap (arrives_zmaps ms)
    arrives (z_array_zval vs) = z_array_zval (arrives_zvals vs)
    arrives v = v

    pub arrives_zmap : Zmap → Zmap
    arrives_zmap no_entry = no_entry
    arrives_zmap (entry k v m) = entry k (arrives v) (arrives_zmap m)

    pub arrives_zmaps : Zmaps → Zmaps
    arrives_zmaps no_zmap = no_zmap
    arrives_zmaps (next_zmap m ms) = next_zmap (arrives_zmap m) (arrives_zmaps ms)

    pub arrives_zvals : Zvals → Zvals
    arrives_zvals no_zval = no_zval
    arrives_zvals (next_zval v vs) = next_zval (arrives v) (arrives_zvals vs)

  abbrev pub ValueTrip : Zval → Type 0
  ValueTrip v =
      (x : MetaValue) × (to_metavalue to_utf8 float_to_int double_to_int v ≡ ok x)
      × (to_zval x ≡ ok (arrives v))

  abbrev pub MapTrip : Zmap → Type 0
  MapTrip m =
      (d : Metadata) × (to_metadata to_utf8 float_to_int double_to_int m ≡ ok d)
      × (to_zmap d ≡ ok (arrives_zmap m))

  abbrev MapsTrip : Zmaps → Type 0
  MapsTrip ms =
      (ds : Metadatas) × (to_metadatas to_utf8 float_to_int double_to_int ms ≡ ok ds)
      × (to_zmaps ds ≡ ok (arrives_zmaps ms))

  abbrev ValuesTrip : Zvals → Type 0
  ValuesTrip vs =
      (xs : MetaValues) × (to_metavalues to_utf8 float_to_int double_to_int vs ≡ ok xs)
      × (to_zvals xs ≡ ok (arrives_zvals vs))

  mutual
    unfolding to_metavalue to_zval

    -- Every value that can be converted is, and the message converts back to the value expected.
    value_Trip : (v : Zval) → can_convert v ≡ true → ValueTrip v
    value_Trip z_untyped h = absurd (cc h)
    value_Trip (z_char n) h = (_, refl, refl)
    value_Trip (z_byte n) h = (_, refl, refl)
    value_Trip (z_int16 n) h = (_, refl, refl)
    value_Trip (z_word16 n) h = (_, refl, refl)
    value_Trip (z_int32 n) h = (_, refl, refl)
    value_Trip (z_word32 n) h = (_, refl, refl)
    value_Trip (z_int64 n) h = (_, refl, refl)
    value_Trip (z_word64 n) h = (_, refl, refl)
    value_Trip (z_float n) h = (_, refl, refl)
    value_Trip (z_double n) h = (_, refl, refl)
    value_Trip (z_bool n) h = (_, refl, refl)
    value_Trip (z_charstr n) h = (_, refl, refl)
    value_Trip (z_widestr n) h = (_, refl, refl)
    value_Trip (z_array_char n) h = (_, refl, refl)
    value_Trip (z_array_byte n) h = (_, refl, refl)
    value_Trip (z_array_int16 n) h = (_, refl, refl)
    value_Trip (z_array_word16 n) h = (_, refl, refl)
    value_Trip (z_array_int32 n) h = (_, refl, refl)
    value_Trip (z_array_word32 n) h = (_, refl, refl)
    value_Trip (z_array_int64 n) h = (_, refl, refl)
    value_Trip (z_array_word64 n) h = (_, refl, refl)
    value_Trip (z_array_float n) h = (_, refl, refl)
    value_Trip (z_array_double n) h = (_, refl, refl)
    value_Trip (z_array_charstr n) h = (_, refl, refl)
    value_Trip (z_array_widestr n) h = (_, refl, refl)
    value_Trip (z_zmap m) h =
        let (d, there, back) = map_Trip m h in (as_metadata d, rw there, rw back)
    value_Trip (z_array_zmap ms) h =
        let (ds, there, back) = maps_Trip ms h in (as_array_metadata ds, rw there, rw back)
    value_Trip (z_array_zval vs) h =
        let (xs, there, back) = values_Trip vs h in (as_array_metavalue xs, rw there, rw back)

    pub map_Trip : (m : Zmap) → can_convert_zmap m ≡ true → MapTrip m
    map_Trip no_entry h = (no_datum, refl, refl)
    map_Trip (entry (key_other n) v m) h = absurd (cc h)
    map_Trip (entry (key_charstr k) v m) h =
        let (hv, hm) = both _ _ h in
        let (x, there, back) = value_Trip v hv in
        let (d, there', back') = map_Trip m hm in
        (datum k x d, rw (there, there'), rw (back, back'))

    maps_Trip : (ms : Zmaps) → can_convert_zmaps ms ≡ true → MapsTrip ms
    maps_Trip no_zmap h = (no_metadata, refl, refl)
    maps_Trip (next_zmap m ms) h =
        let (hm, hs) = both _ _ h in
        let (d, there, back) = map_Trip m hm in
        let (ds, there', back') = maps_Trip ms hs in
        (next_metadata d ds, rw (there, there'), rw (back, back'))

    values_Trip : (vs : Zvals) → can_convert_zvals vs ≡ true → ValuesTrip vs
    values_Trip no_zval h = (no_metavalue, refl, refl)
    values_Trip (next_zval v vs) h =
        let (hv, hs) = both _ _ h in
        let (x, there, back) = value_Trip v hv in
        let (xs, there', back') = values_Trip vs hs in
        (next_metavalue x xs, rw (there, there'), rw (back, back'))

  -- A conversion that is refused as an invalid argument.
  abbrev pub Refused : {A : Type 0} → Result A → Type 0
  Refused {A} r = (what : String) × (r ≡ err (Exception.invalid_argument what))

  mutual
    unfolding to_metavalue

    -- A value that cannot be converted is refused.
    value_Refused :
        (v : Zval)
        → can_convert v ≡ false
        → Refused (to_metavalue to_utf8 float_to_int double_to_int v)
    value_Refused z_untyped h = (_, refl)
    value_Refused (z_zmap m) h = let (what, e) = map_Refused m h in (what, rw e)
    value_Refused (z_array_zmap ms) h = let (what, e) = maps_Refused ms h in (what, rw e)
    value_Refused (z_array_zval vs) h = let (what, e) = values_Refused vs h in (what, rw e)
    value_Refused _ h = absurd (cc h)

    map_Refused :
        (m : Zmap)
        → can_convert_zmap m ≡ false
        → Refused (to_metadata to_utf8 float_to_int double_to_int m)
    map_Refused no_entry h = absurd (cc h)
    map_Refused (entry (key_other n) v m) h = (_, refl)
    map_Refused (entry (key_charstr k) v m) h = elim (Bool-cases (can_convert v)) [
      | inr bad ↦ let (what, e) = value_Refused v bad in (what, rw e)
      | inl good ↦
          let (what, e) = map_Refused m (second _ _ good h) in (what, rw ((value_Trip v good).1, e))
    ]

    maps_Refused :
        (ms : Zmaps)
        → can_convert_zmaps ms ≡ false
        → Refused (to_metadatas to_utf8 float_to_int double_to_int ms)
    maps_Refused no_zmap h = absurd (cc h)
    maps_Refused (next_zmap m ms) h = elim (Bool-cases (can_convert_zmap m)) [
      | inr bad ↦ let (what, e) = map_Refused m bad in (what, rw e)
      | inl good ↦
          let (what, e) = maps_Refused ms (second _ _ good h) in (what, rw ((map_Trip m good).1, e))
    ]

    values_Refused :
        (vs : Zvals)
        → can_convert_zvals vs ≡ false
        → Refused (to_metavalues to_utf8 float_to_int double_to_int vs)
    values_Refused no_zval h = absurd (cc h)
    values_Refused (next_zval v vs) h = elim (Bool-cases (can_convert v)) [
      | inr bad ↦ let (what, e) = value_Refused v bad in (what, rw e)
      | inl good ↦
          let (what, e) = values_Refused vs (second _ _ good h) in
          (what, rw ((value_Trip v good).1, e))
    ]

  -- Every value that has a type, and in which every key of a map is a string of bytes, converts to a
  -- message, and the message converts back to the same value, except for what `arrives` says: small
  -- integers widened, wide strings in UTF-8, and 64-bit words and the numbers of some arrays cut.
  pub to_zval-to_metavalue :
      (v : Zval)
      → can_convert v ≡ true
      → (to_metavalue to_utf8 float_to_int double_to_int v >>= to_zval) ≡ ok (arrives v)
  to_zval-to_metavalue v h = let (x, there, back) = value_Trip v h in rw (there, back)

  -- Any other value is refused as an invalid argument.
  to_metavalue-Refused :
      (v : Zval)
      → can_convert v ≡ false
      → Refused (to_metavalue to_utf8 float_to_int double_to_int v)
  to_metavalue-Refused v h = value_Refused v h
