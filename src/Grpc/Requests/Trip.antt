-- ===== src/Grpc/Requests/Trip.antt =====
-- What becomes of a request and of a report on its way through a message.
use palmira.Prelude.{ℕ, ◌≡◌, refl, true, ◌∷◌, Option, none, some, ok, ◌>>=◌}
use palmira.Prelude.Int.{ℤ}
use palmira.Values.{Bytes, Wide, Zmap, no_entry, entry, Metadata}
use palmira.Grpc.Messages.Trip.{can_convert_zmap, arrives_zmap, map_Trip}
use palmira.Grpc.Requests.{
  check_id, read_metadata, write_metadata, to_update, from_update, to_report, from_report,
}

module _ (to_utf8 : Wide → Bytes) (float_to_int double_to_int : ℕ → ℤ) where
  abbrev pub OptionTrip : Zmap → Type 0
  OptionTrip m =
      (d : Option Metadata) × (write_metadata to_utf8 float_to_int double_to_int m ≡ ok d)
      × (read_metadata d ≡ ok (arrives_zmap to_utf8 float_to_int double_to_int m))

  pub metadata_Trip : (m : Zmap) → can_convert_zmap m ≡ true → OptionTrip m
  unfolding write_metadata read_metadata
  metadata_Trip no_entry h = (none, refl, refl)
  metadata_Trip (entry k v m) h =
      let (d, there, back) = map_Trip to_utf8 float_to_int double_to_int (entry k v m) h in
      (some d, rw there, back)

  -- An update whose identifier is not empty and whose metadata can be converted goes through its
  -- message: the same identifier arrives, and of the metadata what arrives of each value.
  pub from_update-to_update :
      (b : ℕ) (bs : Bytes) (m : Zmap)
      → can_convert_zmap m ≡ true
      → (to_update to_utf8 float_to_int double_to_int (record { object_id = b ∷ bs; metadata = m })
          >>= from_update)
        ≡ ok (record {
          object_id = b ∷ bs;
          metadata = arrives_zmap to_utf8 float_to_int double_to_int m;
        })
  unfolding to_update from_update check_id
  from_update-to_update b bs m h = let (d, there, back) = metadata_Trip m h in rw (there, back)

  -- A report with a status and with metadata that can be converted, or none, goes through its message
  -- with its status as it is.
  from_report-to_report :
      (nought code : ℤ) (info : Bytes) (m : Zmap)
      → can_convert_zmap m ≡ true
      → (to_report to_utf8 float_to_int double_to_int nought
            (record { status = some (code, info); metadata = some m })
          >>= from_report)
        ≡ ok (record {
          status = some (code, info);
          metadata = some (arrives_zmap to_utf8 float_to_int double_to_int m);
        })
  unfolding to_report from_report
  from_report-to_report nought code info m h =
      let (d, there, back) = map_Trip to_utf8 float_to_int double_to_int m h in rw (there, back)
