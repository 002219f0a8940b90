-- ===== src/Grpc/Calls/Changes.antt =====
-- An update and a removal over gRPC against those of the service.
use palmira.Prelude.{ℕ, ◌≡◌, refl, true, false, ◌∷◌, Option, Result, ok}
use palmira.Prelude.Int.{ℤ}
use palmira.Values.{Bytes, Wide, Zmap, Metadata}
use palmira.Grpc.Messages.Trip.{can_convert_zmap, arrives_zmap}
use palmira.Grpc.Requests.{UpdateArgs, UpdateReport, convert_id, to_update, from_update}
use palmira.Grpc.Requests.Trip.{from_update-to_update}
use palmira.Grpc.Texts.{Nodes, Codepages, InsertArgs}
use palmira.Grpc.Calls.{serve_update, serve_remove, client_update, client_remove}
use palmira.Grpc.Calls.Over.{CanReport, reported, client_call-change}

module _ (to_utf8 : Wide → Bytes) (float_to_int double_to_int : ℕ → ℤ) (nought : ℤ)
    (left_behind : UpdateReport → Option Metadata) (c : Codepages) (get_length : Nodes → ℕ)
    (insert : InsertArgs → Result UpdateReport) (update : UpdateArgs → Result UpdateReport)
    (remove : Bytes → Result UpdateReport) where
  -- The update that arrives: the same identifier, and what arrives of the metadata.
  abbrev pub arrived_update : Bytes → Zmap → UpdateArgs
  arrived_update i m = record {
    object_id = i;
    metadata = arrives_zmap to_utf8 float_to_int double_to_int m;
  }

  abbrev pub over_update : UpdateArgs → Result UpdateReport
  over_update = client_update to_utf8 float_to_int double_to_int nought left_behind c get_length (
      serve_update to_utf8 float_to_int double_to_int nought left_behind c insert update remove
        false)

  abbrev pub over_remove : Bytes → Result UpdateReport
  over_remove = client_remove to_utf8 float_to_int double_to_int nought left_behind c get_length (
      serve_remove to_utf8 float_to_int double_to_int nought left_behind c insert update remove
        false)

  -- An update and a removal over gRPC, of a document with an identifier, are those of the service: the caller gets the report
  -- that the service gives, of the update for what arrives of metadata that can be converted; or one of an unknown exception,
  -- if the service throws. What the service reports can be put into a message.
  pub client_update-serve_update :
      (b : ℕ) (bs : Bytes) (m : Zmap)
      → can_convert_zmap m ≡ true
      → CanReport (update (arrived_update (b ∷ bs) m))
      → CanReport (remove (b ∷ bs))
      → (over_update (record { object_id = b ∷ bs; metadata = m })
          ≡ ok (
              reported to_utf8 float_to_int double_to_int nought left_behind
                (update (arrived_update (b ∷ bs) m))))
        × (over_remove (b ∷ bs)
            ≡ ok (reported to_utf8 float_to_int double_to_int nought left_behind (remove (b ∷ bs))))
  unfolding client_update serve_update client_remove serve_remove convert_id
  client_update-serve_update b bs m h u r = (
    client_call-change to_utf8 float_to_int double_to_int nought left_behind
        (to_update to_utf8 float_to_int double_to_int) from_update update
        (record { object_id = b ∷ bs; metadata = m }) (arrived_update (b ∷ bs) m)
        (from_update-to_update to_utf8 float_to_int double_to_int b bs m h) u,
    client_call-change to_utf8 float_to_int double_to_int nought left_behind convert_id convert_id
        remove (b ∷ bs) (b ∷ bs) refl r,
  )
