-- ===== src/Grpc/Calls/Over.antt =====
-- A call over gRPC against a call of the service.
use palmira.Prelude.{
  ℕ, ◌≡◌, refl, ap, sym, ◌∙◌, inl, inr, Bool, true, false, [], ◌∷◌, Option, none, some, ◌==◌,
  Result-cases, Result, ok, err, ◌>>=◌,
}
use palmira.Prelude.Int.{ℤ}
use palmira.Values.{Bytes, Wide, Zmap, Metadata}
use palmira.Grpc.Messages.{to_metadata, to_zmap}
use palmira.Grpc.Messages.Trip.{can_convert_zmap, arrives_zmap, map_Trip}
use palmira.Grpc.Requests.{UpdateArgs, UpdateReport, to_report, from_report}
use palmira.Grpc.Texts.{Nodes, Codepages, InsertArgs, to_insert, from_insert}
use palmira.Grpc.Texts.Trip.{can_write, in_utf8, from_insert-to_insert}
use palmira.Grpc.Calls.{
  unknown_exception, status_ok, done, client_call, respond, change, serve_insert, client_insert,
}

-- The report of a service can be put into a message.
abbrev pub can_report : Option Zmap → Bool
can_report none = true
can_report (some m) = can_convert_zmap m

abbrev pub CanReport : Result UpdateReport → Type 0
CanReport (err x) = Unit
CanReport (ok report) = can_report report.metadata ≡ true

module _ (to_utf8 : Wide → Bytes) (float_to_int double_to_int : ℕ → ℤ) (nought : ℤ)
    (left_behind : UpdateReport → Option Metadata) where
  abbrev pub arrived_metadata : Option Zmap → Option Zmap
  arrived_metadata none = none
  arrived_metadata (some m) = some (arrives_zmap to_utf8 float_to_int double_to_int m)

  abbrev pub status_or : Option (ℤ × Bytes) → ℤ × Bytes
  status_or none = (nought, [])
  status_or (some st) = st

  -- What the caller gets of what the service does: its report, or one of its exception.
  abbrev pub reported : Result UpdateReport → UpdateReport
  reported (err x) = record { status = some unknown_exception; metadata = none }
  reported (ok report) = record {
    status = some (status_or report.status);
    metadata = arrived_metadata report.metadata;
  }

  status_same :
      (st : Option (ℤ × Bytes)) → elim st [ none ↦ (nought, []) | some x ↦ x ] ≡ status_or st
  status_same none = refl
  status_same (some x) = refl

  respond-some :
      (st : Option (ℤ × Bytes)) (m : Zmap) (d : Metadata)
      → to_metadata to_utf8 float_to_int double_to_int m ≡ ok d
      → respond to_utf8 float_to_int double_to_int nought left_behind
          (ok (record { status = st; metadata = some m }))
        ≡ record { status = some (status_or st); metadata = some d }
  unfolding respond to_report
  respond-some none m d e = rw (e, respond) refl
  respond-some (some st) m d e = rw (e, respond) refl

  done-some :
      (st : ℤ × Bytes) (d : Metadata) (m : Zmap)
      → to_zmap d ≡ ok m
      → done status_ok (record { status = some st; metadata = some d })
        ≡ ok (record { status = some st; metadata = some m })
  unfolding done from_report
  done-some st d m e = rw (e, done) refl

  done-report :
      (st : Option (ℤ × Bytes)) (m : Option Zmap)
      → can_report m ≡ true
      → done status_ok (
          respond to_utf8 float_to_int double_to_int nought left_behind
            (ok (record { status = st; metadata = m })))
        ≡ ok (record { status = some (status_or st); metadata = arrived_metadata m })
  unfolding done respond to_report from_report
  done-report none none h = refl
  done-report (some st) none h = refl
  done-report st (some m) h =
      let (d, there, back) = map_Trip to_utf8 float_to_int double_to_int m h in
      ap (done status_ok) (respond-some st m d there) ∙ done-some (status_or st) d _ back

  done-respond :
      (r : Result UpdateReport)
      → CanReport r
      → done status_ok (respond to_utf8 float_to_int double_to_int nought left_behind r)
        ≡ ok (reported r)
  unfolding done respond from_report
  done-respond (err x) h = refl
  done-respond (ok report) h = done-report report.status report.metadata h

  -- Over any two conversions of which the second takes back what the first makes.
  pub client_call-change :
      {A M : Type 0} (there : A → Result M) (back : M → Result A) (call : A → Result UpdateReport)
      (args a : A)
      → (there args >>= back) ≡ ok a
      → CanReport (call a)
      → client_call there
          (change to_utf8 float_to_int double_to_int nought left_behind back call false)
          args
        ≡ ok (reported (call a))
  unfolding client_call change
  client_call-change there back call args a h r = elim (Result-cases (there args)) [
    | inr (x, e) ↦ cc (h, e)
    | inl (m, e) ↦ rw (e, sent m e) (done-respond (call a) r)
  ]
    where
      sent : (m : _) → there args ≡ ok m → back m ≡ ok a
      sent m e = sym (ap (λ x. x >>= back) e) ∙ h

  -- An insertion over gRPC is the insertion of the service: for a text that is not empty, in encodings that are
  -- known, and metadata that can be converted, with an identifier that is not empty, the caller gets
  -- the report that the service gives for the same identifier, the text in UTF-8 and what arrives of
  -- the metadata, if that report can be put into a message; or one of an unknown exception, if the
  -- service throws.
  pub client_insert-serve_insert :
      (c : Codepages) (get_length : Nodes → ℕ) (insert : InsertArgs → Result UpdateReport)
      (update : UpdateArgs → Result UpdateReport) (remove : Bytes → Result UpdateReport) (b : ℕ)
      (bs : Bytes) (m : Zmap) (t : Nodes)
      → can_convert_zmap m ≡ true
      → can_write c t ≡ true
      → (get_length t == 0) ≡ false
      → CanReport (
          insert (record {
            object_id = b ∷ bs;
            metadata = arrives_zmap to_utf8 float_to_int double_to_int m;
            text = in_utf8 c t;
          }))
      → client_insert to_utf8 float_to_int double_to_int nought left_behind c get_length
          (serve_insert to_utf8 float_to_int double_to_int nought left_behind c insert update remove
            false)
          (record { object_id = b ∷ bs; metadata = m; text = t })
        ≡ ok (
            reported (
              insert (record {
                object_id = b ∷ bs;
                metadata = arrives_zmap to_utf8 float_to_int double_to_int m;
                text = in_utf8 c t;
              })))
  unfolding client_insert serve_insert
  client_insert-serve_insert c get_length insert update remove b bs m t hm ht full r =
      client_call-change (to_insert c to_utf8 float_to_int double_to_int get_length) (from_insert c)
        insert (record { object_id = b ∷ bs; metadata = m; text = t })
        (record {
          object_id = b ∷ bs;
          metadata = arrives_zmap to_utf8 float_to_int double_to_int m;
          text = in_utf8 c t;
        })
        (from_insert-to_insert c to_utf8 float_to_int double_to_int get_length b bs m t hm ht full)
        r
