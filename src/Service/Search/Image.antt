-- ===== src/Service/Search/Image.antt =====
-- What a stored document gives back: its metadata, and its image to the quotation machine.
use palmira.Prelude.{
  ℕ, suc, ◌≡◌, ◌≢◌, refl, ◌∙◌, subst, inl, inr, true, List, [], ◌∷◌, Option, none, some, length,
  Result, ok, err, Exception, Result-cases, if◌then◌else◌,
}
use palmira.Service.Zip.{zip_buf, unpack}
use palmira.Service.Zip.Trip.{IsLossless, unpack-zip_buf}
use palmira.Service.Store.{
  Field, ft, ip, im, Bytes, Entity, Index, Tools, State, Report, InsertArgs, load_metadata,
  dump_metadata, make_bundle, prepare, insert, caught_insert, stored, updated,
}
use palmira.Service.Store.Laws.{IsStore, succeeded, caught_insert-failed}
use palmira.Service.Search.{read_field, read_text, read_markup, quotate}

-- What mtc's maps document: a map read back is the map, and is never empty when written; a field is
-- found under its name, and only if it is there.
pub record IsCodec {M X F C : Type 0} (tools : Tools M X F C) : Type 0 where
  pub fetches : (m : M) → tools.fetch (tools.serialize m) ≡ m
  pub written : (m : M) → tools.serialize m ≢ []
  pub finds :
      (k : Field) (v : Bytes) (r : List (Field × Bytes))
      → tools.find (tools.pack ((k, v) ∷ r)) k ≡ some (true, v)
  pub passes :
      (k k' : Field) (v : Bytes) (r : List (Field × Bytes))
      → k ≢ k'
      → tools.find (tools.pack ((k', v) ∷ r)) k ≡ tools.find (tools.pack r) k
  pub misses : (k : Field) → tools.find (tools.pack []) k ≡ none
  pub lossless : IsLossless tools.zlib

module _ {S M X F C : Type 0} (ix : Index S C) (tools : Tools M X F C) (law : IsStore ix)
    (codec : IsCodec tools) where
  load-dump : (m : M) → load_metadata ix tools (some (dump_metadata ix tools m).1) ≡ m
  unfolding load_metadata dump_metadata
  load-dump m = at (tools.serialize m) refl
    where
      at : (bs : Bytes) → tools.serialize m ≡ bs → load_metadata ix tools (some bs) ≡ m
      at [] e = absurd (codec.written m e)
      at (b ∷ bs) e = subst (λ x. tools.fetch x ≡ m) e (codec.fetches m)

  ip-ft : Field.ip ≢ ft
  ip-ft e = cc e

  im-ft : Field.im ≢ ft
  im-ft e = cc e

  ip-im : Field.ip ≢ im
  ip-im e = cc e

  -- A field of the bundles that Insert makes, when it is read.
  first_field :
      (k : Field) (v : Bytes) (r : List (Field × Bytes))
      → read_field tools (tools.pack ((k, v) ∷ r)) k ≡ ok (some v)
  unfolding read_field
  first_field k v r = rw (codec.finds k v r, read_field)

  next_field :
      (k k' : Field) (v : Bytes) (r : List (Field × Bytes))
      → k ≢ k'
      → read_field tools (tools.pack ((k', v) ∷ r)) k ≡ read_field tools (tools.pack r) k
  unfolding read_field
  next_field k k' v r h = rw (codec.passes k k' v r h, read_field)

  no_field : (k : Field) → read_field tools (tools.pack []) k ≡ ok none
  unfolding read_field
  no_field k = rw (codec.misses k, read_field)

  markup_lem :
      (markup : Bytes) (r : List (Field × Bytes))
      → read_markup tools (tools.pack ((ft, markup) ∷ r)) ≡ ok markup
  unfolding read_markup
  markup_lem markup r = rw (first_field ft markup r, read_markup)

  packed_text :
      (markup packed : Bytes) (fuel : ℕ)
      → read_text tools fuel (tools.pack ((ft, markup) ∷ (ip, packed) ∷ []))
        ≡ unpack tools.zlib fuel packed
  unfolding read_text
  packed_text markup packed fuel =
      rw (next_field ip ft markup ((ip, packed) ∷ []) ip-ft ∙ first_field ip packed [], read_text)

  plain_text :
      (markup limage : Bytes) (fuel : ℕ)
      → read_text tools fuel (tools.pack ((ft, markup) ∷ (im, limage) ∷ [])) ≡ ok limage
  unfolding read_text
  plain_text markup limage fuel = rw (
    next_field ip ft markup ((im, limage) ∷ []) ip-ft
        ∙ next_field ip im limage [] ip-im
        ∙ no_field ip,
    next_field im ft markup ((im, limage) ∷ []) im-ft ∙ first_field im limage [],
    read_text,
  )

  -- The bundle that Insert makes of markup and image is read back as both of them.
  bundle_lem :
      (markup limage : Bytes)
      → (read_markup tools (make_bundle ix tools markup limage) ≡ ok markup)
        × (read_text tools (suc (length limage)) (make_bundle ix tools markup limage) ≡ ok limage)
  unfolding make_bundle
  bundle_lem markup limage = elim (Result-cases (zip_buf tools.zlib limage)) [
    | inl (packed, h) ↦
        rw (h, make_bundle)
          (
            markup_lem markup ((ip, packed) ∷ []),
            packed_text markup packed (suc (length limage))
                ∙ unpack-zip_buf tools.zlib codec.lossless limage packed h,
          )
    | inr (e, h) ↦
        rw (h, make_bundle)
          (markup_lem markup ((im, limage) ∷ []), plain_text markup limage (suc (length limage)))
  ]

  module _ {A Q : Type 0} (quote : Bytes → Bytes → A → Q) (abstr : A) where
    -- A quotation of a text that is not empty.
    abbrev pub quotation : Bytes → Bytes → Option Q
    quotation [] markup = none
    quotation (b ∷ bs) markup = some (quote (b ∷ bs) markup abstr)

    quotate_of :
        (fuel : ℕ) (e : Entity) (bundle markup limage : Bytes)
        → e.bundle ≡ some bundle
        → read_markup tools bundle ≡ ok markup
        → read_text tools fuel bundle ≡ ok limage
        → quotate tools fuel quote (some e) abstr ≡ ok (quotation limage markup)
    unfolding quotate
    quotate_of fuel e bundle markup [] h m t = rw (h, m, t, quotate)
    quotate_of fuel e bundle markup (b ∷ bs) h m t = rw (h, m, t, quotate)

  -- What `prepare` has done if it has not thrown.
  abbrev pub Image : State S F → InsertArgs M X → Bytes → Bytes → Type 0
  Image s args markup limage =
      tools.image s.fields
        (if tools.is_wide args.textview then args.textview else tools.copy_utf16 args.textview)
      ≡ ok (markup, limage)

  prepared :
      (s : State S F) (args : InsertArgs M X) (bundle : Bytes) (c : C)
      → prepare ix tools s args ≡ ok (bundle, c)
      → (markup : Bytes) × (limage : Bytes) × Image s args markup limage
        × (bundle ≡ make_bundle ix tools markup limage)
  unfolding prepare
  prepared s args bundle c h =
      let text : X =
        if tools.is_wide args.textview then args.textview else tools.copy_utf16 args.textview in
      elim (Result-cases (tools.image s.fields text)) [
        | inr (e, k) ↦ absurd (thrown e k)
        | inl ((markup, limage), k) ↦ elim (Result-cases (tools.contents s.fields text)) [
          | inr (e, m) ↦ absurd (no_contents markup limage e k m)
          | inl (c', m) ↦ (markup, limage, k, made markup limage c' k m)
        ]
      ]
    where
      text' : X
      text' = if tools.is_wide args.textview then args.textview else tools.copy_utf16 args.textview

      thrown : (e : Exception) → tools.image s.fields text' ≡ err e → ⊥
      thrown e k = cc (run, h)
        where
          run : prepare ix tools s args ≡ err e
          run = rw (k, prepare)

      no_contents :
          (markup limage : Bytes) (e : Exception)
          → tools.image s.fields text' ≡ ok (markup, limage)
          → tools.contents s.fields text' ≡ err e
          → ⊥
      no_contents markup limage e k m = cc (run, h)
        where
          run : prepare ix tools s args ≡ err e
          run = rw (k, m, prepare)

      made :
          (markup limage : Bytes) (c' : C)
          → tools.image s.fields text' ≡ ok (markup, limage)
          → tools.contents s.fields text' ≡ ok c'
          → bundle ≡ make_bundle ix tools markup limage
      made markup limage c' k m = cc (run, h)
        where
          run : prepare ix tools s args ≡ ok (make_bundle ix tools markup limage, c')
          run = rw (k, m, prepare)

  module _ {A Q : Type 0} (quote : Bytes → Bytes → A → Q) where
    -- The document is stored: its metadata can be loaded, and its quotations are those of its image.
    abbrev pub Stored : State S F → InsertArgs M X → State S F × Result (Report M) → Type 0
    Stored s args (s', r) =
        (e : Entity) × (ix.get_entity s'.index args.object_id ≡ some e)
        × (r ≡ ok (record { code = 0; info = "OK"; metadata = some args.metadata }))
        × (load_metadata ix tools e.extra ≡ args.metadata)
        × (markup : Bytes) × (limage : Bytes) × Image s args markup limage
        × ((abstr : A)
            → quotate tools (suc (length limage)) quote (some e) abstr
              ≡ ok (quotation quote abstr limage markup))

    -- An insertion that reports success has stored the document: the index holds it under its
    -- identifier; the report has the metadata given, and so has the document; and a quotation of the
    -- document is made of the very text image and markup that were made of the inserted text, whether
    -- the image was compressed or not.
    pub insert-Stored :
        (args : InsertArgs M X) (s : State S F)
        → succeeded (insert ix tools args s).1 ≡ true
        → Stored s args (insert ix tools args s)
    unfolding insert stored updated
    insert-Stored args s h = elim (Result-cases (prepare ix tools s args)) [
      | inr (e, k) ↦ absurd (cc (caught_insert-failed M e, unprepared e k, h))
      | inl ((bundle, c), k) ↦
          elim (Result-cases
            (ix.set_entity s.index args.object_id (some c) (dump_metadata ix tools args.metadata).1
              bundle).1) [
                | inr (e, m) ↦ absurd (cc (caught_insert-failed M e, refused bundle c e k m, h))
                | inl (d, m) ↦
                    let (at, extra, packed, id) =
                      law.set_done s.index args.object_id (some c) _ bundle d m in
                    let (markup, limage, image, same) = prepared s args bundle c k in
                    rw (k, m, insert, stored)
                      (
                        d,
                        at,
                        reported d (loaded d extra),
                        loaded d extra,
                        markup,
                        limage,
                        image,
                        λ abstr.
                            quotate_of quote abstr (suc (length limage)) d bundle markup limage
                              packed (rw same (bundle_lem markup limage).0)
                              (rw same (bundle_lem markup limage).1),
                      )
              ]
    ]
      where
        unprepared :
            (e : Exception)
            → prepare ix tools s args ≡ err e
            → succeeded (insert ix tools args s).1 ≡ succeeded (caught_insert {M = M} (err e))
        unprepared e k = rw (k, insert)

        refused :
            (bundle : Bytes) (c : C) (e : Exception)
            → prepare ix tools s args ≡ ok (bundle, c)
            → (ix.set_entity s.index args.object_id
                (some c)
                (dump_metadata ix tools args.metadata).1
                bundle).1
              ≡ err e
            → succeeded (insert ix tools args s).1 ≡ succeeded (caught_insert {M = M} (err e))
        refused bundle c e k m = rw (k, m, insert, stored)

        loaded :
            (d : Entity)
            → d.extra ≡ some (dump_metadata ix tools args.metadata).1
            → load_metadata ix tools d.extra ≡ args.metadata
        loaded d extra = rw extra (load-dump args.metadata)

        reported :
            (d : Entity)
            → load_metadata ix tools d.extra ≡ args.metadata
            → caught_insert (ok (updated ix tools d))
              ≡ ok (record { code = 0; info = "OK"; metadata = some args.metadata })
        reported d e = rw e
