-- ===== src/Grpc/Texts/Trip.antt =====
-- What becomes of a document on its way through a message.
use palmira.Prelude.{
  ℕ, ◌≡◌, refl, Bool, true, false, ◌&&◌, ◌||◌, ◌==◌, Bool-cases, inl, inr, ◌∷◌, if◌then◌else◌, ok,
  ◌>>=◌,
}
use palmira.Values.{Bytes, Wide, Zmap}
use palmira.Prelude.Int.{ℤ}
use palmira.Document.{wide, coded}
use palmira.Grpc.Messages.Trip.{can_convert_zmap, arrives_zmap}
use palmira.Grpc.Requests.{check_id}
use palmira.Grpc.Requests.Trip.{metadata_Trip}
use palmira.Grpc.Texts.{
  Nodes, no_node, paragraph, tagged, Document, no_element, text_element, mkup_element, Codepages,
  add_paragraph, write_document, read_document, write_text, to_insert, from_insert,
}

module _ (c : Codepages) where
  -- The encoding of every paragraph is known.
  abbrev pub can_write : Nodes → Bool
  can_write no_node = true
  can_write (paragraph (wide w) rest) = can_write rest
  can_write (paragraph (coded encoding s) rest) =
      (c.is_named encoding || (encoding == c.utf8)) && can_write rest
  can_write (tagged tag inside rest) = can_write inside && can_write rest

  -- The same document with every paragraph in UTF-8.
  abbrev pub in_utf8 : Nodes → Nodes
  in_utf8 no_node = no_node
  in_utf8 (paragraph (wide w) rest) = paragraph (coded c.utf8 (c.from_wide w)) (in_utf8 rest)
  in_utf8 (paragraph (coded encoding s) rest) =
      paragraph (coded c.utf8 (if c.is_named encoding then c.from_coded encoding s else s))
        (in_utf8 rest)
  in_utf8 (tagged tag inside rest) = tagged tag (in_utf8 inside) (in_utf8 rest)

  both : (a b : Bool) → (a && b) ≡ true → (a ≡ true) × (b ≡ true)
  both true b h = (refl, h)
  both false b h = absurd (cc h)

  abbrev TextTrip : Nodes → Type 0
  TextTrip t = (d : Document) × (write_document c t ≡ ok d) × (read_document c d ≡ in_utf8 t)

  known :
      (encoding : ℕ) (s : Bytes)
      → (c.is_named encoding || (encoding == c.utf8)) ≡ true
      → add_paragraph c (coded encoding s)
        ≡ ok (if c.is_named encoding then c.from_coded encoding s else s)
  unfolding add_paragraph
  known encoding s h = elim (Bool-cases (c.is_named encoding)) [
    | inl e ↦ rw (e, add_paragraph)
    | inr e ↦ elim (Bool-cases (encoding == c.utf8)) [
      | inl k ↦ rw (e, k, add_paragraph)
      | inr k ↦ absurd (neither e k)
    ]
  ]
    where
      neither : c.is_named encoding ≡ false → (encoding == c.utf8) ≡ false → ⊥
      neither e k = cc (e, k, h)

  text_Trip : (t : Nodes) → can_write t ≡ true → TextTrip t
  unfolding write_document read_document add_paragraph
  text_Trip no_node h = (no_element, refl, refl)
  text_Trip (paragraph (wide w) rest) h =
      let (d, there, back) = text_Trip rest h in
      (text_element (c.from_wide w) d, rw there, rw (back, read_document))
  text_Trip (paragraph (coded encoding s) rest) h =
      let (hp, hr) = both _ _ h in
      let (d, there, back) = text_Trip rest hr in
      (
        text_element (if c.is_named encoding then c.from_coded encoding s else s) d,
        rw (known encoding s hp, there, write_document),
        rw (back, read_document),
      )
  text_Trip (tagged tag inside rest) h =
      let (hi, hr) = both _ _ h in
      let (i, there', back') = text_Trip inside hi in
      let (d, there, back) = text_Trip rest hr in
      (mkup_element tag i d, rw (there', there), rw (back', back, read_document))

  -- An insertion whose identifier is not empty, whose metadata can be converted and whose text is not
  -- empty, with encodings that are known, goes through its message: the same identifier arrives, the
  -- same document with every paragraph in UTF-8, and of the metadata what arrives of each value.
  pub from_insert-to_insert :
      (to_utf8 : Wide → Bytes) (float_to_int double_to_int : ℕ → ℤ) (get_length : Nodes → ℕ) (b : ℕ)
      (bs : Bytes) (m : Zmap) (t : Nodes)
      → can_convert_zmap m ≡ true
      → can_write t ≡ true
      → (get_length t == 0) ≡ false
      → (to_insert c to_utf8 float_to_int double_to_int get_length
            (record { object_id = b ∷ bs; metadata = m; text = t })
          >>= from_insert c)
        ≡ ok (record {
          object_id = b ∷ bs;
          metadata = arrives_zmap to_utf8 float_to_int double_to_int m;
          text = in_utf8 t;
        })
  unfolding to_insert from_insert check_id write_text
  from_insert-to_insert to_utf8 float_to_int double_to_int get_length b bs m t hm ht full =
      let (x, there, back) = metadata_Trip to_utf8 float_to_int double_to_int m hm in
      let (d, there', back') = text_Trip t ht in rw (there, full, there', back, back')
