-- ===== src/Zip/Stream/Bounds.antt =====
-- The stream stays within its data.
use palmira.Prelude.{
  true, ◌⊎◌, ℕ, ◌+◌, ◌-◌, ◌%◌, ◌^◌, min, ◌≤◌, ◌<◌, ◌≡◌, refl, inl, inr, ltb, ltb_false→le,
  le→ltb_false, Bool-cases, length, take, drop, none, some, arith,
}
use palmira.Zip.Stream.{
  Stm, Origin, seek_set, seek_cur, seek_end, other_origin, read_count, zip_read, zip_seek, erange,
}

-- The position is within the data, whose length is one of `size_t`.
pub record InBounds (s : Stm) : Type 0 where
  pub position : s.cpos ≤ length s.data_
  pub size : length s.data_ < 2 ^ 64

read_count_lem :
    (s : Stm) (len : ℕ) → InBounds s → read_count s len ≡ min (length s.data_ - s.cpos) len
unfolding read_count
read_count_lem s len b = rw (wrapped (length s.data_) s.cpos b.position b.size)
  where
    wrapped : (n c : ℕ) → c ≤ n → n < 2 ^ 64 → (n + 2 ^ 64 - c) % 2 ^ 64 ≡ n - c
    wrapped n c h k = omega arith

-- A read is defined and gives what the data hold from the position on, as much as is asked for or is
-- left, and the position moves on by as much and stays within the data.
zip_read-InBounds :
    (s : Stm) (len : ℕ)
    → InBounds s
    → (s' : Stm) × (zip_read s len
        ≡ some (s', take (min (length s.data_ - s.cpos) len) (drop s.cpos s.data_)))
      × (s'.cpos ≡ s.cpos + min (length s.data_ - s.cpos) len)
      × (s'.data_ ≡ s.data_)
      × InBounds s'
unfolding zip_read
zip_read-InBounds s len b = (
  record s { cpos = s.cpos + min (length s.data_ - s.cpos) len; nerr = 0 },
  rw (read_count_lem s len b, le→ltb_false _ _ within, zip_read),
  refl,
  refl,
  record { position = within; size = b.size },
)
  where
    within : s.cpos + min (length s.data_ - s.cpos) len ≤ length s.data_
    within = omega (arith, b.position)

-- The seek from the start: past the end it is refused, with the error of a range, and else done.
abbrev pub SeeksFromStart : Stm → ℕ → Type 0
SeeksFromStart s pos =
    ((length s.data_ < pos)
      × ((zip_seek s pos seek_set).1 ≡ none)
      × ((zip_seek s pos seek_set).0.cpos ≡ s.cpos)
      × ((zip_seek s pos seek_set).0.nerr ≡ erange))
    ⊎ ((pos ≤ length s.data_)
        × ((zip_seek s pos seek_set).1 ≡ some 0)
        × ((zip_seek s pos seek_set).0.cpos ≡ pos)
        × ((zip_seek s pos seek_set).0.nerr ≡ s.nerr))

zip_seek-InBounds :
    (s : Stm) (pos : ℕ) (origin : Origin)
    → InBounds s
    → InBounds (zip_seek s pos origin).0
      × ((zip_seek s pos origin).0.data_ ≡ s.data_)
      × ((zip_seek s pos origin).1 ≡ none → (zip_seek s pos origin).0.cpos ≡ s.cpos)
      × SeeksFromStart s pos
unfolding zip_seek
zip_seek-InBounds s pos origin b = (bounded origin, same origin, refused origin, from_start)
  where
    bounded : (o : Origin) → InBounds (zip_seek s pos o).0
    bounded seek_set = elim (Bool-cases (ltb (length s.data_) pos)) [
      | inl e ↦ rw (e, zip_seek) (record { position = b.position; size = b.size })
      | inr e ↦ rw (e, zip_seek) (record { position = ltb_false→le _ _ e; size = b.size })
    ]
    bounded seek_cur = b
    bounded seek_end = record { position = omega arith; size = b.size }
    bounded other_origin = record { position = b.position; size = b.size }

    same : (o : Origin) → (zip_seek s pos o).0.data_ ≡ s.data_
    same seek_set = elim (Bool-cases (ltb (length s.data_) pos)) [
      | inl e ↦ rw (e, zip_seek) refl
      | inr e ↦ rw (e, zip_seek) refl
    ]
    same seek_cur = refl
    same seek_end = refl
    same other_origin = refl

    set_refused : (zip_seek s pos seek_set).1 ≡ none → (zip_seek s pos seek_set).0.cpos ≡ s.cpos
    set_refused = elim (Bool-cases (ltb (length s.data_) pos)) [
      | inl e ↦ rw (e, zip_seek) (λ h. refl)
      | inr e ↦ rw (e, zip_seek) (λ h. absurd (cc h))
    ]

    refused : (o : Origin) → (zip_seek s pos o).1 ≡ none → (zip_seek s pos o).0.cpos ≡ s.cpos
    refused seek_set h = set_refused h
    refused seek_cur h = refl
    refused seek_end h = absurd (cc h)
    refused other_origin h = refl

    from_start : SeeksFromStart s pos
    from_start = elim (Bool-cases (ltb (length s.data_) pos)) [
      | inl e ↦ inl (past e, rw (e, zip_seek) refl, rw (e, zip_seek) refl, rw (e, zip_seek) refl)
      | inr e ↦
          inr (
            ltb_false→le _ _ e,
            rw (e, zip_seek) refl,
            rw (e, zip_seek) refl,
            rw (e, zip_seek) refl,
          )
    ]
      where
        past : ltb (length s.data_) pos ≡ true → length s.data_ < pos
        past e = ground arith

-- Of a stream within its data: a read is defined and gives what the data hold from the position on, as much
-- as is asked for or is left, and moves the position by as much, within the data. A seek from the start
-- to a position past the end fails with `erange` and moves nothing, and one to any other position
-- succeeds and leaves the stream there, with no error set; a seek of any origin leaves the stream
-- within its data, which stay as they are, and moves nothing if it fails.
pub stream-InBounds :
    (s : Stm) (len pos : ℕ) (origin : Origin)
    → InBounds s
    → ((s' : Stm) × (zip_read s len
          ≡ some (s', take (min (length s.data_ - s.cpos) len) (drop s.cpos s.data_)))
        × (s'.cpos ≡ s.cpos + min (length s.data_ - s.cpos) len)
        × (s'.data_ ≡ s.data_)
        × InBounds s')
      × InBounds (zip_seek s pos origin).0
      × ((zip_seek s pos origin).0.data_ ≡ s.data_)
      × ((zip_seek s pos origin).1 ≡ none → (zip_seek s pos origin).0.cpos ≡ s.cpos)
      × SeeksFromStart s pos
stream-InBounds s len pos origin b =
    let (kept, same, refused, from_start) = zip_seek-InBounds s pos origin b in
    (zip_read-InBounds s len b, kept, same, refused, from_start)
