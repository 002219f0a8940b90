-- ===== src/Http/Unpack/Ends.antt =====
-- When the loop of Inflate comes to its end, and when it never does.
use palmira.Prelude.{
  ℕ, zero, suc, ◌+◌, ◌-◌, ◌*◌, ◌^◌, ◌<◌, ◌≤◌, ◌≡◌, refl, ap, sym, ◌∙◌, ◌⊎◌, inl, inr, true, [],
  ◌++◌, length, take, drop, length-take, length-drop, length-append, Option, some, ok, ◌>>=◌, arith,
}
use mathlib.Core.List.{append_assoc}
use palmira.Values.{Bytes}
use palmira.Http.Unpack.Rounds.{
  goes_on, after_round-goes_on, IsInflater, take-drop, trichotomy, grown-above, grown-le,
  room_of-small, round, round_last,
}
use palmira.Http.Unpack.{
  Inflated, inflate_loop, inflate_stream, deflate_encoding, inflate_message, grown, room_of,
}

module _ {Z : Type 0} (inflate_init : Bytes → Option Z) (inflate : Z → ℕ → Inflated Z) where
  module _ {Holds : Z → Bytes → Type 0} (zlib : IsInflater inflate Holds) where
    abbrev Loops : ℕ → Type 0
    Loops fuel =
        (z : Z) (size : ℕ) (done : Bytes) (avail : ℕ) (content : Bytes)
        → Holds z content
        → length content < fuel
        → 0 < size
        → ((avail ≡ 0) × (length done ≤ size)) ⊎ (length done < size)
        → size * 2 < 2 ^ 32
        → 2 * (length done + length content) < 2 ^ 32
        → inflate_loop inflate_init inflate fuel z size done avail ≡ ok (done ++ content)

    -- A round after which the loop goes on with the content behind what there was room for.
    round_more :
        (fuel : ℕ)
        → Loops fuel
        → (z : Z) (size s : ℕ) (done : Bytes) (avail room : ℕ) (content : Bytes) → Holds z content
        → grown size avail ≡ s
        → room_of s (length done) ≡ room
        → length done + room ≡ s
        → 0 < room
        → room ≤ length content
        → length content < suc fuel
        → 2 * (length done + length content) < 2 ^ 32
        → (goes_on (inflate z room).ret ≡ true) × Holds (inflate z room).stream (drop room content)
        → inflate_loop inflate_init inflate (suc fuel) z size done avail ≡ ok (done ++ content)
    round_more fuel ih z size s done avail room content h g r e p l f c (k, t) =
        round inflate_init inflate zlib fuel z size s done avail room content h g r (omega arith)
        ∙ after_round-goes_on _ _ _ k
        ∙ ih (inflate z room).stream s (done ++ take room content)
            (room - length (take room content)) (drop room content) t
            (omega (arith, length-drop room content)) (omega arith)
            (inl (
              omega (arith, length-take room content),
              omega (arith, length-take room content, length-append done (take room content)),
            ))
            (omega arith)
            (omega (
              arith,
              length-drop room content,
              length-take room content,
              length-append done (take room content),
            ))
        ∙ ap ok (
            append_assoc done (take room content) (drop room content)
            ∙ ap (◌++◌ done) (take-drop room content))

    loop : (fuel : ℕ) → Loops fuel
    loop zero z size done avail content h f p a b c = absurd (omega arith)
    loop (suc fuel) z size done avail content h f p a b c =
        by_room (grown size avail) (room_of (grown size avail) (length done)) refl refl
          (grown-above size avail (length done) p a) (grown-le size avail) (loop fuel)
      where
        by_room :
            (s room : ℕ)
            → grown size avail ≡ s
            → room_of s (length done) ≡ room
            → length done < s
            → s ≤ size * 2
            → Loops fuel
            → inflate_loop inflate_init inflate (suc fuel) z size done avail ≡ ok (done ++ content)
        by_room s room g r w t ih = elim (trichotomy room (length content)) [
          | inl l ↦ more (omega arith) (zlib.continues z content room h l)
          | inr (inl e) ↦ elim (zlib.filled z content room h e) [
            | inl k ↦
                round_last inflate_init inflate zlib fuel z size s done avail room content h g r
                  (omega (arith, cut)) k (omega arith)
            | inr k ↦ more (omega arith) k
          ]
          | inr (inr l) ↦
              round_last inflate_init inflate zlib fuel z size s done avail room content h g r
                (omega (arith, cut)) (zlib.ends z content room h l) (omega arith)
        ]
          where
            cut : room ≡ s - length done
            cut = sym r ∙ room_of-small s (length done) (omega arith)

            more :
                room ≤ length content
                → (goes_on (inflate z room).ret ≡ true)
                  × Holds (inflate z room).stream (drop room content)
                → inflate_loop inflate_init inflate (suc fuel) z size done avail
                  ≡ ok (done ++ content)
            more l k =
                round_more fuel ih z size s done avail room content h g r (omega (arith, cut))
                  (omega (arith, cut)) l f c k

    inflate_stream-content :
        (fuel unset : ℕ) (source content : Bytes) (z : Z)
        → inflate_init source ≡ some z
        → Holds z content
        → 0 < length source
        → length source * 8 < 2 ^ 32
        → length content * 2 < 2 ^ 32
        → length content < fuel
        → inflate_stream inflate_init inflate fuel unset (some source) ≡ ok content
    unfolding inflate_stream
    inflate_stream-content fuel unset source content z i h p s c f =
        rw (i, inflate_stream)
          (loop fuel z (length source * 4) [] unset content h f (omega arith) (inr (omega arith))
            (omega arith) (omega arith))

    -- The body that is received in the compressed form is read back whole: the loop comes to its end, in
    -- no more rounds than there are bytes and one, and gives the content, whatever `avail_out` was before
    -- it. The body is not empty, and the sizes fit into 32 bits.
    pub inflate_message-content :
        (fuel unset : ℕ) (source content : Bytes) (z : Z)
        → inflate_init source ≡ some z
        → Holds z content
        → 0 < length source
        → length source * 8 < 2 ^ 32
        → length content * 2 < 2 ^ 32
        → length content < fuel
        → inflate_message inflate_init inflate fuel unset deflate_encoding (some source)
          ≡ ok (some content)
    unfolding inflate_message inflate_stream
    inflate_message-content fuel unset source content z i h p s c f =
        ap (λ r. r >>= λ bs. ok (some bs))
          (inflate_stream-content fuel unset source content z i h p s c f)
