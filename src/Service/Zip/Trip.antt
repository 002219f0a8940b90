-- ===== src/Service/Zip/Trip.antt =====
-- What is compressed and unpacked again.
use palmira.Prelude.{
  ℕ, zero, suc, ◌+◌, ◌-◌, ◌*◌, ◌/◌, ◌<◌, ◌≤◌, ◌≡◌, List, none, some, ltb, ◌%◌, ◌^◌, true, false,
  Bool, length, Bool-cases, Option-cases, inl, inr, sym, ap, ◌∙◌, Exception, if◌then◌else◌, ltb→lt,
  ltb_false→le, arith, ok, err,
}
use palmira.Service.Zip.{Zlib, z_ok, z_buf_error, zip_buf, unpack_loop, unpack}

-- What zlib documents: what was compressed is not empty, and comes back with room enough, and else the
-- buffer is reported too small.
pub record IsLossless (z : Zlib) : Type 0 where
  pub packed : (src out : List ℕ) → z.compress src ≡ some out → 0 < length out
  pub inflates :
      (src out : List ℕ) (room : ℕ)
      → z.compress src ≡ some out
      → length src ≤ room
      → z.uncompress room out ≡ z_ok src
  pub too_small :
      (src out : List ℕ) (room : ℕ)
      → z.compress src ≡ some out
      → room < length src
      → z.uncompress room out ≡ z_buf_error

module _ (z : Zlib) (l : IsLossless z) where
  unpack_loop-Trip :
      (fuel room : ℕ) (src out : List ℕ)
      → z.compress src ≡ some out
      → 2 ≤ room
      → length src ≤ room + fuel
      → unpack_loop z (suc fuel) room out ≡ ok src
  unfolding unpack_loop
  unpack_loop-Trip zero room src out h large enough =
      rw (l.inflates src out room h (omega arith), unpack_loop)
  unpack_loop-Trip (suc fuel) room src out h large enough =
      elim (Bool-cases (ltb room (length src))) [
        | inl big ↦
            rw (l.too_small src out room h (ltb→lt _ _ big), unpack_loop)
              (unpack_loop-Trip fuel (room * 3 / 2) src out h (omega arith)
                (omega (arith, ltb→lt _ _ big)))
        | inr fits ↦ rw (l.inflates src out room h (ltb_false→le _ _ fits), unpack_loop)
      ]

  taken :
      (x : Exception) (b : Bool) (packed out : List ℕ)
      → (if b then err x else ok packed) ≡ ok out
      → packed ≡ out
  taken x true packed out h = absurd (cc h)
  taken x false packed out h = cc h

  pub zip_buf-compress : (src out : List ℕ) → zip_buf z src ≡ ok out → z.compress src ≡ some out
  unfolding zip_buf
  zip_buf-compress src out h = elim (Option-cases (z.compress src)) [
    | inl e ↦ absurd (cc (failed e, h))
    | inr (packed, e) ↦
        e
        ∙ ap some (
            taken (Exception.range_error "ignore compression")
              (ltb ((length src + 2 ^ 64 - 100) % 2 ^ 64) (length packed)) packed out
              (sym (tested packed e) ∙ h))
  ]
    where
      failed :
          z.compress src ≡ none → zip_buf z src ≡ err (Exception.range_error "compression failed")
      failed e = rw (e, zip_buf)

      tested :
          (packed : List ℕ)
          → z.compress src ≡ some packed
          → zip_buf z src ≡ (
              if ltb ((length src + 2 ^ 64 - 100) % 2 ^ 64) (length packed)
              then err (Exception.range_error "ignore compression")
              else ok packed)
      tested packed e = rw (e, zip_buf)

  -- What `ZipBuf` compresses, `Unpack` gives back, with as many rounds of its loop as the data has
  -- bytes, and one more.
  pub unpack-zip_buf :
      (src out : List ℕ) → zip_buf z src ≡ ok out → unpack z (suc (length src)) out ≡ ok src
  unfolding unpack
  unpack-zip_buf src out h =
      unpack_loop-Trip (length src) (length out * 2) src out (zip_buf-compress src out h)
        (omega (arith, l.packed src out (zip_buf-compress src out h))) (omega arith)
