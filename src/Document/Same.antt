-- ===== src/Document/Same.antt =====
-- The comparison of strings decides their equality.
use palmira.Prelude.{
  ◌≡◌, ◌≢◌, refl, ap, subst, inl, inr, true, false, [], ◌∷◌, ◌==◌, ==_iff, Bool-cases,
}
use palmira.Values.{Bytes}
use palmira.Document.{same_bytes}

pub same_bytes_self : (bs : Bytes) → same_bytes bs bs ≡ true
unfolding same_bytes
same_bytes_self [] = refl
same_bytes_self (b ∷ bs) = rw ((==_iff b b).1 refl) (same_bytes_self bs)

pub same_bytes_eq : (cs bs : Bytes) → same_bytes cs bs ≡ true → cs ≡ bs
unfolding same_bytes
same_bytes_eq [] [] h = refl
same_bytes_eq [] (b ∷ bs) h = cc h
same_bytes_eq (a ∷ cs) [] h = cc h
same_bytes_eq (a ∷ cs) (b ∷ bs) h = elim (Bool-cases (a == b)) [
  | inr e ↦ absurd (differ e)
  | inl e ↦ rw ((==_iff a b).0 e) (ap (◌∷◌ b) (same_bytes_eq cs bs (rest e)))
]
  where
    differ : (a == b) ≡ false → ⊥
    differ e = cc (e, h)

    rest : (a == b) ≡ true → same_bytes cs bs ≡ true
    rest e = cc (e, h)

pub same_bytes-differ : (cs bs : Bytes) → same_bytes cs bs ≡ false → cs ≢ bs
same_bytes-differ cs bs h e = cc (subst (λ c. same_bytes c bs ≡ false) e h, same_bytes_self bs)
