-- ===== src/Watch/Windows/Keys.antt =====
-- The events of the watches, as they are found, put in and taken out.
use palmira.Prelude.{
  ℕ, zero, suc, ◌≡◌, refl, ap, subst, inl, inr, Bool, true, false, List, [], ◌∷◌, ◌++◌, Option,
  none, some, ◌==◌, ==_iff, Bool-cases, get_elem?, if◌then◌else◌, arith,
}
use palmira.Watch.Windows.{WatchInfo, find, assign, erase, pop_back, erase_at}

abbrev pub keys : List (ℕ × WatchInfo) → List ℕ
keys [] = []
keys ((e, w) ∷ ws) = e ∷ keys ws

abbrev pub has : ℕ → List ℕ → Bool
has e [] = false
has e (k ∷ ks) = if k == e then true else has e ks

abbrev pub Distinct : List ℕ → Type 0
Distinct [] = Unit
Distinct (k ∷ ks) = (has k ks ≡ false) × Distinct ks

abbrev pub without : ℕ → List ℕ → List ℕ
without e [] = []
without e (k ∷ ks) = if k == e then ks else k ∷ without e ks

pub has-find : (e : ℕ) (ws : List (ℕ × WatchInfo)) → find e ws ≡ none → has e (keys ws) ≡ false
unfolding find
has-find e [] h = refl
has-find e ((k, w) ∷ ws) h = elim (Bool-cases (k == e)) [
  | inl b ↦ absurd (some_none (rw (b, find) at h))
  | inr b ↦ rw b (has-find e ws (rw (b, find) at h))
]
  where
    some_none : ◌≡◌ {A = Option WatchInfo} (some w) none → ⊥
    some_none x = cc x

pub assign_new :
    (e : ℕ) (i : WatchInfo) (ws : List (ℕ × WatchInfo))
    → find e ws ≡ none
    → assign e i ws ≡ ws ++ (e, i) ∷ []
unfolding find assign
assign_new e i [] h = refl
assign_new e i ((k, w) ∷ ws) h = elim (Bool-cases (k == e)) [
  | inl b ↦ absurd (some_none (rw (b, find) at h))
  | inr b ↦ rw (b, assign) (ap (◌∷◌ (k, w)) (assign_new e i ws (rw (b, find) at h)))
]
  where
    some_none : ◌≡◌ {A = Option WatchInfo} (some w) none → ⊥
    some_none x = cc x

pub keys-append :
    (ws : List (ℕ × WatchInfo)) (e : ℕ) (i : WatchInfo)
    → keys (ws ++ (e, i) ∷ []) ≡ keys ws ++ e ∷ []
keys-append [] e i = refl
keys-append ((k, w) ∷ ws) e i = ap (◌∷◌ k) (keys-append ws e i)

pub keys-assign :
    (e : ℕ) (i : WatchInfo) (ws : List (ℕ × WatchInfo)) (w : WatchInfo)
    → find e ws ≡ some w
    → keys (assign e i ws) ≡ keys ws
unfolding find assign
keys-assign e i [] w h = cc h
keys-assign e i ((k, v) ∷ ws) w h = elim (Bool-cases (k == e)) [
  | inl b ↦ rw (b, assign) refl
  | inr b ↦ rw (b, assign) (ap (◌∷◌ k) (keys-assign e i ws w (rw (b, find) at h)))
]

pub find-append :
    (e : ℕ) (i : WatchInfo) (ws : List (ℕ × WatchInfo))
    → find e ws ≡ none
    → find e (ws ++ (e, i) ∷ []) ≡ some i
unfolding find
find-append e i [] h = rw ((==_iff e e).1 refl, find) refl
find-append e i ((k, w) ∷ ws) h = elim (Bool-cases (k == e)) [
  | inl b ↦ absurd (some_none (rw (b, find) at h))
  | inr b ↦ rw (b, find) (find-append e i ws (rw (b, find) at h))
]
  where
    some_none : ◌≡◌ {A = Option WatchInfo} (some w) none → ⊥
    some_none x = cc x

pub erase-append :
    (e : ℕ) (i : WatchInfo) (ws : List (ℕ × WatchInfo))
    → find e ws ≡ none
    → erase e (ws ++ (e, i) ∷ []) ≡ ws
unfolding find erase
erase-append e i [] h = rw ((==_iff e e).1 refl, erase) refl
erase-append e i ((k, w) ∷ ws) h = elim (Bool-cases (k == e)) [
  | inl b ↦ absurd (some_none (rw (b, find) at h))
  | inr b ↦ rw (b, erase) (ap (◌∷◌ (k, w)) (erase-append e i ws (rw (b, find) at h)))
]
  where
    some_none : ◌≡◌ {A = Option WatchInfo} (some w) none → ⊥
    some_none x = cc x

pub pop_back-append : (hs : List ℕ) (e : ℕ) → pop_back (hs ++ e ∷ []) ≡ hs
unfolding pop_back
pop_back-append [] e = refl
pop_back-append (h ∷ []) e = refl
pop_back-append (h ∷ k ∷ hs) e = ap (◌∷◌ h) (pop_back-append (k ∷ hs) e)

pub keys-erase : (e : ℕ) (ws : List (ℕ × WatchInfo)) → keys (erase e ws) ≡ without e (keys ws)
unfolding erase
keys-erase e [] = refl
keys-erase e ((k, w) ∷ ws) = elim (Bool-cases (k == e)) [
  | inl b ↦ rw (b, erase) refl
  | inr b ↦ rw (b, erase) (ap (◌∷◌ k) (keys-erase e ws))
]

pub has-get : (ks : List ℕ) (i : ℕ) (e : ℕ) → get_elem? ks i ≡ some e → has e ks ≡ true
has-get [] i e h = cc h
has-get (k ∷ ks) zero e h = rw ((==_iff k e).1 (cc h)) refl
has-get (k ∷ ks) (suc i) e h = elim (Bool-cases (k == e)) [
  | inl b ↦ rw b refl
  | inr b ↦ rw b (has-get ks i e h)
]

pub erase_at-without :
    (ks : List ℕ) (i e : ℕ) → Distinct ks → get_elem? ks i ≡ some e → erase_at i ks ≡ without e ks
unfolding erase_at
erase_at-without [] i e d h = cc h
erase_at-without (k ∷ ks) zero e d h = rw ((==_iff k e).1 (cc h)) refl
erase_at-without (k ∷ ks) (suc i) e d h = elim (Bool-cases (k == e)) [
  | inl b ↦ absurd (twice (subst (λ x. has x ks ≡ false) ((==_iff k e).0 b) d.0) (has-get ks i e h))
  | inr b ↦ rw b (ap (◌∷◌ k) (erase_at-without ks i e d.1 h))
]
  where
    twice : has e ks ≡ false → has e ks ≡ true → ⊥
    twice x y = cc (x, y)

has_cons :
    (x k : ℕ) (ks : List ℕ) → has x (k ∷ ks) ≡ false → ((k == x) ≡ false) × (has x ks ≡ false)
has_cons x k ks h = elim (Bool-cases (k == x)) [
  | inl b ↦ absurd (true_false (rw b at h))
  | inr b ↦ (b, rw b at h)
]
  where
    true_false : true ≡ false → ⊥
    true_false e = cc e

has-without : (x e : ℕ) (ks : List ℕ) → has x ks ≡ false → has x (without e ks) ≡ false
has-without x e [] h = h
has-without x e (k ∷ ks) h =
    let (n, r) = has_cons x k ks h in
    elim (Bool-cases (k == e)) [ inl b ↦ rw b r | inr b ↦ rw (b, n) (has-without x e ks r) ]

pub Distinct-without : (e : ℕ) (ks : List ℕ) → Distinct ks → Distinct (without e ks)
Distinct-without e [] d = d
Distinct-without e (k ∷ ks) d = elim (Bool-cases (k == e)) [
  | inl b ↦ rw b d.1
  | inr b ↦ rw b (has-without k e ks d.0, Distinct-without e ks d.1)
]

has-append :
    (x e : ℕ) (ks : List ℕ) → has x ks ≡ false → (e == x) ≡ false → has x (ks ++ e ∷ []) ≡ false
has-append x e [] h n = rw n refl
has-append x e (k ∷ ks) h n = let (m, r) = has_cons x k ks h in rw m (has-append x e ks r n)

other_way : (a b : ℕ) → (a == b) ≡ false → (b == a) ≡ false
other_way a b h = ground arith

pub Distinct-append :
    (e : ℕ) (ks : List ℕ) → Distinct ks → has e ks ≡ false → Distinct (ks ++ e ∷ [])
Distinct-append e [] d h = (refl, tt)
Distinct-append e (k ∷ ks) d h =
    let (n, r) = has_cons e k ks h in
    (has-append k e ks d.0 (other_way k e n), Distinct-append e ks d.1 r)
