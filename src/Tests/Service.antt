-- ===== src/Tests/Service.antt =====
-- The service over a small index: a function from identifiers to entities.
use palmira.Prelude.{
  ℕ, zero, suc, ◌≡◌, ◌≢◌, refl, sym, ap, inl, inr, Bool, true, false, List, [], ◌∷◌, ◌++◌, Option,
  none, some, map, ltb, lt→ltb, le→ltb_false, ◌==◌, ==_iff, ◌&&◌, Bool-cases, if◌then◌else◌, length,
  arith, Result, ok, err, Exception,
}
use palmira.Service.Zip.{Zlib, Inflated, z_ok, z_buf_error, z_data_error, unpack, zip_buf}
use palmira.Service.Zip.Trip.{IsLossless, unpack-zip_buf}
use palmira.Service.Store.{
  Bytes, Field, Entity, Index, Tools, State, InsertArgs, insert, update, remove, prepare,
  make_bundle, stored, updated, load_metadata, dump_metadata, caught_insert,
}
use palmira.Service.Store.Laws.{
  IsStore, Request, insert_request, update_request, remove_request, Outcome, handle, handle_all,
  succeeded, handle-Outcome, modified-Same,
}
use palmira.Service.Search.Image.{IsCodec, Stored, insert-Stored}

abbrev same : Bytes → Bytes → Bool
same [] [] = true
same [] (b ∷ bs) = false
same (a ∷ cs) [] = false
same (a ∷ cs) (b ∷ bs) = (a == b) && same cs bs

same_refl : (bs : Bytes) → same bs bs ≡ true
same_refl [] = refl
same_refl (b ∷ bs) = rw ((==_iff b b).1 refl) (same_refl bs)

same_eq : (cs bs : Bytes) → same cs bs ≡ true → cs ≡ bs
same_eq [] [] h = refl
same_eq [] (b ∷ bs) h = cc h
same_eq (a ∷ cs) [] h = cc h
same_eq (a ∷ cs) (b ∷ bs) h = elim (Bool-cases (a == b)) [
  | inr e ↦ absurd (differ e)
  | inl e ↦ rw ((==_iff a b).0 e) (ap (◌∷◌ b) (same_eq cs bs (rest e)))
]
  where
    differ : (a == b) ≡ false → ⊥
    differ e = cc (e, h)

    rest : (a == b) ≡ true → same cs bs ≡ true
    rest e = cc (e, h)

same-false : (cs bs : Bytes) → cs ≢ bs → same cs bs ≡ false
same-false cs bs h = elim (Bool-cases (same cs bs)) [
  | inl e ↦ absurd (h (same_eq cs bs e))
  | inr e ↦ e
]

abbrev pub Shelf : Type 0
Shelf = Bytes → Option Entity

abbrev with_extra : Bytes → Bytes → Entity → Entity
with_extra i x e = record e { id = i; extra = some x }

abbrev with_extras : Shelf → Bytes → Bytes → Option Entity → Shelf × Result (Option Entity)
with_extras s i x none = (s, ok none)
with_extras s i x (some e) =
    ((λ j. if same j i then some (with_extra i x e) else s j), ok (some (with_extra i x e)))

abbrev without : Shelf → Bytes → Option Entity → Shelf × Result Bool
without s i none = (s, ok false)
without s i (some e) = ((λ j. if same j i then none else s j), ok true)

abbrev pub shelf : Index Shelf Bytes
shelf = record {
  get_entity = λ s i. s i;
  set_entity = λ s i c x b. (
    λ j. if same j i then some (record { id = i; extra = some x; bundle = some b }) else s j,
    ok (record { id = i; extra = some x; bundle = some b }),
  );
  set_extras = λ s i x. with_extras s i x (s i);
  del_entity = λ s i. without s i (s i);
  commit = λ s. s;
}

extras_thrown :
    (s : Shelf) (i x : Bytes) (e : Option Entity) (t : Exception)
    → (with_extras s i x e).1 ≡ err t
    → (j : Bytes) → (with_extras s i x e).0 j ≡ s j
extras_thrown s i x none t h j = refl
extras_thrown s i x (some e) t h j = absurd (cc h)

extras_absent :
    (s : Shelf) (i x : Bytes) (e : Option Entity)
    → (with_extras s i x e).1 ≡ ok none
    → (j : Bytes) → (with_extras s i x e).0 j ≡ s j
extras_absent s i x none h j = refl
extras_absent s i x (some e) h j = absurd (cc h)

option_eq : {d e : Entity} → ok (some e) ≡ ok (some d) → e ≡ d
option_eq h = cc h

extras_done :
    (s : Shelf) (i x : Bytes) (e : Option Entity) (d : Entity)
    → (with_extras s i x e).1 ≡ ok (some d)
    → ((with_extras s i x e).0 i ≡ some d) × (d.extra ≡ some x) × (d.id ≡ i)
extras_done s i x none d h = absurd (cc h)
extras_done s i x (some e) d h = (
  rw (same_refl i) (ap some (option_eq h)),
  sym (ap (λ e. e.extra) (option_eq h)),
  sym (ap (λ e. e.id) (option_eq h)),
)

extras_other :
    (s : Shelf) (i x : Bytes) (e : Option Entity) (j : Bytes)
    → j ≢ i
    → (with_extras s i x e).0 j ≡ s j
extras_other s i x none j h = refl
extras_other s i x (some e) j h = rw (same-false j i h)

without_absent :
    (s : Shelf) (i : Bytes) (e : Option Entity)
    → (without s i e).1 ≡ ok false
    → (j : Bytes) → (without s i e).0 j ≡ s j
without_absent s i none h j = refl
without_absent s i (some e) h j = absurd (cc h)

without_done :
    (s : Shelf) (i : Bytes) (e : Option Entity)
    → (without s i e).1 ≡ ok true
    → (without s i e).0 i ≡ none
without_done s i none h = absurd (cc h)
without_done s i (some e) h = rw (same_refl i)

without_thrown :
    (s : Shelf) (i : Bytes) (e : Option Entity) (t : Exception)
    → (without s i e).1 ≡ err t
    → (j : Bytes) → (without s i e).0 j ≡ s j
without_thrown s i none t h j = refl
without_thrown s i (some e) t h j = absurd (cc h)

without_other :
    (s : Shelf) (i : Bytes) (e : Option Entity) (j : Bytes) → j ≢ i → (without s i e).0 j ≡ s j
without_other s i none j h = refl
without_other s i (some e) j h = rw (same-false j i h)

pub shelf-IsStore : IsStore shelf
shelf-IsStore = record {
  set_thrown = λ s i c x b e h. absurd (cc h);
  set_done = λ s i c x b d h. (
    rw (same_refl i) (ap some (ok_eq h)),
    sym (ap (λ e. e.extra) (ok_eq h)),
    sym (ap (λ e. e.bundle) (ok_eq h)),
    sym (ap (λ e. e.id) (ok_eq h)),
  );
  set_other = λ s i c x b j h. rw (same-false j i h);
  extras_thrown = λ s i x e h j. extras_thrown s i x (s i) e h j;
  extras_absent = λ s i x h j. extras_absent s i x (s i) h j;
  del_done = λ s i h. without_done s i (s i) h;
  del_thrown = λ s i e h j. without_thrown s i (s i) e h j;
  del_absent = λ s i h j. without_absent s i (s i) h j;
  extras_done = λ s i x d h. extras_done s i x (s i) d h;
  commit_same = λ s j. refl;
  extras_other = λ s i x j h. extras_other s i x (s i) j h;
  del_other = λ s i j h. without_other s i (s i) j h;
}
  where
    ok_eq : {a b : Entity} → ok a ≡ ok b → a ≡ b
    ok_eq e = cc e

-- Fields written one after another, each as its number, its bytes with one added, and a 0.
abbrev number : Field → ℕ
number Field.ft = 1
number Field.ip = 2
number Field.im = 3

abbrev write : List (Field × Bytes) → Bytes
write [] = []
write ((k, v) ∷ r) = number k ∷ (map suc v ++ 0 ∷ write r)

abbrev read : Bytes → Bytes
read [] = []
read (zero ∷ bs) = []
read (suc b ∷ bs) = b ∷ read bs

-- The flag tells whether a field begins here.
abbrev seek : Bool → ℕ → Bytes → Option (Bool × Bytes)
seek start n [] = none
seek true n (b ∷ bs) = let next = seek false n bs in if b == n then some (true, read bs) else next
seek false n (zero ∷ bs) = seek true n bs
seek false n (suc b ∷ bs) = seek false n bs

read-write : (v bs : Bytes) → read (map suc v ++ 0 ∷ bs) ≡ v
read-write [] bs = refl
read-write (b ∷ v) bs = ap (◌∷◌ b) (read-write v bs)

skip-write : (v bs : Bytes) (n : ℕ) → seek false n (map suc v ++ 0 ∷ bs) ≡ seek true n bs
skip-write [] bs n = refl
skip-write (b ∷ v) bs n = skip-write v bs n

number_differ : (k k' : Field) → k ≢ k' → (number k' == number k) ≡ false
number_differ Field.ft Field.ft h = absurd (h refl)
number_differ Field.ft Field.ip h = refl
number_differ Field.ft Field.im h = refl
number_differ Field.ip Field.ft h = refl
number_differ Field.ip Field.ip h = absurd (h refl)
number_differ Field.ip Field.im h = refl
number_differ Field.im Field.ft h = refl
number_differ Field.im Field.ip h = refl
number_differ Field.im Field.im h = absurd (h refl)

abbrev inflate : ℕ → Bytes → Inflated
inflate room [] = z_data_error
inflate room (b ∷ bs) = if ltb room (length bs) then z_buf_error else z_ok bs

abbrev zlib : Zlib
zlib = record { compress = λ src. some (0 ∷ src); uncompress = inflate }

zlib-IsLossless : IsLossless zlib
zlib-IsLossless = record {
  packed = λ src out h. omega (arith, ap length (some_eq h));
  inflates = λ src out room h le. rw (sym (some_eq h), le→ltb_false room (length src) le);
  too_small = λ src out room h lt. rw (sym (some_eq h), lt→ltb room (length src) lt);
}
  where
    some_eq : {a b : Bytes} → some a ≡ some b → a ≡ b
    some_eq e = cc e

abbrev pub plain : Tools Bytes Bytes ℕ Bytes
plain = record {
  image = λ f text. ok (f ∷ [], text);
  contents = λ f text. ok text;
  is_wide = λ text. true;
  copy_utf16 = λ text. text;
  serialize = λ m. 0 ∷ m;
  fetch = tail;
  no_data = [];
  pack = write;
  find = λ bs k. seek true (number k) bs;
  save_fields = λ f. f ∷ [];
  zlib = zlib;
}
  where
    tail : Bytes → Bytes
    tail [] = []
    tail (b ∷ bs) = bs

plain-IsCodec : IsCodec plain
plain-IsCodec = record {
  fetches = λ m. refl;
  written = λ m e. cc e;
  finds = λ k v r. rw ((==_iff (number k) (number k)).1 refl, read-write v (write r));
  passes = λ k k' v r h. rw (number_differ k k' h) (skip-write v (write r) (number k));
  misses = λ k. refl;
  lossless = zlib-IsLossless;
}

abbrev pub start : State Shelf ℕ
start = record { index = λ i. none; fields = 7; modified = false; ref_count = 1; alive = true }

abbrev pub document : InsertArgs Bytes Bytes
document = record { object_id = 5 ∷ []; metadata = 8 ∷ 9 ∷ []; textview = 1 ∷ 2 ∷ 3 ∷ [] }

inserted : succeeded (insert shelf plain document start).1 ≡ true
unfolding insert prepare make_bundle zip_buf stored updated load_metadata dump_metadata
    caught_insert
inserted = refl

abbrev quote : Bytes → Bytes → ℕ → Bytes × Bytes × ℕ
quote text markup abstr = (text, markup, abstr)

insert-Stored_example :
    Stored shelf plain shelf-IsStore plain-IsCodec quote start document
      (insert shelf plain document start)
insert-Stored_example =
    insert-Stored shelf plain shelf-IsStore plain-IsCodec quote document start inserted

handle-Outcome_example :
    Outcome shelf plain
      (5 ∷ [])
      start
      (handle shelf plain (insert_request document) start).0
      (handle shelf plain (insert_request document) start).1
handle-Outcome_example = handle-Outcome shelf plain shelf-IsStore (insert_request document) start

-- Requests on documents that are not there.
abbrev in_vain : List (Request Bytes Bytes)
in_vain =
    remove_request (record { object_id = 3 ∷ [] })
    ∷ update_request (record { object_id = 4 ∷ []; metadata = [] })
    ∷ []

not_marked : (handle_all shelf plain shelf-IsStore in_vain start).modified ≡ false
unfolding update remove
not_marked = refl

modified-Same_example :
    shelf.get_entity (handle_all shelf plain shelf-IsStore in_vain start).index (4 ∷ [])
    ≡ shelf.get_entity start.index (4 ∷ [])
modified-Same_example = modified-Same shelf plain shelf-IsStore in_vain start not_marked (4 ∷ [])

zipped : zip_buf zlib (4 ∷ 5 ∷ 6 ∷ []) ≡ ok (0 ∷ 4 ∷ 5 ∷ 6 ∷ [])
unfolding zip_buf
zipped = refl

unpack-zip_buf_example : unpack zlib 4 (0 ∷ 4 ∷ 5 ∷ 6 ∷ []) ≡ ok (4 ∷ 5 ∷ 6 ∷ [])
unpack-zip_buf_example =
    unpack-zip_buf zlib zlib-IsLossless (4 ∷ 5 ∷ 6 ∷ []) (0 ∷ 4 ∷ 5 ∷ 6 ∷ []) zipped
