-- ===== src/Watch/Events.antt =====
-- Which directories are watched, and what is told of an event.
use palmira.Prelude.{
  ℕ, ◌≡◌, ◌≢◌, refl, ap, ◌∙◌, inl, inr, true, false, Bool-cases, Option-cases, List, [], ◌∷◌, ◌++◌,
  Option, none, some, ◌==◌, ==_iff, Result, Result-cases, ok, err, ◌>>=◌, ◌&&◌, subst,
  if◌then◌else◌,
}
use palmira.Values.{Bytes}
use palmira.Watch.{
  WatchSet, find, emplace, erase, Folders, no_folder, folder, slash, ignored, is_ignored,
  with_slash, is_shown, add_one, add_watch, add_folders, Event, Notice, file_notices,
  directory_event, handle,
}

-- A path that a name can be put behind: empty, or with a slash at its end.
abbrev pub IsPrefix : Bytes → Type 0
IsPrefix [] = Unit
IsPrefix (b ∷ []) = b ≡ slash
IsPrefix (b ∷ c ∷ bs) = IsPrefix (c ∷ bs)

abbrev pub AllPrefixes : WatchSet → Type 0
AllPrefixes [] = Unit
AllPrefixes ((i, dir) ∷ set) = IsPrefix dir × AllPrefixes set

with_slash_nonempty : (c : ℕ) (bs : Bytes) → with_slash (c ∷ bs) ≢ []
unfolding with_slash
with_slash_nonempty c [] e = elim (Bool-cases (c == slash)) [
  | inl h ↦ cc (h, e)
  | inr h ↦ cc (h, e)
]
with_slash_nonempty c (d ∷ ds) e = cc e

with_slash-IsPrefix : (dir : Bytes) → IsPrefix (with_slash dir)
unfolding with_slash
with_slash-IsPrefix [] = tt
with_slash-IsPrefix (b ∷ []) = elim (Bool-cases (b == slash)) [
  | inl e ↦ rw (e, with_slash) ((==_iff b slash).0 e)
  | inr e ↦ rw (e, with_slash) refl
]
with_slash-IsPrefix (b ∷ c ∷ bs) = longer (with_slash (c ∷ bs)) refl (with_slash-IsPrefix (c ∷ bs))
  where
    longer : (xs : Bytes) → with_slash (c ∷ bs) ≡ xs → IsPrefix xs → IsPrefix (b ∷ xs)
    longer [] e h = absurd (with_slash_nonempty c bs e)
    longer (x ∷ xs) e h = h

erase-AllPrefixes : (wd : ℕ) (set : WatchSet) → AllPrefixes set → AllPrefixes (erase wd set)
unfolding erase
erase-AllPrefixes wd [] h = tt
erase-AllPrefixes wd ((i, dir) ∷ set) h = elim (Bool-cases (i == wd)) [
  | inl e ↦ rw (e, erase) (erase-AllPrefixes wd set h.1)
  | inr e ↦ rw (e, erase) (h.0, erase-AllPrefixes wd set h.1)
]

emplace-AllPrefixes :
    (wd : ℕ) (dir : Bytes) (set : WatchSet)
    → IsPrefix dir
    → AllPrefixes set
    → AllPrefixes (emplace wd dir set)
unfolding emplace
emplace-AllPrefixes wd dir set p h = elim (Option-cases (find wd set)) [
  | inl e ↦ rw (e, emplace) (p, h)
  | inr (d, e) ↦ rw (e, emplace) h
]

find-erase : (wd : ℕ) (set : WatchSet) → find wd (erase wd set) ≡ none
unfolding find erase
find-erase wd [] = refl
find-erase wd ((i, dir) ∷ set) = elim (Bool-cases (i == wd)) [
  | inl e ↦ rw (e, erase) (find-erase wd set)
  | inr e ↦ rw (e, erase) (rw (e, find) (find-erase wd set))
]

find-erase-none :
    (wd other : ℕ) (set : WatchSet) → find wd set ≡ none → find wd (erase other set) ≡ none
unfolding find erase
find-erase-none wd other [] h = refl
find-erase-none wd other ((i, dir) ∷ set) h = elim (Bool-cases (i == wd)) [
  | inl e ↦ absurd (cc (rw (e, find) at h))
  | inr e ↦ elim (Bool-cases (i == other)) [
    | inl o ↦ rw (o, erase) (find-erase-none wd other set (rw (e, find) at h))
    | inr o ↦ rw (o, erase) (rw (e, find) (find-erase-none wd other set (rw (e, find) at h)))
  ]
]

-- The events that are of another watch.
abbrev pub others : ℕ → List Event → List Event
others wd [] = []
others wd (e ∷ es) = let rest = others wd es in if e.wd == wd then rest else e ∷ rest

-- No event is of a new directory.
abbrev pub NoFolders : List Event → Type 0
NoFolders [] = Unit
NoFolders (e ∷ es) = ((e.is_dir && e.created) ≡ false) × NoFolders es

-- A file is created.
abbrev pub new_file : ℕ → Bytes → Event
new_file wd name = record {
  wd = wd;
  name = some name;
  is_dir = false;
  created = true;
  modified = false;
  deleted = false;
  moved_from = false;
  moved_to = false;
}

nothing_more : (r : Result (List Notice)) → (r >>= λ more. ok ([] ++ more)) ≡ r
nothing_more (ok ns) = refl
nothing_more (err x) = refl

module _ (add : Bytes → Option ℕ) (inside : Bytes → Folders) where
  add_one-AllPrefixes :
      (loop : Bytes → WatchSet → WatchSet)
      → ((d : Bytes) (s : WatchSet) → AllPrefixes s → AllPrefixes (loop d s))
      → (dir : Bytes) (set : WatchSet) → AllPrefixes set
      → AllPrefixes (add_one add loop dir set)
  unfolding add_one
  add_one-AllPrefixes loop kept dir set h = elim (Bool-cases (is_ignored ignored dir)) [
    | inl e ↦ rw (e, add_one) h
    | inr e ↦ elim (Option-cases (add (with_slash dir))) [
      | inl k ↦ rw (e, k, add_one) h
      | inr (wd, k) ↦
          rw (e, k, add_one)
            (kept (with_slash dir) _
              (emplace-AllPrefixes wd (with_slash dir) set (with_slash-IsPrefix dir) h))
    ]
  ]

  add_folders-AllPrefixes :
      (dir : Bytes) (f : Folders) (set : WatchSet)
      → AllPrefixes set
      → AllPrefixes (add_folders add dir f set)
  unfolding add_folders
  add_folders-AllPrefixes dir no_folder set h = h
  add_folders-AllPrefixes dir (folder name inner rest) set h = elim (Bool-cases (is_shown name)) [
    | inl e ↦
        rw (e, add_folders)
          (add_folders-AllPrefixes dir rest _ (
            add_one-AllPrefixes (λ d s. add_folders add d inner s)
              (λ d s k. add_folders-AllPrefixes d inner s k) (dir ++ name) set h))
    | inr e ↦ rw (e, add_folders) (add_folders-AllPrefixes dir rest set h)
  ]

  -- The rounds of DirWatch for events one after another: what is told of all of them.
  abbrev pub handle_all : List Event → WatchSet → Result (List Notice)
  handle_all [] set = ok []
  handle_all (e ∷ es) set =
      handle add inside e set >>= λ p. handle_all es p.0 >>= λ more. ok (p.1 ++ more)

  abbrev KeepsAway : ℕ → Result (WatchSet × List Notice) → Type 0
  KeepsAway wd (ok p) = find wd p.0 ≡ none
  KeepsAway wd (err x) = Unit

  handle-KeepsAway :
      (wd : ℕ) (e : Event) (set : WatchSet)
      → (e.is_dir && e.created) ≡ false
      → find wd set ≡ none
      → KeepsAway wd (handle add inside e set)
  unfolding handle directory_event
  handle-KeepsAway wd e set old h = elim (Option-cases e.name) [
    | inl n ↦ rw (n, handle) h
    | inr (name, n) ↦ elim (Option-cases (find e.wd set)) [
      | inl f ↦ rw (n, f, handle) h
      | inr (dir, f) ↦ elim (Bool-cases e.is_dir) [
        | inr d ↦ rw (n, f, d, handle) h
        | inl d ↦ elim (Bool-cases e.created) [
          | inl c ↦ absurd (cc (rw (d, c) at old))
          | inr c ↦ elim (Bool-cases e.modified) [
            | inl m ↦ rw (n, f, d, c, m, handle, directory_event) tt
            | inr m ↦ elim (Bool-cases e.deleted) [
              | inl k ↦
                  rw (n, f, d, c, m, k, handle, directory_event) (find-erase-none wd e.wd set h)
              | inr k ↦ rw (n, f, d, c, m, k, handle, directory_event) h
            ]
          ]
        ]
      ]
    ]
  ]

  handle-away :
      (e : Event) (set : WatchSet) → find e.wd set ≡ none → handle add inside e set ≡ ok (set, [])
  unfolding handle
  handle-away e set h = elim (Option-cases e.name) [
    | inl n ↦ rw (n, handle) refl
    | inr (name, n) ↦ rw (n, h, handle) refl
  ]

  handle_all-away :
      (wd : ℕ) (es : List Event) (set : WatchSet)
      → NoFolders es
      → find wd set ≡ none
      → handle_all es set ≡ handle_all (others wd es) set
  handle_all-away wd [] set old h = refl
  handle_all-away wd (e ∷ es) set old h = elim (Bool-cases (e.wd == wd)) [
    | inl same ↦
        rw (same, handle-away e set (ap (λ i. find i set) ((==_iff e.wd wd).0 same) ∙ h))
          (nothing_more (handle_all es set) ∙ handle_all-away wd es set old.1 h)
    | inr other ↦ elim (Result-cases (handle add inside e set)) [
      | inr (x, r) ↦ rw (other, r) refl
      | inl (p, r) ↦
          rw (other, r)
            (ap (λ rest. rest >>= λ more. ok (p.1 ++ more))
              (handle_all-away wd es p.0 old.1
                (subst (KeepsAway wd) r (handle-KeepsAway wd e set old.0 h))))
    ]
  ]

  -- After a directory within a watched one has been deleted, the watched one is watched no more: of any
  -- events that follow, none of them of a new directory, what is told is as if those of its watch
  -- had not come. Before, a file that is created in it is told.
  pub handle_all-erase :
      (e : Event) (name dir file : Bytes) (set : WatchSet) (es : List Event)
      → e.name ≡ some name
      → find e.wd set ≡ some dir
      → e.is_dir ≡ true
      → e.created ≡ false
      → e.modified ≡ false
      → e.deleted ≡ true
      → NoFolders es
      → (handle_all (e ∷ es) set ≡ handle_all (others e.wd es) (erase e.wd set))
        × (handle_all (new_file e.wd file ∷ []) set ≡ ok (Notice.create_file (dir ++ file) ∷ []))
  unfolding handle directory_event file_notices
  handle_all-erase e name dir file set es n f d c m k old = (
    ap (λ r. r >>= λ p. handle_all es p.0 >>= λ more. ok (p.1 ++ more)) erased
        ∙ nothing_more (handle_all es (erase e.wd set))
        ∙ handle_all-away e.wd es (erase e.wd set) old (find-erase e.wd set),
    rw (f, handle) refl,
  )
    where
      erased : handle add inside e set ≡ ok (erase e.wd set, [])
      erased = rw (n, f, d, c, m, k, handle, directory_event) refl

  abbrev pub KeepsPrefixes : Result (WatchSet × List Notice) → Type 0
  KeepsPrefixes (ok p) = AllPrefixes p.0
  KeepsPrefixes (err x) = Unit

  -- Every directory in the set of watches is kept so that a name can be put behind it, whatever event
  -- comes, a new directory with all that it holds included: it ends in a slash, or is empty.
  handle-AllPrefixes :
      (e : Event) (set : WatchSet) → AllPrefixes set → KeepsPrefixes (handle add inside e set)
  unfolding handle directory_event add_watch
  handle-AllPrefixes e set h = elim (Option-cases e.name) [
    | inl n ↦ rw (n, handle) h
    | inr (name, n) ↦ elim (Option-cases (find e.wd set)) [
      | inl f ↦ rw (n, f, handle) h
      | inr (dir, f) ↦ elim (Bool-cases e.is_dir) [
        | inr d ↦ rw (n, f, d, handle) h
        | inl d ↦ elim (Bool-cases e.created) [
          | inl c ↦
              rw (n, f, d, c, handle, directory_event, add_watch)
                (add_one-AllPrefixes (λ x s. add_folders add x (inside (dir ++ name)) s)
                  (λ x s k. add_folders-AllPrefixes x (inside (dir ++ name)) s k) (dir ++ name) set
                  h)
          | inr c ↦ elim (Bool-cases e.modified) [
            | inl m ↦ rw (n, f, d, c, m, handle, directory_event) tt
            | inr m ↦ elim (Bool-cases e.deleted) [
              | inl k ↦
                  rw (n, f, d, c, m, k, handle, directory_event) (erase-AllPrefixes e.wd set h)
              | inr k ↦ rw (n, f, d, c, m, k, handle, directory_event) h
            ]
          ]
        ]
      ]
    ]
  ]
