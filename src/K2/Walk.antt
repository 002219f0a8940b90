-- ===== src/K2/Walk.antt =====
-- The walk of IndexDir against a listing of all files.
use palmira.Prelude.{
  ℕ, ◌+◌, ◌-◌, ◌<◌, Bool, true, false, ◌&&◌, List, [], ◌∷◌, ◌++◌, ◌≡◌, refl, sym, ap, ◌∙◌, ◌==◌,
  if◌then◌else◌, arith, Bool-cases, ==_iff, inl, inr,
}
use mathlib.Core.List.{append_assoc, append-nil}
use palmira.Values.{Bytes}
use palmira.Watch.{is_shown, with_slash}
use palmira.K2.{
  Dirents, no_dirent, file, directory, Progress, check_ext, extensions, enter, leave, enters,
  index_file, index_entries, index_dir,
}

-- The files in a directory and in those within it that are entered, in order, but for what a dot begins.
unfoldable pub files_within : (windows : Bool) → (folder : Bytes) → Dirents → List Bytes
unfolding is_shown enters with_slash
files_within windows folder no_dirent = []
files_within windows folder (file name more) =
    (if is_shown name then (folder ++ name) ∷ [] else []) ++ files_within windows folder more
files_within windows folder (directory name link inner more) =
    let within = files_within windows (with_slash (folder ++ name)) inner in
    (if is_shown name && enters windows link then within else [])
    ++ files_within windows folder more

module _ (found : Bytes → ℕ) where
  -- The files of a language that is known, of which the search finds nothing.
  unfoldable pub wanted : List Bytes → List Bytes
  unfolding check_ext
  wanted [] = []
  wanted (p ∷ ps) = (if check_ext p extensions && found p == 0 then p ∷ [] else []) ++ wanted ps

  wanted-append : (ps qs : List Bytes) → wanted (ps ++ qs) ≡ wanted ps ++ wanted qs
  unfolding wanted
  wanted-append [] qs = refl
  wanted-append (p ∷ ps) qs =
      ap (λ r. (if check_ext p extensions && found p == 0 then p ∷ [] else []) ++ r)
        (wanted-append ps qs)
      ∙ sym (
          append_assoc (if check_ext p extensions && found p == 0 then p ∷ [] else []) (wanted ps)
            (wanted qs))

abbrev adds : Progress → List Bytes → Progress
adds w ps = record w { queue = w.queue ++ ps }

adds_none : (w : Progress) → w ≡ adds w []
adds_none w = ap (λ q. record w { queue = q }) (sym (append-nil w.queue))

-- The end of a directory within another.
leave-adds :
    (w : Progress) (ps : List Bytes) → 0 < w.counter → leave (adds (enter true w) ps) ≡ adds w ps
unfolding leave enter
leave-adds w ps p =
    ap
      (λ c. record w {
        counter = c;
        queue = w.queue ++ ps;
        completed = if c == 0 then w.completed + 1 else w.completed;
      })
      same
    ∙ ap
        (λ b. record w {
          queue = w.queue ++ ps;
          completed = if b then w.completed + 1 else w.completed;
        })
        going_on
  where
    same : w.counter + 1 - 1 ≡ w.counter
    same = omega arith

    none_left : w.counter ≡ 0 → ⊥
    none_left e = omega (arith, e, p)

    going_on : (w.counter == 0) ≡ false
    going_on = elim (Bool-cases (w.counter == 0)) [
      | inl h ↦ absurd (none_left ((==_iff w.counter 0).0 h))
      | inr h ↦ h
    ]

put_if :
    (b : Bool) (w : Progress) (p : Bytes)
    → (if b then record w { queue = w.queue ++ p ∷ [] } else w)
      ≡ adds w ((if b then p ∷ [] else []) ++ [])
put_if true w p = refl
put_if false w p = adds_none w

module _ (windows : Bool) (found : Bytes → ℕ) where
  index_file_lem :
      (p : Bytes) (w : Progress) → index_file windows found p w ≡ adds w (wanted found (p ∷ []))
  unfolding index_file wanted
  index_file_lem p w = put_if (check_ext p extensions && found p == 0) w p

  chosen :
      (b : Bool) (v w : Progress) (ps : List Bytes)
      → v ≡ adds w (wanted found ps)
      → (if b then v else w) ≡ adds w (wanted found (if b then ps else []))
  unfolding wanted
  chosen true v w ps h = h
  chosen false v w ps h = adds_none w

  adds-wanted :
      (w : Progress) (ps qs : List Bytes)
      → adds (adds w (wanted found ps)) (wanted found qs) ≡ adds w (wanted found (ps ++ qs))
  adds-wanted w ps qs =
      ap (λ q. record w { queue = q })
        (append_assoc w.queue (wanted found ps) (wanted found qs)
          ∙ ap (λ r. w.queue ++ r) (sym (wanted-append found ps qs)))

  index_entries_lem :
      (folder : Bytes) (entries : Dirents) (w : Progress)
      → 0 < w.counter
      → index_entries windows found folder entries w
        ≡ adds w (wanted found (files_within windows folder entries))
  unfolding index_entries files_within wanted
  index_entries_lem folder no_dirent w p = adds_none w
  index_entries_lem folder (file name more) w p =
      ap (index_entries windows found folder more) (
        chosen (is_shown name) (index_file windows found (folder ++ name) w) w
          ((folder ++ name) ∷ []) (index_file_lem (folder ++ name) w))
      ∙ index_entries_lem folder more
          (adds w (wanted found (if is_shown name then (folder ++ name) ∷ [] else []))) p
      ∙ adds-wanted w (if is_shown name then (folder ++ name) ∷ [] else [])
          (files_within windows folder more)
  index_entries_lem folder (directory name link inner more) w p =
      ap (index_entries windows found folder more) (
        chosen (is_shown name && enters windows link)
          (leave (index_entries windows found inner_folder inner (enter true w))) w
          (files_within windows inner_folder inner)
          (ap leave (index_entries_lem inner_folder inner (enter true w) (omega arith))
            ∙ leave-adds w (wanted found (files_within windows inner_folder inner)) p))
      ∙ index_entries_lem folder more
          (adds w (
            wanted found (
              if is_shown name && enters windows link
              then files_within windows inner_folder inner
              else [])))
          p
      ∙ adds-wanted w
          (if is_shown name && enters windows link
            then files_within windows inner_folder inner
            else [])
          (files_within windows folder more)
    where
      inner_folder : Bytes
      inner_folder = with_slash (folder ++ name)

  -- The walk of a directory ends with the counter at zero and tells of its end once, also if there are others within
  -- it. The tasks that it adds are those of the files that stand there, or in a directory within it that is entered, and
  -- are of a language that is known and not found in the index, in the order of the entries.
  pub index_dir_lem :
      (dir : Bytes) (entries : Dirents) (w : Progress)
      → index_dir windows found dir entries w ≡ record {
        counter = 0;
        queue = w.queue ++ wanted found (files_within windows (with_slash dir) entries);
        completed = w.completed + 1;
      }
  unfolding index_dir leave enter
  index_dir_lem dir entries w =
      ap leave (index_entries_lem (with_slash dir) entries (enter false w) (omega arith))
