-- ===== src/Tests/Watch.antt =====
-- Events in a watched directory.
use palmira.Prelude.{ℕ, ◌≡◌, refl, Bool, true, false, List, [], ◌∷◌, Option, some, ok}
use palmira.Values.{Bytes}
use palmira.Watch.{WatchSet, Event, Notice, Folders, no_folder, erase, find, handle}
use palmira.Watch.Events.{handle_all, new_file, handle_all-erase}

abbrev watched : WatchSet
watched = (1, 47 ∷ 97 ∷ 47 ∷ []) ∷ []

abbrev event : Bool → Bool → Bool → Event
event dir new gone = record {
  wd = 1;
  name = some (98 ∷ []);
  is_dir = dir;
  created = new;
  modified = false;
  deleted = gone;
  moved_from = false;
  moved_to = false;
}

abbrev number : Bytes → Option ℕ
number path = some 2

abbrev empty : Bytes → Folders
empty path = no_folder

-- A file that is created in the directory is told.
told :
    handle number empty (event false true false) watched
    ≡ ok (watched, Notice.create_file (47 ∷ 97 ∷ 47 ∷ 98 ∷ []) ∷ [])
unfolding handle
told = refl

abbrev two : WatchSet
two = (1, 47 ∷ 97 ∷ 47 ∷ []) ∷ (2, 47 ∷ 98 ∷ 47 ∷ []) ∷ []

found : find 1 two ≡ some (47 ∷ 97 ∷ 47 ∷ [])
unfolding find
found = refl

-- A file is created in the directory of each watch.
abbrev afterwards : List Event
afterwards = new_file 1 (99 ∷ []) ∷ new_file 2 (100 ∷ []) ∷ []

handle_all-erase_example :
    (handle_all number empty (event true false true ∷ afterwards) two
      ≡ handle_all number empty (new_file 2 (100 ∷ []) ∷ []) (erase 1 two))
    × (handle_all number empty (new_file 1 (99 ∷ []) ∷ []) two
        ≡ ok (Notice.create_file (47 ∷ 97 ∷ 47 ∷ 99 ∷ []) ∷ []))
handle_all-erase_example =
    handle_all-erase number empty (event true false true) (98 ∷ []) (47 ∷ 97 ∷ 47 ∷ []) (99 ∷ [])
      two afterwards refl found refl refl refl refl (refl, (refl, tt))
