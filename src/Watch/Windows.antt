-- ===== src/Watch/Windows.antt =====
-- src/watchFs/watchFs-win.cpp: the watches of Windows, each with the handle of its event.
pub mod Keys
pub mod Paired
use palmira.Prelude.{
  ℕ, zero, suc, ◌≡◌, Bool, true, false, List, [], ◌∷◌, ◌++◌, map, Option, none, some, ◌==◌,
  get_elem?, if◌then◌else◌, Exception,
}
use palmira.Values.{Bytes, Wide}

-- WatchInfo, without its buffer; handles are numbers.
pub record WatchInfo : Type 0 where
  pub directory_handle : ℕ
  pub path : Wide
  pub recursive : Bool
  pub pending_io : Bool

-- WatchData: the watches by their events, in the order in which they came, and the handles to wait for, of which the first
-- is the event that stops.
pub record WatchData : Type 0 where
  pub watches : List (ℕ × WatchInfo)
  pub handles : List ℕ

-- WatchData::WatchData
abbrev pub fresh : ℕ → WatchData
fresh stop_event = record { watches = []; handles = stop_event ∷ [] }

-- `watches.find`, `watches[event] = watchInfo` and `watches.erase`.
unfoldable pub find : ℕ → List (ℕ × WatchInfo) → Option WatchInfo
find event [] = none
find event ((e, w) ∷ ws) = let rest = find event ws in if e == event then some w else rest

unfoldable pub assign : ℕ → WatchInfo → List (ℕ × WatchInfo) → List (ℕ × WatchInfo)
assign event info [] = (event, info) ∷ []
assign event info ((e, w) ∷ ws) =
    let rest = assign event info ws in if e == event then (e, info) ∷ ws else (e, w) ∷ rest

unfoldable pub erase : ℕ → List (ℕ × WatchInfo) → List (ℕ × WatchInfo)
erase event [] = []
erase event ((e, w) ∷ ws) = let rest = erase event ws in if e == event then ws else (e, w) ∷ rest

-- `handles.pop_back()` and `handles.erase( handles.begin() + index )`
unfoldable pub pop_back : List ℕ → List ℕ
pop_back [] = []
pop_back (h ∷ []) = []
pop_back (h ∷ k ∷ hs) = h ∷ pop_back (k ∷ hs)

unfoldable pub erase_at : ℕ → List ℕ → List ℕ
erase_at index [] = []
erase_at zero (h ∷ hs) = hs
erase_at (suc index) (h ∷ hs) = h ∷ erase_at index hs

-- AddWatch: the directory's handle and the new event, if Windows gives them, and whether the reading of changes
-- starts. What is thrown, if anything, stands beside the state.
unfoldable pub add_watch :
    (path : Wide) (recursive : Bool) (directory event : Option ℕ) (started : Bool)
    → WatchData
    → WatchData × Option Exception
unfolding assign erase pop_back
add_watch path recursive none event started s =
    (s, some (Exception.invalid_argument "invalid directory name"))
add_watch path recursive (some d) none started s =
    (s, some (Exception.runtime_error "Failed to create watch event"))
add_watch path recursive (some d) (some e) started s =
    let info : WatchInfo = record {
      directory_handle = d;
      path = path;
      recursive = recursive;
      pending_io = false;
    } in
    let there : WatchData = record {
      watches = assign e info s.watches;
      handles = s.handles ++ e ∷ [];
    } in
    if started
    then (
      record there { watches = assign e (record info { pending_io = true }) there.watches },
      none,
    )
    else (
      record { watches = erase e there.watches; handles = pop_back there.handles },
      some (Exception.runtime_error "Failed to start directory monitoring"),
    )

-- What changed in a directory, and what is told of it.
pub data Action : Type 0 where
  added renamed_new_name modified removed renamed_old_name other_action : Action

pub data What : Type 0 where
  create_file modify_file delete_file : What

unfoldable pub told : Action → Option What
told added = some create_file
told renamed_new_name = some create_file
told modified = some modify_file
told removed = some delete_file
told renamed_old_name = some delete_file
told other_action = none

-- The loop over the changes, in a path that `to_bytes` makes of the directory's and the name.
unfoldable pub notices :
    (to_bytes : Wide → Bytes) → Wide → List (Action × Wide) → List (What × Bytes)
unfolding told
notices to_bytes path [] = []
notices to_bytes path ((action, name) ∷ more) =
    let rest = notices to_bytes path more in
    elim (told action) [ none ↦ rest | some w ↦ (w, to_bytes (path ++ name)) ∷ rest ]

-- The round of DirWatch in which the handle at `index` was signaled. `changes` are those of the directory, none if
-- they cannot be got, and `restarted` is whether their reading starts again.
module _ (to_bytes : Wide → Bytes) (changes : Option (List (Action × Wide)))
    (restarted : Bool) where
  unfoldable pub drop_watch : (index event : ℕ) → WatchData → WatchData
  unfolding erase erase_at
  drop_watch index event s = record {
    watches = erase event s.watches;
    handles = erase_at index s.handles;
  }

  unfoldable pub signaled_watch :
      (index event : ℕ) → WatchInfo → WatchData → WatchData × List (What × Bytes)
  unfolding drop_watch notices assign
  signaled_watch index event info s = elim changes [
    | none ↦ (drop_watch index event s, [])
    | some cs ↦ (
      if restarted
          then record s { watches = assign event (record info { pending_io = true }) s.watches }
          else drop_watch index event s,
      notices to_bytes info.path cs,
    )
  ]

  unfoldable pub round : (index : ℕ) → WatchData → WatchData × List (What × Bytes)
  unfolding signaled_watch find erase_at
  round zero s = (s, [])
  round (suc i) s = elim (get_elem? s.handles (suc i)) [
    | none ↦ (s, [])
    | some event ↦ elim (find event s.watches) [
      | none ↦ (record s { handles = erase_at (suc i) s.handles }, [])
      | some info ↦ signaled_watch (suc i) event info s
    ]
  ]

-- A step of the program: a watch is added, with an event that is not in use, or a handle is signaled. Each is one step
-- here; the code takes no lock for either.
pub data Step (s : WatchData) : WatchData → Type 0 where
  add :
      (path : Wide) (recursive : Bool) (directory event : Option ℕ) (started : Bool)
      → ((e : ℕ) → event ≡ some e → find e s.watches ≡ none)
      → Step s (add_watch path recursive directory event started s).0
  signal :
      (to_bytes : Wide → Bytes) (changes : Option (List (Action × Wide))) (restarted : Bool)
      (index : ℕ)
      → Step s (round to_bytes changes restarted index s).0

pub data Reach (stop_event : ℕ) : WatchData → Type 0 where
  start : Reach stop_event (fresh stop_event)
  later : {s t : WatchData} → Reach stop_event s → Step s t → Reach stop_event t
