-- ===== src/Tools/Sender.antt =====
-- utils/libruseq/sender.cpp: the sender of archives, with its limit on the requests that are on the way.
pub mod Throttle
use palmira.Prelude.{
  ℕ, ◌+◌, ◌-◌, ◌<◌, ◌≡◌, min, max, Bool, true, false, not, ◌||◌, ◌&&◌, List, [], ◌∷◌, ◌++◌, Option,
  none, some, ◌==◌, if◌then◌else◌, Result, ok, err,
}
use palmira.Values.{Bytes}

-- What the directories hold.
pub data Dirents : Type 0 where
  no_dirent : Dirents
  file : (name : Bytes) → Dirents → Dirents
  directory : (name : Bytes) → (inner : Dirents) → Dirents → Dirents

-- `*dirent.string() != '.'`
abbrev pub is_shown : Bytes → Bool
is_shown [] = true
is_shown (b ∷ bs) = not (b == 46)

abbrev pub slash : ℕ
slash = 47

-- ListArchives, while the program goes on: the names that come into the queue. `path` ends in a slash.
unfoldable pub list_archives : (fnmatch : Bytes → Bool) → (path : Bytes) → Dirents → List Bytes
list_archives fnmatch path no_dirent = []
list_archives fnmatch path (file name more) =
    let rest = list_archives fnmatch path more in
    if is_shown name && fnmatch (path ++ name) then (path ++ name) ∷ rest else rest
list_archives fnmatch path (directory name inner more) =
    let rest = list_archives fnmatch path more in
    let within = list_archives fnmatch (path ++ name ++ slash ∷ []) inner in
    if is_shown name then within ++ rest else rest

-- ReadArchives: what a thread does next, under the lock.
pub data Next : Type 0 where
  waits leaves : Next
  parses : Bytes → List Bytes → Next

unfoldable pub next_archive : (can_continue done : Bool) → List Bytes → Next
next_archive false done list = leaves
next_archive true done (name ∷ list) = parses name list
next_archive true true [] = leaves
next_archive true false [] = waits

-- ParseArchive: the text to index, if the archive can be opened and its first entry is a book.
module _ {X F : Type 0} (open_file : Bytes → Result F)
    (first_entry : F → Result (Option (Bytes × Option F))) (is_fb2 : Bytes → Bool)
    (parse_fb2 : F → Result X) where
  unfoldable pub parse_archive : Bytes → Option X
  parse_archive archive = elim (open_file archive) [
    | err x ↦ none
    | ok f ↦ elim (first_entry f) [
      | err x ↦ none
      | ok e ↦ elim e [
        | none ↦ none
        | some p ↦
            if is_fb2 p.0
            then elim p.1 [
              | none ↦ none
              | some g ↦ elim (parse_fb2 g) [ err x ↦ none | ok x ↦ some x ]
            ]
            else none
      ]
    ]
  ]

-- The status of an answer, as the callback tells it apart.
pub data Code : Type 0 where
  code_ok code_timed_out code_other : Code

-- Where the one thread that holds `requests::locker` stands in IndexArchive.
pub data Phase : Type 0 where
  phase_free : Phase  -- no thread is past the wait
  phase_allowed : Phase  -- past the wait
  phase_inserted : Phase  -- client->Insert was called

-- The counters. `processing` is `counted - finished`: it may be -1 for a while, when an answer comes
-- before its request is counted.
pub record Requests : Type 0 where
  pub ok_count : ℕ
  pub fault : ℕ
  pub timeout : ℕ
  pub maxrequests : ℕ
  pub counted : ℕ
  pub finished : ℕ
  pub phase : Phase

-- The requests that were made.
abbrev pub issued : Phase → ℕ → ℕ
issued phase_inserted counted = counted + 1
issued _ counted = counted

module _ {E : Type 0} (is_positive over_3 under_1_5 : E → Bool) where
  -- The new limit, in RegisterTimeout and in RegisterOK.
  unfoldable pub after_timeout : ℕ → ℕ
  after_timeout curmax = max (curmax - 1) 4

  unfoldable pub after_ok : E → ℕ → ℕ
  after_ok elapse curmax =
      if is_positive elapse
      then if over_3 elapse
        then max (curmax - 1) 4
        else if under_1_5 elapse
        then min (curmax + 1) 100
        else curmax
      else curmax

  -- The callback of IndexArchive.
  unfoldable pub answered : Code → E → Requests → Requests
  unfolding after_timeout after_ok
  answered code_ok elapse s = record s {
    ok_count = s.ok_count + 1;
    maxrequests = after_ok elapse s.maxrequests;
    finished = s.finished + 1;
  }
  answered code_timed_out elapse s = record s {
    timeout = s.timeout + 1;
    maxrequests = after_timeout s.maxrequests;
    finished = s.finished + 1;
  }
  answered code_other elapse s = record s { fault = s.fault + 1; finished = s.finished + 1 }

  -- One step: of the thread in IndexArchive, or an answer to a request that was made.
  pub data Step (s : Requests) : Requests → Type 0 where
    allow :
        s.phase ≡ phase_free
        → s.counted < s.finished + s.maxrequests
        → Step s (record s { phase = phase_allowed })
    insert : s.phase ≡ phase_allowed → Step s (record s { phase = phase_inserted })
    count :
        s.phase ≡ phase_inserted → Step s (record s { phase = phase_free; counted = s.counted + 1 })
    answer :
        (code : Code) (elapse : E)
        → s.finished < issued s.phase s.counted
        → Step s (answered code elapse s)

  abbrev pub fresh : Requests
  fresh = record {
    ok_count = 0;
    fault = 0;
    timeout = 0;
    maxrequests = 20;
    counted = 0;
    finished = 0;
    phase = phase_free;
  }

  pub data Reach : Requests → Type 0 where
    start : Reach fresh
    later : {s t : Requests} → Reach s → Step s t → Reach t
