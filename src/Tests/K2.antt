-- ===== src/Tests/K2.antt =====
-- A walk over a directory that has a hidden file, a link, and a directory with a header.
use palmira.Prelude.{true, false, [], ◌∷◌, ◌≡◌, refl, some}
use palmira.Values.{bytes_of}
use palmira.Watch.{with_slash}
use palmira.Document.{same_bytes}
use palmira.K2.{
  Dirents, no_dirent, file, directory, Progress, extension, any_same, check_ext, index_dir,
  last_block, load_text, insert_task,
}
use palmira.K2.Walk.{wanted, files_within, index_dir_lem}

abbrev sources : Dirents
sources = file (bytes_of ".x.c") (
    file (bytes_of "a.cpp") (
      directory (bytes_of "link") (some true) (file (bytes_of "b.c") no_dirent) (
        directory (bytes_of "sub") (some false)
          (file (bytes_of "c.h") (file (bytes_of "d.md") no_dirent)) no_dirent)))

abbrev idle : Progress
idle = record { counter = 0; queue = []; completed = 0 }

check_ext_dots : check_ext (bytes_of "a.b.cpp") (bytes_of "cpp" ∷ []) ≡ true
unfolding check_ext extension any_same same_bytes
check_ext_dots = refl

insert_task_lines :
    insert_task [] (some (65 ∷ 10 ∷ 66 ∷ [])) ≡ some ([], (65 ∷ 10 ∷ []) ∷ (66 ∷ []) ∷ [])
unfolding insert_task load_text last_block
insert_task_lines = refl

walk_ends :
    (index_dir false (λ p. 0) (bytes_of "/s") sources idle).queue
    ≡ bytes_of "/s/a.cpp" ∷ bytes_of "/s/sub/c.h" ∷ []
unfolding index_dir same_bytes
walk_ends = refl

index_dir_lem_example : index_dir false (λ p. 0) (bytes_of "/s") sources idle ≡ record {
  counter = 0;
  queue = wanted (λ p. 0) (files_within false (with_slash (bytes_of "/s")) sources);
  completed = 1;
}
index_dir_lem_example = index_dir_lem false (λ p. 0) (bytes_of "/s") sources idle
