-- ===== src/Tests/Loading.antt =====
-- Two functions of one library, asked for by two paths.
use palmira.Prelude.{
  ◌≡◌, refl, ◌==◌, if◌then◌else◌, List, [], ◌∷◌, ◌++◌, Option, some, none, Result, ok,
}
use palmira.Values.{Bytes, bytes_of}
use palmira.Document.{same_bytes}
use palmira.Plugins.Loading.{
  fullpath, Libraries, load_new, load_module, module_of, find_library, split_last, skip_slashes,
  dir_part, name_part, getcwd, joined_path, enter_dir,
}
use palmira.Plugins.Loading.Once.{load_all}

-- A directory is entered by its whole path, or by its name.
abbrev enter : Bytes → Bytes → Option Bytes
enter cwd [] = some cwd
enter cwd (b ∷ bs) = if b == 47 then some (b ∷ bs) else some (cwd ++ 47 ∷ b ∷ bs)

abbrev load_library : Bytes → Result Bytes
load_library path = ok path

abbrev find_function : Bytes → Bytes → Result Bytes
find_function library name = ok name

abbrev calls : List (Option Bytes × Bytes)
calls = (some (bytes_of "lib/a.so"), []) ∷ (some (bytes_of "/home/lib/a.so"), []) ∷ (none, []) ∷ []

abbrev none_yet : Libraries Bytes
none_yet = record { modules = []; loads = [] }

one_library :
    (load_all load_library enter find_function calls (bytes_of "/home", none_yet)).1 ≡ record {
      modules = (bytes_of "/home/lib/a.so", bytes_of "/home/lib/a.so") ∷ [];
      loads = bytes_of "/home/lib/a.so" ∷ [];
    }
unfolding load_module module_of load_new find_library fullpath split_last skip_slashes dir_part
    name_part getcwd joined_path enter_dir same_bytes
one_library = refl

-- A library in the root is looked for in the current directory.
in_root :
    (fullpath enter 1024 (bytes_of "/home") (some (bytes_of "/a.so"))).0
    ≡ ok (some (bytes_of "/home/a.so"))
unfolding fullpath split_last skip_slashes dir_part name_part getcwd joined_path enter_dir
in_root = refl
