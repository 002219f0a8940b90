-- ===== src/Plugins/Loading/Once.antt =====
-- Each library is loaded once, by a path that fits.
use palmira.Prelude.{◌<◌, ◌≡◌, false, List, [], ◌∷◌, map, length, Option, Result}
use palmira.Values.{Bytes}
use palmira.Document.{same_bytes}
use palmira.Plugins.Loading.{Libraries, load_module}

abbrev pub keys : {L : Type 0} → List (Bytes × L) → List Bytes
keys ls = map (λ l. l.0) ls

abbrev pub NoneIs : Bytes → List Bytes → Type 0
NoneIs path [] = Unit
NoneIs path (p ∷ ps) = (same_bytes p path ≡ false) × NoneIs path ps

-- No path is there twice, and each fits into 1024 bytes with the zero at its end.
abbrev pub AreLoaded : List Bytes → Type 0
AreLoaded [] = Unit
AreLoaded (p ∷ ps) = NoneIs p ps × (length p < 1024) × AreLoaded ps

-- The libraries that are kept are those that have been loaded, and none of them was loaded twice.
pub record LoadedOnce {L : Type 0} (s : Libraries L) : Type 0 where
  pub kept : keys s.modules ≡ s.loads
  pub once : AreLoaded s.loads

module _ {L : Type 0} (load_library : Bytes → Result L) where
  module _ {F : Type 0} (chdir : (cwd dir : Bytes) → Option Bytes)
      (find_function : L → Bytes → Result F) where
    -- Calls of LoadModule one after another, of paths and names.
    abbrev pub load_all : List (Option Bytes × Bytes) → Bytes × Libraries L → Bytes × Libraries L
    load_all [] s = s
    load_all ((path, name) ∷ calls) s =
        let (r, cwd, t) = load_module load_library chdir find_function path name s in
        load_all calls (cwd, t)
