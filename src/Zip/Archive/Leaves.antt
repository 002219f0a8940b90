-- ===== src/Zip/Archive/Leaves.antt =====
-- What minizip::Read passes to `fnTxt`.
use mathlib.Core.List.{append_assoc, append-nil}
use palmira.Prelude.{
  ℕ, zero, suc, ◌≡◌, ◌≢◌, refl, sym, subst, ◌∙◌, inl, inr, ◌⊎◌, List, [], ◌∷◌, ◌++◌, Option, none,
  some, Result, ok,
}
use palmira.Zip.Archive.{Member, Call, read_members, read}

module _ (unzip : List ℕ → Option (List Member)) where
  -- A file that is not empty has a property, and every such file has.
  abbrev pub InFile : (List ℕ → Type 0) → Option (List ℕ) → Type 0
  InFile P none = Unit
  InFile P (some []) = Unit
  InFile P (some (b ∷ bs)) = P (b ∷ bs)

  abbrev pub Every : (List ℕ → Type 0) → List Member → Type 0
  Every P [] = Unit
  Every P (m ∷ ms) = InFile P m.contents × Every P ms

  -- Archives are nested at most `n` deep.
  abbrev pub IsShallow : ℕ → List ℕ → Type 0
  IsShallow zero input = unzip input ≡ none
  IsShallow (suc n) input =
      (unzip input ≡ none) ⊎ ((ms : List Member) × (unzip input ≡ some ms) × Every (IsShallow n) ms)

  -- The calls are for data that are no archive and are not empty, with names that begin with `names`.
  abbrev pub AllLeaves : List (List ℕ) → List Call → Type 0
  AllLeaves names [] = Unit
  AllLeaves names (c ∷ cs) =
      (unzip c.input ≡ none)
      × (c.input ≢ [])
      × ((more : List (List ℕ)) × (c.names ≡ names ++ more))
      × AllLeaves names cs

  AllLeaves-append :
      (names : List (List ℕ)) (xs ys : List Call)
      → AllLeaves names xs
      → AllLeaves names ys
      → AllLeaves names (xs ++ ys)
  AllLeaves-append names [] ys h k = k
  AllLeaves-append names (x ∷ xs) ys h k = (h.0, h.1, h.2, AllLeaves-append names xs ys h.3 k)

  AllLeaves-outer :
      (names : List (List ℕ)) (n : List ℕ) (xs : List Call)
      → AllLeaves (names ++ n ∷ []) xs
      → AllLeaves names xs
  AllLeaves-outer names n [] h = tt
  AllLeaves-outer names n (x ∷ xs) h = (
    h.0,
    h.1,
    (n ∷ h.2.0, h.2.1 ∙ append_assoc names (n ∷ []) h.2.0),
    AllLeaves-outer names n xs h.3,
  )

  -- The calls that data and files give rise to: data that are no archive one, with their names, and an
  -- archive those of its files in turn, each with its name behind the names. Files that cannot be read
  -- and empty ones give rise to none.
  mutual
    pub data IsRead : List ℕ → List (List ℕ) → List Call → Type 0 where
      leaf :
          {input : List ℕ} {names : List (List ℕ)}
          → unzip input ≡ none
          → IsRead input names (record { input = input; names = names } ∷ [])
      archive :
          {input : List ℕ} {names : List (List ℕ)} {ms : List Member} {calls : List Call}
          → unzip input ≡ some ms
          → AreRead ms names calls
          → IsRead input names calls

    pub data AreRead : List Member → List (List ℕ) → List Call → Type 0 where
      no_member : {names : List (List ℕ)} → AreRead [] names []
      unread :
          {m : Member} {ms : List Member} {names : List (List ℕ)} {calls : List Call}
          → m.contents ≡ none
          → AreRead ms names calls
          → AreRead (m ∷ ms) names calls
      empty :
          {m : Member} {ms : List Member} {names : List (List ℕ)} {calls : List Call}
          → m.contents ≡ some []
          → AreRead ms names calls
          → AreRead (m ∷ ms) names calls
      file :
          {m : Member} {ms : List Member} {names : List (List ℕ)} {b : ℕ} {bs : List ℕ}
          {calls more : List Call}
          → m.contents ≡ some (b ∷ bs)
          → IsRead (b ∷ bs) (names ++ m.name ∷ []) calls
          → AreRead ms names more
          → AreRead (m ∷ ms) names (calls ++ more)

  abbrev pub Reads : List ℕ → List (List ℕ) → Result (List Call) → Type 0
  Reads input names r =
      (calls : List Call) × (r ≡ ok calls) × IsRead input names calls × AllLeaves names calls

  abbrev ReadsAll : List Member → List (List ℕ) → Result (List Call) → Type 0
  ReadsAll ms names r =
      (calls : List Call) × (r ≡ ok calls) × AreRead ms names calls × AllLeaves names calls

  read_members-Reads :
      (P : List ℕ → Type 0) (read_one : List ℕ → List (List ℕ) → Result (List Call))
      → ((b : ℕ) (bs : List ℕ) (names : List (List ℕ))
          → P (b ∷ bs)
          → Reads (b ∷ bs) names (read_one (b ∷ bs) names))
      → (names : List (List ℕ)) (ms : List Member) → Every P ms
      → ReadsAll ms names (read_members unzip read_one names ms)
  unfolding read_members
  read_members-Reads P read_one each names [] h = ([], refl, no_member, tt)
  read_members-Reads P read_one each names (m ∷ ms) h =
      member m.contents refl (read_members-Reads P read_one each names ms h.1)
    where
      member :
          (c : Option (List ℕ))
          → m.contents ≡ c
          → ReadsAll ms names (read_members unzip read_one names ms)
          → ReadsAll (m ∷ ms) names (read_members unzip read_one names (m ∷ ms))
      member none e (more, run, are, leaves) =
          (more, rw (e, run, read_members), unread e are, leaves)
      member (some []) e (more, run, are, leaves) =
          (more, rw (e, run, read_members), empty e are, leaves)
      member (some (b ∷ bs)) e (more, run, are, leaves) =
          let (calls, run', is, leaves') =
            each b bs (names ++ m.name ∷ []) (subst (InFile P) e h.0) in
          (
            calls ++ more,
            rw (e, run', run, read_members),
            file e is are,
            AllLeaves-append names calls more (AllLeaves-outer names m.name calls leaves') leaves,
          )

  one :
      (b : ℕ) (bs : List ℕ) (names : List (List ℕ))
      → unzip (b ∷ bs) ≡ none
      → AllLeaves names (record { input = b ∷ bs; names = names } ∷ [])
  one b bs names h = (h, (λ e. cc e), ([], sym (append-nil names)), tt)

  -- Of data that are not empty, in which archives are nested at most `n` deep, all is read with fuel
  -- for one level more: it throws nothing, and passes on, in their order, exactly the files that can
  -- be read and are no archive and not empty, of archives at every depth, each with the names that
  -- lead to it behind those given, or the data themselves if they are no archive.
  pub read-Reads :
      (n b : ℕ) (bs : List ℕ) (names : List (List ℕ))
      → IsShallow n (b ∷ bs)
      → Reads (b ∷ bs) names (read unzip (suc n) (b ∷ bs) names)
  unfolding read
  read-Reads zero b bs names h =
      (record { input = b ∷ bs; names = names } ∷ [], rw (h, read), leaf h, one b bs names h)
  read-Reads (suc n) b bs names (inl h) =
      (record { input = b ∷ bs; names = names } ∷ [], rw (h, read), leaf h, one b bs names h)
  read-Reads (suc n) b bs names (inr (ms, h, each)) =
      let (calls, run, are, leaves) =
        read_members-Reads (IsShallow n) (read unzip (suc n)) (λ c cs ns k. read-Reads n c cs ns k)
          names ms each in
      (calls, rw (h, read) run, archive h are, leaves)
