-- ===== src/Tests/Program.antt =====
-- The program with a configuration of a service and a server.
use palmira.Prelude.{ℕ, ◌≡◌, ◌↔◌, refl, true, [], ◌∷◌, Option, some, Result, ok}
use palmira.Values.{bytes_of, Zmap, entry, key_charstr, z_charstr, z_zmap, no_entry}
use palmira.Setup.{InetServer}
use palmira.Setup.Program.{
  config_of, json_error, zero_code, printed, served, waited, committed, main,
}
use palmira.Setup.Program.Ends.{WentWell, main-WentWell}
use palmira.Tests.Setup.{maps, net}

abbrev whole : Zmap
whole =
    entry (key_charstr (bytes_of "service"))
      (z_zmap (entry (key_charstr (bytes_of "path")) (z_charstr []) no_entry)) net

abbrev structo : Zmap → Result (Option ℕ)
structo section = ok (some 3)

abbrev goes_well : InetServer → Result (Unit {0})
goes_well server = ok tt

abbrev commits : ℕ → Result (Unit {0})
commits search = ok tt

not_parsed :
    main maps true no_entry structo goes_well goes_well commits (λ file. json_error) ([] ∷ [] ∷ [])
    ≡ (printed, [])
unfolding main
not_parsed = refl

main-WentWell_example :
    (((main maps true no_entry structo goes_well goes_well commits
          (λ file. config_of whole)
          ([] ∷ [] ∷ [])).0
        ≡ zero_code)
      ↔ WentWell maps true no_entry structo goes_well goes_well commits whole)
    × ((main maps true no_entry structo goes_well goes_well commits
            (λ file. config_of whole)
            ([] ∷ [] ∷ [])
          ≡ (zero_code, served ∷ waited ∷ committed ∷ []))
        ↔ WentWell maps true no_entry structo goes_well goes_well commits whole)
main-WentWell_example =
    main-WentWell maps true no_entry structo goes_well goes_well commits (λ file. config_of whole)
      [] [] [] whole refl
