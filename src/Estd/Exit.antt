-- ===== src/Estd/Exit.antt =====
-- How the program of cmd/estd/main.go ends.
use est.Common.{◌≡◌, ◌≢◌, ◌↔◌, ◌⊎◌, [], some, Bytes, ok}
use est.Config.Laws.{IsLawful}
use est.Estd.{Platform, Ending, wait_for_end, Server, start, main}

module _ (P : Platform) where
  module _ (H : IsLawful P.host) where
    abbrev EndsWell : Bytes → Ending → Type 0
    EndsWell path ending =
        (path ≢ []) × (s : Server P) × (start P path ≡ some (ok s)) × (wait_for_end ending ≡ ok tt)

    abbrev Exits : Bytes → Ending → Type 0
    Exits path ending =
        ((main P path ending ≡ some 0) ⊎ (main P path ending ≡ some 1))
        × ((main P path ending ≡ some 0) ↔ EndsWell path ending)
