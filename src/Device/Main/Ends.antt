-- ===== src/Device/Main/Ends.antt =====
-- How the firmware starts and ends.
use wall_era.Common.{
  ℕ, zero, suc, arith, ◌≡◌, refl, ap, ◌∙◌, Bool, List, [], ◌∷◌, ◌++◌, concat, map, Option, none,
  some,
}
use wall_era.Common.Go.{Outcome, returns, panics}
use wall_era.Apps.Cosmos.{Libraries}
use wall_era.Device.Configure.{UsbLibrary}
use wall_era.Device.Configure.Linked.{IsUsbLibrary}
use wall_era.Device.Main.{
  Event, panic_logged, second_waited, Build, Running, reboots, read_into, watch_round,
  reboot_watcher,
}

module _ {T E B U F : Type 0} (build : Build T E) (libs : Libraries B) (usb : UsbLibrary U)
    (is_library : IsUsbLibrary usb) (native : Bool) (frequency : Option F)
    (run : Running T E B → Outcome (Unit {0})) where
  abbrev pub panicked : List Event
  panicked = panic_logged ∷ second_waited ∷ build.reset_board ∷ []

  -- The end of the program after the controller ran.
  abbrev pub after : Outcome (Unit {0}) → List Event
  after panics = panicked
  after (returns _) = build.reset_board ∷ []

watch_round-clears :
    (reset_board : Event) (b : ℕ) → watch_round reset_board b ≡ (reboots reset_board b, 0)
watch_round-clears reset_board zero = refl
watch_round-clears reset_board (suc b) = ground arith

-- Every `r` that is read resets the board once: no byte is left in the buffer for the next round.
-- So the events are those of the bytes one by one, and a round that reads nothing has none.
pub reboot_watcher-each :
    (reset_board : Event) (reads : List (Option ℕ))
    → reboot_watcher reset_board 0 reads
      ≡ concat (map (λ (r : Option ℕ). reboots reset_board (read_into reset_board 0 r)) reads)
reboot_watcher-each reset_board [] = refl
reboot_watcher-each reset_board (none ∷ reads) = reboot_watcher-each reset_board reads
reboot_watcher-each reset_board (some b ∷ reads) =
    ap (λ (r : List Event × ℕ). r.0 ++ reboot_watcher reset_board r.1 reads)
      (watch_round-clears reset_board b)
    ∙ ap (λ (rest : List Event). reboots reset_board b ++ rest)
        (reboot_watcher-each reset_board reads)
