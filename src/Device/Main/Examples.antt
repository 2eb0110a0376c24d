-- ===== src/Device/Main/Examples.antt =====
-- The start of the firmware at concrete builds.
use wall_era.Common.{ℕ, ◌≡◌, refl, true, [], ◌∷◌, Option, none, some}
use wall_era.Common.Go.{Outcome, returns, panics}
use wall_era.Crypto.Toy.{toy_keychain, toy_random, toy_hmac}
use wall_era.Crypto.{TokenError}
use wall_era.Crypto.DumbToken.{DumbToken}
use wall_era.Apps.Toy.{toy_libraries}
use wall_era.Tee.Toy.{toy_json}
use wall_era.Device.Configure.{
  start_usb, base_configuration, configure_device, add_interface, add_endpoints,
}
use wall_era.Device.Configure.Toy.{toy_library}
use wall_era.Device.Main.{
  accessory_awaited, frequency_warned, panic_logged, second_waited, half_second_waited,
  controller_initialized, reset_usbarmory, reset_imx6, Build, plain_build, tee_build, Running, main,
  firmware, reboot_watcher,
}

abbrev toy_build : Build (DumbToken toy_keychain) (TokenError (toy_keychain.Error))
toy_build = plain_build toy_keychain toy_random toy_hmac

abbrev Ran : Type 0
Ran = Running (DumbToken toy_keychain) (TokenError (toy_keychain.Error)) ℕ

abbrev frequency_set : Option ℕ
frequency_set = none

abbrev frequency_not_set : Option ℕ
frequency_not_set = some 3

abbrev breaks : Ran → Outcome (Unit {0})
breaks r = panics

firmware_panics :
    firmware toy_build toy_libraries toy_library true frequency_not_set breaks
    ≡ accessory_awaited ∷ frequency_warned ∷ controller_initialized ∷ panic_logged ∷ second_waited
      ∷ reset_usbarmory ∷ []
unfolding firmware main start_usb base_configuration configure_device add_interface add_endpoints
firmware_panics = refl

firmware_with_applet :
    firmware
      (tee_build toy_json (λ k c. returns c) (λ bs. bs) [])
      toy_libraries
      toy_library
      true
      frequency_set
      (λ r. returns _)
    ≡ controller_initialized ∷ reset_imx6 ∷ []
unfolding firmware main start_usb base_configuration configure_device add_interface add_endpoints
firmware_with_applet = refl

watcher_resets :
    reboot_watcher reset_imx6 0 (some 114 ∷ none ∷ some 7 ∷ some 114 ∷ [])
    ≡ half_second_waited ∷ reset_imx6 ∷ half_second_waited ∷ reset_imx6 ∷ []
watcher_resets = refl
