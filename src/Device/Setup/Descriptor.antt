-- ===== src/Device/Setup/Descriptor.antt =====
-- The HID descriptor of usb.go beside the report that the host then asks for.
use wall_era.Common.{
  ℕ, ◌%◌, ◌≡◌, ◌≢◌, refl, sym, arith, true, false, List, [], ◌∷◌, ◌++◌, some, length, true,
}
use wall_era.Common.Bytes.{uint16_be}
use wall_era.Device.Setup.{
  SetupData, hid_setup, add_hid_class_descriptor, bytes, ledger_nano_x_report,
}

-- The device adds one class descriptor of nine bytes. A host that asks for a report descriptor
-- gets a report, of the type that stands in the seventh byte of the class descriptor and of as
-- many bytes as its last two bytes say, little-endian. The package's numbers for the two requests
-- have to differ from one another and from that of the idle request, as USB has them.
pub report_announced :
    (set_feature get_descriptor : ℕ) (class_descriptors : List (List ℕ)) (setup : SetupData)
    → get_descriptor ≢ set_feature
    → get_descriptor ≢ 10
    → setup.request ≡ get_descriptor
    → setup.value % 256 ≡ 0x22
    → (b0 b1 b2 b3 b4 b5 kind lo hi : ℕ) × (report : List ℕ) × (add_hid_class_descriptor
          class_descriptors
        ≡ class_descriptors ++ ((b0 ∷ b1 ∷ b2 ∷ b3 ∷ b4 ∷ b5 ∷ kind ∷ lo ∷ hi ∷ []) ∷ []))
      × (length report ≡ uint16_be hi lo)
      × (kind ≡ setup.value % 256)
      × (hid_setup set_feature get_descriptor setup
          ≡ record { data_in = some report; ack = false; done = true; stalls = false })
unfolding hid_setup add_hid_class_descriptor bytes
report_announced set_feature get_descriptor class_descriptors setup h1 h2 asks report = (
  0x09,
  0x21,
  1,
  1,
  0,
  1,
  0x22,
  34,
  0,
  ledger_nano_x_report,
  refl,
  refl,
  sym report,
  ground arith,
)
