-- ===== src/Device/Setup.antt =====
-- usb.go: the HID descriptor and the answers to the host's setup requests.
pub mod Descriptor
use wall_era.Common.{
  ℕ, ◌%◌, ◌&&◌, Bool, true, false, List, [], ◌∷◌, ◌++◌, Option, none, some, ◌==◌, if◌then◌else◌,
  length,
}
use wall_era.Common.Bytes.{uint16, put_uint16_le}

abbrev pub hid_request_set_idle : ℕ
hid_request_set_idle = 10

abbrev pub hid_request_type_get_descriptor : ℕ
hid_request_type_get_descriptor = 0x21

abbrev pub descriptor_type_get_report : ℕ
descriptor_type_get_report = 0x22

abbrev pub ledger_nano_x_report : List ℕ
ledger_nano_x_report =
    0x06 ∷ 0xA0 ∷ 0xFF ∷ 0x09 ∷ 0x01 ∷ 0xA1 ∷ 0x01 ∷ 0x09 ∷ 0x03 ∷ 0x15 ∷ 0x00 ∷ 0x26 ∷ 0xFF ∷ 0x00
    ∷ 0x75 ∷ 0x08 ∷ 0x95 ∷ 0x40 ∷ 0x81 ∷ 0x08 ∷ 0x09 ∷ 0x04 ∷ 0x15 ∷ 0x00 ∷ 0x26 ∷ 0xFF ∷ 0x00
    ∷ 0x75 ∷ 0x08 ∷ 0x95 ∷ 0x40 ∷ 0x91 ∷ 0x08 ∷ 0xC0 ∷ []

pub record HidDescriptor : Type 0 where
  pub length : ℕ  -- uint8
  pub descriptor_type : ℕ  -- uint8
  pub bcd_hid : ℕ  -- uint16
  pub country_code : ℕ  -- uint8
  pub num_descriptors : ℕ  -- uint8
  pub report_descriptor_type : ℕ  -- uint8
  pub descriptor_length : ℕ  -- uint16

abbrev zero_descriptor : HidDescriptor
zero_descriptor = record {
  length = 0;
  descriptor_type = 0;
  bcd_hid = 0;
  country_code = 0;
  num_descriptors = 0;
  report_descriptor_type = 0;
  descriptor_length = 0;
}

abbrev pub set_defaults : HidDescriptor → HidDescriptor
set_defaults d = record d { length = 0x09; descriptor_type = 0x21; bcd_hid = 0x101 }

-- `binary.Write` of the fields, in order and little-endian.
unfoldable pub bytes : HidDescriptor → List ℕ
bytes d =
    (d.length ∷ d.descriptor_type ∷ [])
    ++ put_uint16_le d.bcd_hid
    ++ (d.country_code ∷ d.num_descriptors ∷ d.report_descriptor_type ∷ [])
    ++ put_uint16_le d.descriptor_length

-- The class descriptors of an interface, with the one of this device at their end.
unfoldable pub add_hid_class_descriptor : List (List ℕ) → List (List ℕ)
unfolding bytes
add_hid_class_descriptor class_descriptors =
    let hid = record (set_defaults zero_descriptor) {
      country_code = 0x0;
      num_descriptors = 0x01;
      report_descriptor_type = 0x22;
      descriptor_length = uint16 (length ledger_nano_x_report);
    } in
    class_descriptors ++ (bytes hid ∷ [])

-- The fields that the function reads of a third-party `usb.SetupData`.
pub record SetupData : Type 0 where
  pub request_type : ℕ  -- uint8
  pub request : ℕ  -- uint8
  pub value : ℕ  -- uint16

-- The four results; `stalls` says that there is an error.
pub record SetupAnswer : Type 0 where
  pub data_in : Option (List ℕ)
  pub ack : Bool
  pub done : Bool
  pub stalls : Bool

abbrev pub no_answer : SetupAnswer
no_answer = record { data_in = none; ack = false; done = false; stalls = false }

-- The request numbers of the USB package are parameters.
module _ (set_feature get_descriptor : ℕ) where
  unfoldable pub hid_setup : SetupData → SetupAnswer
  hid_setup setup =
      if setup.request == set_feature
      then record no_answer { stalls = true; done = true }
      else if setup.request_type % 128 == hid_request_type_get_descriptor
          && setup.request == hid_request_set_idle
      then record no_answer { ack = true; done = true }
      else if setup.request == get_descriptor && setup.value % 256 == descriptor_type_get_report
      then record no_answer { data_in = some ledger_nano_x_report; done = true }
      else no_answer
