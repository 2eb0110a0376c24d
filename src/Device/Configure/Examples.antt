-- ===== src/Device/Configure/Examples.antt =====
-- The start of USB with a small stand-in for the library.
use wall_era.Common.{ℕ, [], ◌∷◌, some, true}
use wall_era.Device.Configure.{
  UsbDevice, Store, EndpointFunction, handler_tx, handler_rx, EndpointDescriptor,
}
use wall_era.Device.Configure.Toy.{toy_library}

abbrev started_device : UsbDevice
started_device = record {
  language_codes = 0x0409 ∷ [];
  strings = "Ledger" ∷ "Nano X" ∷ "0001" ∷ "fidati interface descriptor" ∷ [];
  descriptor = some (record toy_library.device_defaults {
    vendor_id = 0x2C97;
    product_id = 0x4011;
    device = 1;
    product = 1;
    serial_number = 2;
  });
  has_hid_setup = true;
  configurations = 0 ∷ [];
  qualifier = some 1;
}

abbrev an_endpoint : ℕ → EndpointFunction → EndpointDescriptor
an_endpoint a f = record {
  attributes = 3;
  endpoint_address = a;
  max_packet_size = 512;
  interval = 1;
  function = some f;
}

abbrev started_store : Store
started_store = record {
  device = started_device;
  config = record { attributes = 160; interfaces = 0 ∷ [] };
  interfaces =
      record {
        num_endpoints = 2;
        interface_class = 3;
        interface_sub_class = 0;
        interface_protocol = 0;
        interface = 3;
        endpoints = 1 ∷ 0 ∷ [];
        class_descriptors = (9 ∷ 0x21 ∷ 1 ∷ 1 ∷ 0 ∷ 1 ∷ 0x22 ∷ 34 ∷ 0 ∷ []) ∷ [];
      }
      ∷ [];
  endpoints = an_endpoint 0x81 handler_tx ∷ an_endpoint 0x01 handler_rx ∷ [];
}
