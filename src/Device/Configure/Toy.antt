-- ===== src/Device/Configure/Toy.antt =====
-- A small stand-in for the USB library, for the tests.
use wall_era.Common.{ℕ, ◌≡◌, refl, sym, ap, [], ◌∷◌, ◌++◌, none, length}
use wall_era.Common.Go.{ok}
use wall_era.Device.Configure.{UsbLibrary, UsbDevice}
use wall_era.Device.Configure.Linked.{IsUsbLibrary}

abbrev pub toy_library : UsbLibrary ℕ
toy_library = record {
  device_defaults = record {
    device_class = 0;
    device_sub_class = 0;
    device_protocol = 0;
    vendor_id = 0;
    product_id = 0;
    device = 0;
    manufacturer = 0;
    product = 0;
    serial_number = 0;
  };
  configuration_defaults = record { attributes = 0; interfaces = [] };
  interface_defaults = record {
    num_endpoints = 0;
    interface_class = 0;
    interface_sub_class = 0;
    interface_protocol = 0;
    interface = 0;
    endpoints = [];
    class_descriptors = [];
  };
  endpoint_defaults = record {
    attributes = 0;
    endpoint_address = 0;
    max_packet_size = 0;
    interval = 0;
    function = none;
  };
  add_string = λ strings s. ok (strings ++ (s ∷ []), length strings);
  add_configuration = λ d i. ok (record d { configurations = d.configurations ++ (i ∷ []) });
  add_to_configuration = λ c i. record c { interfaces = c.interfaces ++ (i ∷ []) };
}

added_at_end :
    (d d' : UsbDevice) (i : ℕ)
    → toy_library.add_configuration d i ≡ ok d'
    → d'.configurations ≡ d.configurations ++ (i ∷ [])
added_at_end d d' i e =
    let same : record d { configurations = d.configurations ++ (i ∷ []) } ≡ d' = cc in
    sym (ap (λ (t : UsbDevice). t.configurations) same)

pub toy_library-IsUsbLibrary : IsUsbLibrary toy_library
toy_library-IsUsbLibrary = record {
  adds_configuration = added_at_end;
  adds_interface = λ c i. refl;
  no_interfaces = refl;
  no_endpoints = refl;
  no_descriptors = refl;
}
