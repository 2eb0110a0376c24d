-- ===== src/Device/Configure/Linked.antt =====
-- What the controller is started with, seen along the pointers from the device.
use wall_era.Common.{
  ℕ, ◌≡◌, refl, sym, ap, subst, ◌∙◌, true, List, [], ◌∷◌, ◌++◌, Option, none, some, String, length,
  get_elem?, arith,
}
use wall_era.Common.Go.{Result, ok, err}
use wall_era.Common.Bytes.{uint8}
use wall_era.Device.Setup.{add_hid_class_descriptor}
use wall_era.Device.Configure.{
  DeviceDescriptor, EndpointDescriptor, InterfaceDescriptor, ConfigurationDescriptor, UsbDevice,
  Store, UsbLibrary, handler_tx, handler_rx, name_field, described, manufacturer_named,
  product_named, put_manufacturer, put_product, put_serial_number, base_configuration,
  interface_named, interface_added, configured, configuration_added, add_interface, add_endpoints,
  configure_device, start_usb, default_configuration, zero_device,
}

-- What the sources rely on: places are added at the end, and defaults have no pointers.
pub record IsUsbLibrary {E : Type 0} (lib : UsbLibrary E) : Type 0 where
  pub adds_configuration :
      (d d' : UsbDevice) (i : ℕ)
      → lib.add_configuration d i ≡ ok d'
      → d'.configurations ≡ d.configurations ++ (i ∷ [])
  pub adds_interface :
      (c : ConfigurationDescriptor) (i : ℕ)
      → (lib.add_to_configuration c i).interfaces ≡ c.interfaces ++ (i ∷ [])
  pub no_interfaces : lib.configuration_defaults.interfaces ≡ []
  pub no_endpoints : lib.interface_defaults.endpoints ≡ []
  pub no_descriptors : lib.interface_defaults.class_descriptors ≡ []

-- The device has one configuration with one interface, and that has the endpoint that calls `Rx`
-- and the endpoint that calls `Tx`, and the HID class descriptor alone.
pub record IsLinked (s : Store) : Type 0 where
  pub one_configuration : s.device.configurations ≡ 0 ∷ []
  pub is_qualified : s.device.qualifier ≡ some 1
  pub is_set_up : s.device.has_hid_setup ≡ true
  pub one_interface : s.config.interfaces ≡ 0 ∷ []
  pub the_interface : InterfaceDescriptor
  pub is_there : get_elem? s.interfaces 0 ≡ some the_interface
  pub is_hid : the_interface.interface_class ≡ 3
  pub counts : the_interface.num_endpoints ≡ length the_interface.endpoints
  pub class_descriptor : the_interface.class_descriptors ≡ add_hid_class_descriptor []
  pub out_place : ℕ
  pub in_place : ℕ
  pub endpoints_are : the_interface.endpoints ≡ out_place ∷ in_place ∷ []
  pub out_endpoint : EndpointDescriptor
  pub in_endpoint : EndpointDescriptor
  pub out_there : get_elem? s.endpoints out_place ≡ some out_endpoint
  pub in_there : get_elem? s.endpoints in_place ≡ some in_endpoint
  pub out_calls_rx : out_endpoint.function ≡ some handler_rx
  pub in_calls_tx : in_endpoint.function ≡ some handler_tx
  pub out_address : out_endpoint.endpoint_address ≡ 0x01
  pub in_address : in_endpoint.endpoint_address ≡ 0x81

module _ {E : Type 0} (lib : UsbLibrary E) where
  name_field-configurations :
      (text : String) (put : DeviceDescriptor → ℕ → DeviceDescriptor) (r : UsbDevice × Option E)
      → (name_field lib text put r).0.configurations ≡ r.0.configurations
  name_field-configurations text put (d, e) = ground arith

  base_configuration-configurations :
      (d : UsbDevice) → (base_configuration lib d).0.configurations ≡ d.configurations
  unfolding base_configuration
  base_configuration-configurations d =
      name_field-configurations "0001" (put_serial_number lib) (product_named lib d)
      ∙ name_field-configurations "Nano X" (put_product lib) (manufacturer_named lib d)
      ∙ name_field-configurations "Ledger" (put_manufacturer lib) (described lib d, none)

  module _ (is_library : IsUsbLibrary lib) where
    abbrev before : UsbDevice → Store
    before d = record {
      device = d;
      config = default_configuration lib;
      interfaces = [];
      endpoints = [];
    }

    named-IsLinked :
        (d : UsbDevice) (r : Result E (List String × ℕ)) (s : Store)
        → d.configurations ≡ 0 ∷ []
        → configured lib (
            interface_added lib
              (interface_named lib (before (record d { has_hid_setup = true })) r))
          ≡ ok s
        → IsLinked s
    unfolding add_endpoints
    named-IsLinked d (err e) s one run = let never : err e ≡ ok s = run in absurd (cc)
    named-IsLinked d (ok (strings, i)) s one run =
        let final : Store =
          (interface_added lib (
            interface_named lib (before (record d { has_hid_setup = true }))
              (ok (strings, i)))).0 in
        let same : final ≡ s = cc in
        subst IsLinked same (record {
          one_configuration = one;
          is_qualified = ap (λ (l : List ℕ). some (uint8 (length l))) one;
          is_set_up = refl;
          one_interface =
              is_library.adds_interface (default_configuration lib) 0
              ∙ ap (λ (l : List ℕ). l ++ (0 ∷ [])) is_library.no_interfaces;
          the_interface = _;
          is_there = refl;
          is_hid = refl;
          counts = ap (λ (l : List ℕ). length (l ++ (1 ∷ 0 ∷ []))) (sym is_library.no_endpoints);
          class_descriptor = ap add_hid_class_descriptor is_library.no_descriptors;
          out_place = 1;
          in_place = 0;
          endpoints_are = ap (λ (l : List ℕ). l ++ (1 ∷ 0 ∷ [])) is_library.no_endpoints;
          out_endpoint = _;
          in_endpoint = _;
          out_there = refl;
          in_there = refl;
          out_calls_rx = refl;
          in_calls_tx = refl;
          out_address = refl;
          in_address = refl;
        })

    configure_device-IsLinked :
        (d : UsbDevice) (s : Store)
        → d.configurations ≡ 0 ∷ []
        → configured lib (configure_device lib (before d)) ≡ ok s
        → IsLinked s
    unfolding configure_device add_interface
    configure_device-IsLinked d s one run = named-IsLinked d _ s one run

    configuration_added-IsLinked :
        (r : Result E UsbDevice) (s : Store)
        → ((d : UsbDevice) → r ≡ ok d → d.configurations ≡ 0 ∷ [])
        → configuration_added lib r ≡ ok s
        → IsLinked s
    configuration_added-IsLinked (err e) s one run = absurd (cc)
    configuration_added-IsLinked (ok d) s one run = configure_device-IsLinked d s (one d refl) run

    -- If the start of USB returns no error before the controller runs, then from the device one
    -- finds one configuration, in it one interface, and in that the endpoint that calls `Rx`, the
    -- endpoint that calls `Tx` and the HID class descriptor, though the interface was added before
    -- it had them; the numbers of configurations and endpoints are as announced. The library has to
    -- add places at the end, and its default descriptors to be without any.
    pub start_usb-IsLinked : (s : Store) → start_usb lib ≡ ok s → IsLinked s
    unfolding start_usb
    start_usb-IsLinked s run =
        configuration_added-IsLinked
          (lib.add_configuration (base_configuration lib (zero_device lib)).0 0) s
          (λ d added.
            is_library.adds_configuration (base_configuration lib (zero_device lib)).0 d 0 added
            ∙ ap (λ (l : List ℕ). l ++ (0 ∷ []))
                (base_configuration-configurations (zero_device lib)))
          run
