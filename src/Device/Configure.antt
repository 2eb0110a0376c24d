-- ===== src/Device/Configure.antt =====
-- The configuration of the USB device: usb.go and firmware/usb.go. Descriptors are shared by
-- pointers, so that interfaces and endpoints are kept in a store, and named by their place in it.
pub mod Linked
pub mod Toy
mod Examples
use wall_era.Common.{
  ℕ, zero, suc, ◌+◌, Bool, true, false, List, [], ◌∷◌, ◌++◌, Option, none, some, String, length,
}
use wall_era.Common.Go.{Result, ok, err}
use wall_era.Common.Bytes.{uint8}
use wall_era.Device.Setup.{add_hid_class_descriptor}

-- The fields of third-party descriptors that the sources write.
pub record DeviceDescriptor : Type 0 where
  pub device_class : ℕ
  pub device_sub_class : ℕ
  pub device_protocol : ℕ
  pub vendor_id : ℕ
  pub product_id : ℕ
  pub device : ℕ
  pub manufacturer : ℕ
  pub product : ℕ
  pub serial_number : ℕ

pub data EndpointFunction : Type 0 where
  handler_tx handler_rx : EndpointFunction

pub record EndpointDescriptor : Type 0 where
  pub attributes : ℕ
  pub endpoint_address : ℕ
  pub max_packet_size : ℕ
  pub interval : ℕ
  pub function : Option EndpointFunction

pub record InterfaceDescriptor : Type 0 where
  pub num_endpoints : ℕ
  pub interface_class : ℕ
  pub interface_sub_class : ℕ
  pub interface_protocol : ℕ
  pub interface : ℕ
  pub endpoints : List ℕ
  pub class_descriptors : List (List ℕ)

pub record ConfigurationDescriptor : Type 0 where
  pub attributes : ℕ
  pub interfaces : List ℕ

pub record UsbDevice : Type 0 where
  pub language_codes : List ℕ
  pub strings : List String
  pub descriptor : Option DeviceDescriptor
  pub has_hid_setup : Bool
  pub configurations : List ℕ
  -- The number of configurations in the qualifier.
  pub qualifier : Option ℕ

-- The one configuration, at place 0, and the objects in the store.
pub record Store : Type 0 where
  pub device : UsbDevice
  pub config : ConfigurationDescriptor
  pub interfaces : List InterfaceDescriptor
  pub endpoints : List EndpointDescriptor

-- What the sources use of the USB library: descriptors after `SetDefaults`, `AddString` on the
-- strings of the device, and what a device or a configuration is when a place was added to it.
pub record UsbLibrary (E : Type 0) : Type 0 where
  pub device_defaults : DeviceDescriptor
  pub configuration_defaults : ConfigurationDescriptor
  pub interface_defaults : InterfaceDescriptor
  pub endpoint_defaults : EndpointDescriptor
  pub add_string : List String → String → Result E (List String × ℕ)
  pub add_configuration : UsbDevice → ℕ → Result E UsbDevice
  pub add_to_configuration : ConfigurationDescriptor → ℕ → ConfigurationDescriptor

-- A change of the object at a place.
abbrev pub modify : {A : Type 0} → ℕ → (A → A) → List A → List A
modify i f [] = []
modify zero f (a ∷ rest) = f a ∷ rest
modify (suc i) f (a ∷ rest) = a ∷ modify i f rest

module _ {E : Type 0} (lib : UsbLibrary E) where
  open lib use {
    device_defaults, configuration_defaults, interface_defaults, endpoint_defaults, add_string,
    add_configuration, add_to_configuration,
  }

  abbrev string_added :
      UsbDevice
      → (DeviceDescriptor → ℕ → DeviceDescriptor)
      → DeviceDescriptor
      → Result E (List String × ℕ)
      → UsbDevice × Option E
  string_added d put desc (err e) = (d, some e)
  string_added d put desc (ok (strings, i)) =
      (record d { strings = strings; descriptor = some (put desc i) }, none)

  -- `AddString`, and its index in a field of the device's descriptor.
  abbrev pub name_field :
      String
      → (DeviceDescriptor → ℕ → DeviceDescriptor)
      → UsbDevice × Option E
      → UsbDevice × Option E
  name_field s put (d, some e) = (d, some e)
  name_field s put (d, none) = elim d.descriptor [
    | none ↦ (d, none)
    | some desc ↦ string_added d put desc (add_string d.strings s)
  ]

  abbrev pub described : UsbDevice → UsbDevice
  described d = record d {
    language_codes = 0x0409 ∷ [];
    descriptor = some (record device_defaults {
      device_class = 0x0;
      device_sub_class = 0x0;
      device_protocol = 0x0;
      vendor_id = 0x2C97;
      product_id = 0x4011;
      device = 0x0001;
    });
  }

  abbrev pub put_manufacturer : DeviceDescriptor → ℕ → DeviceDescriptor
  put_manufacturer desc i = record desc { manufacturer = i }

  abbrev pub put_product : DeviceDescriptor → ℕ → DeviceDescriptor
  put_product desc i = record desc { product = i }

  abbrev pub put_serial_number : DeviceDescriptor → ℕ → DeviceDescriptor
  put_serial_number desc i = record desc { serial_number = i }

  abbrev pub manufacturer_named : UsbDevice → UsbDevice × Option E
  manufacturer_named d = name_field "Ledger" put_manufacturer (described d, none)

  abbrev pub product_named : UsbDevice → UsbDevice × Option E
  product_named d = name_field "Nano X" put_product (manufacturer_named d)

  -- The fields that are set so far stay also where an error is returned.
  unfoldable pub base_configuration : UsbDevice → UsbDevice × Option E
  base_configuration d = name_field "0001" put_serial_number (product_named d)

  abbrev new_interface : InterfaceDescriptor
  new_interface = record interface_defaults {
    num_endpoints = 2;
    interface_class = 0x03;
    interface_sub_class = 0x0;
    interface_protocol = 0x0;
  }

  abbrev pub interface_named : Store → Result E (List String × ℕ) → Store × Result E ℕ
  interface_named s (err e) = (s, err e)
  interface_named s (ok (strings, i)) =
      let id : ℕ = length s.interfaces in
      (
        record s {
          device = record s.device { strings = strings };
          config = add_to_configuration s.config id;
          interfaces = s.interfaces ++ (record new_interface { interface = i } ∷ []);
        },
        ok id,
      )

  -- The place of the new interface.
  unfoldable pub add_interface : Store → Store × Result E ℕ
  add_interface s = interface_named s (add_string s.device.strings "fidati interface descriptor")

  abbrev endpoint_at : ℕ → EndpointDescriptor
  endpoint_at a = record endpoint_defaults {
    attributes = 0x03;
    endpoint_address = a;
    max_packet_size = 512;
    interval = 1;
  }

  -- The places of the endpoints, `in` and `out`.
  unfoldable pub add_endpoints : ℕ → Store → Store × ℕ × ℕ
  add_endpoints id s =
      let input : ℕ = length s.endpoints in
      let output : ℕ = input + 1 in
      (
        record s {
          endpoints = s.endpoints ++ (endpoint_at 0x81 ∷ endpoint_at 0x01 ∷ []);
          interfaces =
              modify id
                (λ (i : InterfaceDescriptor). record i {
                  endpoints = i.endpoints ++ (output ∷ input ∷ []);
                })
                s.interfaces;
        },
        input,
        output,
      )

  abbrev calls : EndpointFunction → EndpointDescriptor → EndpointDescriptor
  calls f e = record e { function = some f }

  abbrev pub interface_added : Store × Result E ℕ → Store × Option E
  interface_added (s, err e) = (s, some e)
  interface_added (s, ok id) =
      let (s', input, output) = add_endpoints id s in
      (
        record s' {
          endpoints =
              modify output (calls handler_rx) (modify input (calls handler_tx) s'.endpoints);
          interfaces =
              modify id
                (λ (i : InterfaceDescriptor). record i {
                  class_descriptors = add_hid_class_descriptor i.class_descriptors;
                })
                s'.interfaces;
          device = record s'.device { qualifier = some (uint8 (length s'.device.configurations)) };
        },
        none,
      )

  -- `ConfigureUSB` only calls it.
  unfoldable pub configure_device : Store → Store × Option E
  configure_device s =
      interface_added
        (add_interface (record s { device = record s.device { has_hid_setup = true } }))

  abbrev pub zero_device : UsbDevice
  zero_device = record {
    language_codes = [];
    strings = [];
    descriptor = none;
    has_hid_setup = false;
    configurations = [];
    qualifier = none;
  }

  abbrev pub default_configuration : ConfigurationDescriptor
  default_configuration = record configuration_defaults { attributes = 160 }

  abbrev pub configured : Store × Option E → Result E Store
  configured (s, some e) = err e
  configured (s, none) = ok s

  abbrev pub configuration_added : Result E UsbDevice → Result E Store
  configuration_added (err e) = err e
  configuration_added (ok d) = configured (
      configure_device
        (record { device = d; config = default_configuration; interfaces = []; endpoints = [] }))

  -- What the controller is started with. The error of `baseConfiguration` is dropped.
  unfoldable pub start_usb : Result E Store
  start_usb = configuration_added (add_configuration (base_configuration zero_device).0 0)
