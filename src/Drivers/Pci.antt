-- ===== src/Drivers/Pci.antt =====
-- src/drivers/pci.cpp: the devices of the PCI bus. The data port answers each address that is
-- written to the address port.
pub mod Scan
pub mod Tests
use nemo_os.Base.{
  ℕ, zero, suc, ◌+◌, ◌*◌, ◌/◌, ◌%◌, ◌^◌, Option, none, some, List, [], ◌∷◌, ◌++◌, ltb, leb, ◌==◌,
  if◌then◌else◌, length, get_elem?,
}

abbrev pub max_pci_devices : ℕ
max_pci_devices = 64

pub record PciDevice : Type 0 where
  pub bus : ℕ
  pub slot : ℕ
  pub func : ℕ
  pub vendor_id : ℕ
  pub device_id : ℕ
  pub class_code : ℕ
  pub subclass : ℕ
  pub prog_if : ℕ
  pub header_type : ℕ

-- The fields of the address do not overlap, so that `|` is `+`.
abbrev pub config_address : ℕ → ℕ → ℕ → ℕ → ℕ
config_address bus slot func offset =
    bus * 2 ^ 16 + slot * 2 ^ 11 + func * 2 ^ 8 + offset / 4 * 4 + 2 ^ 31

unfoldable pub config_read : (ℕ → ℕ) → ℕ → ℕ → ℕ → ℕ → ℕ
config_read port bus slot func offset = port (config_address bus slot func offset)

-- The writes to ports, each with the port.
pub config_write : ℕ → ℕ → ℕ → ℕ → ℕ → List (ℕ × ℕ)
config_write bus slot func offset value =
    (0xCF8, config_address bus slot func offset) ∷ (0xCFC, value) ∷ []

-- The word at 0x00 has the vendor and the device, that at 0x08 the class, that at 0x0C the header
-- type.
abbrev pub vendor_of : (ℕ → ℕ) → ℕ → ℕ → ℕ → ℕ
vendor_of port bus slot func = config_read port bus slot func 0x00 % 2 ^ 16

abbrev pub header_of : (ℕ → ℕ) → ℕ → ℕ → ℕ → ℕ
header_of port bus slot func = config_read port bus slot func 0x0E / 2 ^ 16 % 256

unfoldable pub device_of : (ℕ → ℕ) → ℕ → ℕ → ℕ → PciDevice
device_of port bus slot func =
    let class_rev = config_read port bus slot func 0x0B in
    record {
      bus = bus;
      slot = slot;
      func = func;
      vendor_id = vendor_of port bus slot func;
      device_id = config_read port bus slot func 0x00 / 2 ^ 16;
      class_code = class_rev / 2 ^ 24;
      subclass = class_rev / 2 ^ 16 % 256;
      prog_if = class_rev / 2 ^ 8 % 256;
      header_type = header_of port bus slot func;
    }

-- The array `pci_devices` up to `pci_count`.
unfoldable pub pci_add_device : (ℕ → ℕ) → ℕ → ℕ → ℕ → List PciDevice → List PciDevice
pci_add_device port bus slot func devices =
    if leb max_pci_devices (length devices)
    then devices
    else if vendor_of port bus slot func == 0xFFFF
    then devices
    else devices ++ (device_of port bus slot func ∷ [])

-- The loops of `pci_init`, with `k` rounds left.
unfoldable pub add_functions : ℕ → (ℕ → ℕ) → ℕ → ℕ → ℕ → List PciDevice → List PciDevice
add_functions zero port bus slot func devices = devices
add_functions (suc k) port bus slot func devices = add_functions k port bus slot (func + 1) (
    if vendor_of port bus slot func == 0xFFFF
    then devices
    else pci_add_device port bus slot func devices)

unfoldable pub scan_slot : (ℕ → ℕ) → ℕ → ℕ → List PciDevice → List PciDevice
scan_slot port bus slot devices =
    let first = pci_add_device port bus slot 0 devices in
    if vendor_of port bus slot 0 == 0xFFFF
    then devices
    else if header_of port bus slot 0 / 128 % 2 == 1
    then add_functions 7 port bus slot 1 first
    else first

unfoldable pub scan_slots : ℕ → (ℕ → ℕ) → ℕ → ℕ → List PciDevice → List PciDevice
scan_slots zero port bus slot devices = devices
scan_slots (suc k) port bus slot devices =
    scan_slots k port bus (slot + 1) (scan_slot port bus slot devices)

unfoldable pub scan_buses : ℕ → (ℕ → ℕ) → ℕ → List PciDevice → List PciDevice
scan_buses zero port bus devices = devices
scan_buses (suc k) port bus devices = scan_buses k port (bus + 1) (scan_slots 32 port bus 0 devices)

unfoldable pub pci_init : (ℕ → ℕ) → List PciDevice
pci_init port = scan_buses 256 port 0 []

-- An index is negative as `none`.
pub pci_get_device : Option ℕ → List PciDevice → Option PciDevice
pci_get_device none devices = none
pci_get_device (some index) devices = get_elem? devices index

pub pci_read_config : (ℕ → ℕ) → PciDevice → ℕ → ℕ
pci_read_config port dev offset = config_read port dev.bus dev.slot dev.func offset

pub pci_read_bar : (ℕ → ℕ) → PciDevice → Option ℕ → ℕ
pci_read_bar port dev none = 0
pci_read_bar port dev (some bar_index) =
    if ltb 5 bar_index then 0 else pci_read_config port dev (0x10 + bar_index * 4)

pub pci_write_config : PciDevice → ℕ → ℕ → List (ℕ × ℕ)
pci_write_config dev offset value = config_write dev.bus dev.slot dev.func offset value

pub pci_device_count : List PciDevice → ℕ
pci_device_count devices = length devices
