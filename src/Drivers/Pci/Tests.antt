-- ===== src/Drivers/Pci/Tests.antt =====
-- The scan of a bus with one network card.
use nemo_os.Base.{ℕ, ◌≡◌, ◌==◌, if◌then◌else◌, take}
use nemo_os.Drivers.Pci.{pci_init, config_address}
use nemo_os.Drivers.Pci.Scan.{on_bus, pci_init-on_bus}

-- An RTL8139 in slot 3 of bus 0.
abbrev one_card : ℕ → ℕ
one_card a =
    if a == config_address 0 3 0 0
    then 0x813910EC
    else if a == config_address 0 3 0 8
    then 0x02000010
    else if a == config_address 0 3 0 12
    then 0
    else 0xFFFFFFFF

pci_init-on_bus_example : pci_init one_card ≡ take 64 (on_bus one_card)
pci_init-on_bus_example = pci_init-on_bus one_card
