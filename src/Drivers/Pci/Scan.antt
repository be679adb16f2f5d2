-- ===== src/Drivers/Pci/Scan.antt =====
-- src/drivers/pci.cpp: the scan finds the functions that are there.
use nemo_os.Base.{
  ℕ, zero, suc, ◌+◌, ◌/◌, ◌%◌, ◌≡◌, refl, sym, ap, ◌∙◌, inl, inr, Bool, true, false, List, [], ◌∷◌,
  ◌++◌, arith, leb, ◌==◌, if◌then◌else◌, Bool-cases, length, take,
}
use mathlib.Core.List.{append_assoc, append-nil}
use nemo_os.Drivers.Pci.{
  PciDevice, vendor_of, header_of, device_of, pci_add_device, add_functions, scan_slot, scan_slots,
  scan_buses, pci_init,
}

-- A function with a vendor.
abbrev pub at_function : (ℕ → ℕ) → ℕ → ℕ → ℕ → List PciDevice
at_function port bus slot func =
    if vendor_of port bus slot func == 0xFFFF then [] else device_of port bus slot func ∷ []

-- The lists for the numbers from `i` on, `k` of them, one after the other.
abbrev pub each : (ℕ → List PciDevice) → ℕ → ℕ → List PciDevice
each f zero i = []
each f (suc k) i = f i ++ each f k (i + 1)

-- A slot: its first function, and the seven others if that has more than one.
abbrev pub at_slot : (ℕ → ℕ) → ℕ → ℕ → List PciDevice
at_slot port bus slot =
    if vendor_of port bus slot 0 == 0xFFFF
    then []
    else at_function port bus slot 0
      ++ (if header_of port bus slot 0 / 128 % 2 == 1
          then each (at_function port bus slot) 7 1
          else [])

abbrev pub on_bus : (ℕ → ℕ) → List PciDevice
on_bus port = each (λ bus. each (at_slot port bus) 32 0) 256 0

take-append_take {ℓ} :
    {A : Type ℓ} (n : ℕ) (xs ys : List A) → take n (take n xs ++ ys) ≡ take n (xs ++ ys)
take-append_take zero xs ys = refl
take-append_take (suc n) [] ys = refl
take-append_take (suc n) (x ∷ xs) ys = ap (λ r. x ∷ r) (take-append_take n xs ys)

take_nil {ℓ} : {A : Type ℓ} (n : ℕ) → take {A = A} n [] ≡ []
take_nil zero = refl
take_nil (suc n) = refl

take-one {ℓ} :
    {A : Type ℓ} (n : ℕ) (xs : List A) (y : A)
    → take n (take n xs ++ (y ∷ []))
      ≡ (if leb n (length (take n xs)) then take n xs else take n xs ++ (y ∷ []))
take-one zero xs y = refl
take-one (suc n) [] y =
    let room : leb (suc n) 0 ≡ false = ground arith in rw room (ap (λ r. y ∷ r) (take_nil n))
take-one (suc n) (x ∷ xs) y =
    let same : leb (suc n) (suc (length (take n xs))) ≡ leb n (length (take n xs)) = ground arith in
    rw same (ap (λ r. x ∷ r) (take-one n xs y) ∙ cons_if (leb n (length (take n xs))))
  where
    cons_if :
        (b : Bool)
        → (x ∷ (if b then take n xs else take n xs ++ (y ∷ [])))
          ≡ (if b then x ∷ take n xs else x ∷ (take n xs ++ (y ∷ [])))
    cons_if true = refl
    cons_if false = refl

module _ (port : ℕ → ℕ) where
  pci_add_device-kept :
      (bus slot func : ℕ) (xs : List PciDevice)
      → pci_add_device port bus slot func (take 64 xs)
        ≡ take 64 (xs ++ at_function port bus slot func)
  unfolding pci_add_device
  pci_add_device-kept bus slot func xs =
      elim (Bool-cases (vendor_of port bus slot func == 0xFFFF)) [
        | inl e ↦ rw (e, append-nil xs) (if_same (leb 64 (length (take 64 xs))) (take 64 xs))
        | inr e ↦ rw e (
            sym (take-one 64 xs (device_of port bus slot func))
            ∙ take-append_take 64 xs (device_of port bus slot func ∷ []))
      ]
    where
      if_same : (b : Bool) (ys : List PciDevice) → (if b then ys else ys) ≡ ys
      if_same true ys = refl
      if_same false ys = refl

  add_functions-kept :
      (bus slot k func : ℕ) (xs : List PciDevice)
      → add_functions k port bus slot func (take 64 xs)
        ≡ take 64 (xs ++ each (at_function port bus slot) k func)
  unfolding add_functions
  add_functions-kept bus slot zero func xs = rw (append-nil xs)
  add_functions-kept bus slot (suc k) func xs =
      ap (add_functions k port bus slot (func + 1)) one
      ∙ add_functions-kept bus slot k (func + 1) (xs ++ at_function port bus slot func)
      ∙ ap (take 64) (append_assoc xs (at_function port bus slot func) _)
    where
      one :
          (if vendor_of port bus slot func == 0xFFFF
            then take 64 xs
            else pci_add_device port bus slot func (take 64 xs))
          ≡ take 64 (xs ++ at_function port bus slot func)
      one = elim (Bool-cases (vendor_of port bus slot func == 0xFFFF)) [
        | inl e ↦ rw (e, append-nil xs)
        | inr e ↦ rw e (sym (ap (λ z. z) refl) ∙ kept e)
      ]
        where
          kept :
              (vendor_of port bus slot func == 0xFFFF) ≡ false
              → pci_add_device port bus slot func (take 64 xs)
                ≡ take 64 (xs ++ (device_of port bus slot func ∷ []))
          kept e = pci_add_device-kept bus slot func xs ∙ rw e

  scan_slot-kept :
      (bus slot : ℕ) (xs : List PciDevice)
      → scan_slot port bus slot (take 64 xs) ≡ take 64 (xs ++ at_slot port bus slot)
  unfolding scan_slot
  scan_slot-kept bus slot xs = elim (Bool-cases (vendor_of port bus slot 0 == 0xFFFF)) [
    | inl e ↦ rw (e, append-nil xs)
    | inr e ↦ elim (Bool-cases (header_of port bus slot 0 / 128 % 2 == 1)) [
      | inl many ↦
          rw (e, many)
            (ap (add_functions 7 port bus slot 1) (first e)
              ∙ add_functions-kept bus slot 7 1 (xs ++ (device_of port bus slot 0 ∷ []))
              ∙ ap (take 64) (append_assoc xs (device_of port bus slot 0 ∷ []) _))
      | inr single ↦ rw (e, single) (first e)
    ]
  ]
    where
      first :
          (vendor_of port bus slot 0 == 0xFFFF) ≡ false
          → pci_add_device port bus slot 0 (take 64 xs)
            ≡ take 64 (xs ++ (device_of port bus slot 0 ∷ []))
      first e = pci_add_device-kept bus slot 0 xs ∙ rw e

  scan_slots-kept :
      (bus k slot : ℕ) (xs : List PciDevice)
      → scan_slots k port bus slot (take 64 xs) ≡ take 64 (xs ++ each (at_slot port bus) k slot)
  unfolding scan_slots
  scan_slots-kept bus zero slot xs = rw (append-nil xs)
  scan_slots-kept bus (suc k) slot xs =
      ap (scan_slots k port bus (slot + 1)) (scan_slot-kept bus slot xs)
      ∙ scan_slots-kept bus k (slot + 1) (xs ++ at_slot port bus slot)
      ∙ ap (take 64) (append_assoc xs (at_slot port bus slot) _)

  scan_buses-kept :
      (k bus : ℕ) (xs : List PciDevice)
      → scan_buses k port bus (take 64 xs)
        ≡ take 64 (xs ++ each (λ b. each (at_slot port b) 32 0) k bus)
  unfolding scan_buses
  scan_buses-kept zero bus xs = rw (append-nil xs)
  scan_buses-kept (suc k) bus xs =
      ap (scan_buses k port (bus + 1)) (scan_slots-kept bus 32 0 xs)
      ∙ scan_buses-kept k (bus + 1) (xs ++ each (at_slot port bus) 32 0)
      ∙ ap (take 64) (append_assoc xs (each (at_slot port bus) 32 0) _)

-- `pci_init` lists, by bus, slot and function, the functions that have a vendor: the first function
-- of each slot, and the others of a slot whose first one says that it has several. It keeps the
-- first 64.
pub pci_init-on_bus : (port : ℕ → ℕ) → pci_init port ≡ take 64 (on_bus port)
unfolding pci_init
pci_init-on_bus port = scan_buses-kept port 256 0 []
