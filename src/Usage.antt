-- ===== src/Usage.antt =====
-- frontend/src/features/builder/lib/resource-usage.ts: what the guests of a host use. Cores, megabytes and
-- gigabytes count thousandths. `Number` is a parameter, with none for what is not a finite number.
pub mod Guests
mod Tests
use homelab_builder.Types.{paused, running, stopped, get, Dict, VmStatus, VirtualMachine, Json}
use homelab_builder.Base.{
  none, ◌==◌, whole, false, [], ◌∷◌, ◌>>=◌, true, not, if◌then◌else◌, ◌+ℤ◌, some, List, Bool, ℤ, ℕ,
  pos, Option, string_eq, nat_eq, int_eq,
}

pub record ResourceUsage : Type 0 where
  pub cpu : ℤ
  pub ram_mb : ℤ
  pub storage_gb : ℤ

abbrev pub default_guest_disk_gb : ℕ
default_guest_disk_gb = 10

abbrev is_stopped : VmStatus → Bool
is_stopped stopped = true
is_stopped running = false
is_stopped paused = false

unfoldable pub vm_consumes_host_resources : VirtualMachine → Bool
vm_consumes_host_resources vm = not (is_stopped vm.status)

-- `value || fallback` of a number.
abbrev pub or_number : Option ℤ → ℤ → ℤ
or_number none fallback = fallback
or_number (some v) fallback = if v == pos 0 then fallback else v

abbrev pub no_usage : ResourceUsage
no_usage = record { cpu = pos 0; ram_mb = pos 0; storage_gb = pos 0 }

module _ (number : Json → Option ℤ) where
  -- `Number(vm.details?.disk_gb) || DEFAULT_GUEST_DISK_GB`
  unfoldable pub guest_disk : Option (Dict Json) → ℤ
  guest_disk details =
      or_number (details >>= (λ d. get d "disk_gb") >>= number) (whole default_guest_disk_gb)

  -- The step of the reduction.
  unfoldable pub add_guest : ResourceUsage → VirtualMachine → ResourceUsage
  add_guest usage vm =
      let storage = usage.storage_gb +ℤ guest_disk vm.details in
      if vm_consumes_host_resources vm
      then record {
        cpu = usage.cpu +ℤ or_number vm.cpu_cores (whole 1);
        ram_mb = usage.ram_mb +ℤ or_number vm.ram_mb (whole 512);
        storage_gb = storage;
      }
      else record { cpu = usage.cpu; ram_mb = usage.ram_mb; storage_gb = storage }

  unfoldable pub add_guests : ResourceUsage → List VirtualMachine → ResourceUsage
  add_guests usage [] = usage
  add_guests usage (vm ∷ vms) = add_guests (add_guest usage vm) vms

  unfoldable pub get_vm_resource_usage : List VirtualMachine → ResourceUsage
  get_vm_resource_usage vms = add_guests no_usage vms
