-- ===== src/Usage/Tests.antt =====
-- What the guests of a host use, on a host with a running and a stopped guest.
use homelab_builder.Usage.{
  guest_disk, vm_consumes_host_resources, add_guest, add_guests, get_vm_resource_usage,
}
use homelab_builder.Types.{stopped, vm, num, running, VmStatus, VirtualMachine, Json}
use homelab_builder.Base.{
  refl, [], ◌≡◌, ◌∷◌, ◌+ℤ◌, pos, none, some, ℤ, Option, String, List, string_eq, nat_eq, int_eq,
}

-- Only JSON numbers are read.
abbrev plain_number : Json → Option ℤ
plain_number (num v) = some v
plain_number _ = none

abbrev guest : String → VmStatus → Option ℤ → VirtualMachine
guest id status cores = record {
  id = id;
  name = id;
  type = vm;
  ip = none;
  mac_address = none;
  details = some (("disk_gb", num (pos 32000)) ∷ []);
  os = none;
  cpu_cores = cores;
  ram_mb = none;
  status = status;
}

abbrev guests : List VirtualMachine
guests = guest "web" running (some (pos 4000)) ∷ guest "old" stopped (some (pos 8000)) ∷ []

in_use :
    get_vm_resource_usage plain_number guests
    ≡ record { cpu = pos 4000; ram_mb = pos 512000; storage_gb = pos 64000 }
unfolding get_vm_resource_usage add_guests add_guest vm_consumes_host_resources guest_disk ◌+ℤ◌
in_use = refl
