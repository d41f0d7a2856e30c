-- ===== src/Usage/Guests.antt =====
-- The sums of frontend/src/features/builder/lib/resource-usage.ts: which guests they count.
use homelab_builder.Usage.{ResourceUsage}
use homelab_builder.Types.{VirtualMachine, VmStatus}
use homelab_builder.Base.{◌≡◌, string_eq, nat_eq, int_eq}

-- The guest, with another status.
abbrev pub with_status : VmStatus → VirtualMachine → VirtualMachine
with_status status vm = record vm { status = status }

-- Sums that agree on cores and memory, whatever disks they counted.
abbrev Agree : ResourceUsage → ResourceUsage → Type 0
Agree u v = (u.cpu ≡ v.cpu) × (u.ram_mb ≡ v.ram_mb)
