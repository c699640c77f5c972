-- ===== src/Examples/Devices.antt =====
-- A system with three devices, one of them below another, and one stopped; the executors write
-- down which device they are.
use amalgam_asm.Base.{ℕ, List, ◌∷◌, [], ◌++◌, some}
use amalgam_asm.Scheduler.{Device, Machine, Executor}
use amalgam_asm.Scheduler.Plan.{Forest, leaf, tree}

abbrev timer : Device
timer = record {
  status = 1;
  freq_mod = 3;
  executor = 7;
  devices = [];
  device_count = 0;
  freq_div = 2;
}

abbrev disk : Device
disk = record {
  status = 1;
  freq_mod = 2;
  executor = 7;
  devices = 1 ∷ [];
  device_count = 1;
  freq_div = 1;
}

abbrev halted : Device
halted = record {
  status = 0;
  freq_mod = 1;
  executor = 7;
  devices = [];
  device_count = 0;
  freq_div = 1;
}

abbrev board : Device
board = record {
  status = 1;
  freq_mod = 0;
  executor = 7;
  devices = 2 ∷ 3 ∷ [];
  device_count = 2;
  freq_div = 1;
}

abbrev machine : Machine (List ℕ)
machine = record { store = board ∷ timer ∷ disk ∷ halted ∷ []; counter = 12; world = [] }

abbrev logger : Executor (List ℕ)
logger f parent self m = some (record m { world = m.world ++ self ∷ [] })

abbrev devices : Forest
devices = tree 2 disk (tree 1 timer leaf leaf) (tree 3 halted leaf leaf)
