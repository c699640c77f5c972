-- ===== src/Scheduler/Plan.antt =====
-- Which executors one tick of the system calls (src/aasm.c), as a list read off the tree of devices.
use amalgam_asm.Base.{
  ℕ, suc, ◌<◌, ◌%◌, ◌==◌, leb, ◌≡◌, ◌≢◌, Bool, true, false, Option, none, some, List, [], ◌∷◌, ◌++◌,
  length, get_elem?, if◌then◌else◌,
}
use amalgam_asm.Util.List.{◌>>=◌}
use amalgam_asm.Scheduler.{Device, Machine, Executor, is_running, divider}

-- Trees of devices: a first one with its index, its children, and its siblings.
pub data Forest : Type 0 where
  leaf : Forest
  tree : ℕ → Device → Forest → Forest → Forest

-- The devices of some indices with all that is below them: a count is that of the children, and
-- no divider is 0.
pub data Stands (store : List Device) : List ℕ → Forest → Type 0 where
  nil : Stands store [] leaf
  cons :
      {i : ℕ} {is : List ℕ} {d : Device} {below beside : Forest}
      → get_elem? store i ≡ some d
      → d.device_count ≡ length d.devices
      → length d.devices < 256
      → divider false d ≢ 0
      → Stands store d.devices below
      → Stands store is beside
      → Stands store (i ∷ is) (tree i d below beside)

pub record Call : Type 0 where
  pub executor : ℕ
  pub parent : Option ℕ
  pub self : ℕ

-- The call of a device that runs at a multiple of its divider, and of no other.
unfoldable pub due : Option ℕ → ℕ → ℕ → Bool → Device → List Call
unfolding divider
due parent self counter root d =
    if counter % divider root d == 0
    then record { executor = d.executor; parent = parent; self = self } ∷ []
    else []

-- Children before their parent, siblings in their order, and nothing below a device that is stopped.
unfoldable pub plan : Option ℕ → ℕ → Forest → List Call
unfolding due is_running
plan parent counter leaf = []
plan parent counter (tree i d below beside) =
    let inner = plan (some i) counter below in
    let rest = plan parent counter beside in
    (if is_running d then inner ++ due parent i counter false d else []) ++ rest

abbrev pub larger : ℕ → ℕ → ℕ
larger a b = if leb a b then b else a

abbrev pub depth : Forest → ℕ
depth leaf = 0
depth (tree i d below beside) = larger (suc (depth below)) (depth beside)

-- A whole system: its devices with all that is below them.
pub record IsSystem (store : List Device) (self : ℕ) (d : Device) (below : Forest) : Type 0 where
  pub at : get_elem? store self ≡ some d
  pub count : d.device_count ≡ length d.devices
  pub small : length d.devices < 256
  pub clock : divider true d ≢ 0
  pub devices : Stands store d.devices below

-- The calls of one tick.
unfoldable pub system_plan : ℕ → ℕ → Device → Forest → List Call
system_plan self counter d below =
    if is_running d then plan (some self) counter below ++ due none self counter true d else []

module _ {W : Type 0} (run : Executor W) where
  unfoldable pub run_all : List Call → Machine W → Option (Machine W)
  run_all [] m = some m
  run_all (call ∷ calls) m = do next ← run call.executor call.parent call.self m; run_all calls next

  -- An executor that ends and leaves the devices as they are.
  abbrev pub IsSteady : Type 0
  IsSteady =
      (f : ℕ) (parent : Option ℕ) (self : ℕ) (m : Machine W)
      → (next : Machine W) × (run f parent self m ≡ some next) × (next.store ≡ m.store)
