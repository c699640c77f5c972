-- ===== src/Scheduler.antt =====
-- execute and execute_device of src/aasm.c, on device_t and system_t of aasm/aasm.h. A device
-- pointer is an index into a store. What an executor does is outside of the file: it is a parameter,
-- a function that may change every device and a world of its own.
pub mod Plan
pub mod Walk
use amalgam_asm.Base.{
  ℕ, zero, suc, ◌+◌, ◌*◌, ◌%◌, ◌^◌, ◌==◌, leb, Bool, true, false, Option, none, some, List,
  if◌then◌else◌, get_elem?, bit_and,
}
use amalgam_asm.Util.List.{◌>>=◌}

-- `executor` is the function pointer.
pub record Device : Type 0 where
  pub status : ℕ
  pub freq_mod : ℕ
  pub executor : ℕ
  pub devices : List ℕ
  pub device_count : ℕ
  pub freq_div : ℕ

pub record Machine (W : Type 0) : Type 0 where
  pub store : List Device
  pub counter : ℕ
  pub world : W

-- The function behind a pointer, called with the parent, null for the system, and the device.
abbrev pub Executor : Type 0 → Type 0
Executor W = ℕ → Option ℕ → ℕ → Machine W → Option (Machine W)

-- `status & STATUS_RUNNING`.
unfoldable pub is_running : Device → Bool
is_running d = if bit_and d.status 1 == 0 then false else true

-- `(root ? 1 : freq_mod) * freq_div` in 32 bits.
unfoldable pub divider : Bool → Device → ℕ
divider root d = (if root then 1 else d.freq_mod) * d.freq_div % 2 ^ 32

module _ {W : Type 0} where
  -- The loop over the children from the i-th on, on fuel. The count is read in each pass.
  unfoldable pub each :
      (ℕ → Machine W → Option (Machine W)) → ℕ → ℕ → ℕ → Machine W → Option (Machine W)
  each step zero i self m = none
  each step (suc fuel) i self m = do
    d ← get_elem? m.store self
    (if leb d.device_count i then some m else (do
      child ← get_elem? d.devices i
      next ← step child m
      each step fuel (suc i) self next))

  -- 256 passes are enough for a count of 8 bits.
  unfoldable pub each_child :
      (ℕ → Machine W → Option (Machine W)) → ℕ → Machine W → Option (Machine W)
  each_child step self m = each step 256 0 self m

  -- The device itself, when the counter is at a multiple of its divider; a division by 0 is
  -- undefined.
  unfoldable pub tick_device : Executor W → Option ℕ → ℕ → ℕ → Bool → Machine W → Option (Machine W)
  tick_device run parent self counter root m = do
    d ← get_elem? m.store self
    (if divider root d == 0
        then none
        else if counter % divider root d == 0
        then run d.executor parent self m
        else some m)

  -- The fuel is the depth of the walk.
  unfoldable pub execute_device :
      ℕ → Executor W → Option ℕ → ℕ → ℕ → Bool → Machine W → Option (Machine W)
  execute_device zero run parent self counter root m = none
  execute_device (suc fuel) run parent self counter root m = do
    d ← get_elem? m.store self
    (if is_running d
        then (do
          next ←
              each_child (λ child. execute_device fuel run (some self) child counter false) self m
          tick_device run parent self counter root next)
        else some m)

  -- `self` is the system itself.
  unfoldable pub execute : ℕ → Executor W → ℕ → Machine W → Option (Machine W)
  execute fuel run self m =
      execute_device fuel run none self m.counter true
        (record m { counter = (m.counter + 1) % 2 ^ 32 })
