-- ===== src/Kyanite/Bus.antt =====
-- kyanite_legacy_bus_t and the devices behind it: the RAM, the hub and the board of
-- src/kyanite_legacy.c. A status word is the record of its named bits, each of which is one bit
-- of aasm/kyanite/main.h; IO_INPUT, IO_OUTPUT and IO_ACTIVE are the sets of them that main.h names.
pub mod Board
pub mod Hub
pub mod Transfer
use amalgam_asm.Base.{
  ℕ, ◌+◌, ◌-◌, ◌*◌, ◌/◌, ◌%◌, ◌^◌, ◌==◌, ltb, leb, Bool, true, false, not, ◌&&◌, ◌||◌, Option, none,
  some, List, [], ◌∷◌, if◌then◌else◌, length, get_or, set,
}
use amalgam_asm.Base.Bits.{u8, u16, u32}

-- `running` is STATUS_RUNNING, `bus_io` is BOARD_BUS_IO, the others are IO_...
pub record BusStatus : Type 0 where
  pub running : Bool
  pub read : Bool
  pub write : Bool
  pub response : Bool
  pub intp : Bool
  pub bus_io : Bool

abbrev pub is_input : BusStatus → Bool
is_input s = s.read || s.write

abbrev pub is_output : BusStatus → Bool
is_output s = s.response || s.intp

abbrev pub is_active : BusStatus → Bool
is_active s = is_input s || is_output s

abbrev pub clear_input : BusStatus → BusStatus
clear_input s = record s { read = false; write = false }

abbrev pub clear_output : BusStatus → BusStatus
clear_output s = record s { response = false; intp = false }

abbrev pub clear_active : BusStatus → BusStatus
clear_active s = clear_output (clear_input s)

-- The scheduling fields of the device are not part of the model.
pub record Bus : Type 0 where
  pub status : BusStatus
  pub address : ℕ
  pub input : ℕ
  pub output : ℕ

-- Interrupt numbers of aasm/kyanite/interrupt.h.
abbrev pub int_mr : ℕ
int_mr = 2

abbrev pub int_io : ℕ
int_io = 3

-- `BUS_RESP` with RESPONSE and with INTP: `none` where the macro returns from the function,
-- because a reply is waiting.
abbrev pub respond : Bus → ℕ → Option Bus
respond bus value =
    if is_output bus.status
    then none
    else some (record bus { status = record bus.status { response = true }; output = u32 value })

abbrev pub interrupt : Bus → ℕ → Option Bus
interrupt bus value =
    if is_output bus.status
    then none
    else some (record bus { status = record bus.status { intp = true }; output = u32 value })

-- `BUS_REQM` whose bits are those of a status word under IO_INPUT.
abbrev pub request_as : Bus → BusStatus → ℕ → ℕ → Option Bus
request_as bus bits address value =
    if is_input bus.status
    then none
    else some (record bus {
      status = record bus.status {
        read = bus.status.read || bits.read;
        write = bus.status.write || bits.write;
      };
      input = u32 value;
      address = u16 address;
    })

-- `BUS_RESPM` whose bits are those of a status word under IO_OUTPUT.
abbrev pub respond_as : Bus → BusStatus → ℕ → Option Bus
respond_as bus bits value =
    if is_output bus.status
    then none
    else some (record bus {
      status = record bus.status {
        response = bus.status.response || bits.response;
        intp = bus.status.intp || bits.intp;
      };
      output = u32 value;
    })

-- `ram_data` points to `ram_size` words.
pub record Ram : Type 0 where
  pub basic : Bus
  pub ram_data : List ℕ
  pub ram_size : ℕ

-- The RAM, done with its request.
unfoldable pub served : Ram → Ram
served ram = record ram { basic = record ram.basic { status = clear_active ram.basic.status } }

unfoldable pub reply : Bus → Ram → Option Bus → Bus × Ram
unfolding served
reply s ram none = (s, ram)
reply s ram (some s') = (s', served ram)

unfoldable pub ram_executor : Bus → Ram → Bus × Ram
unfolding reply served
ram_executor s ram =
    let at = ram.basic.address in
    if not (is_active ram.basic.status)
    then (s, ram)
    else if ltb at ram.ram_size
    then if ram.basic.status.write
      then (s, served (record ram { ram_data = set ram.ram_data at ram.basic.input }))
      else reply s ram (respond s (get_or ram.ram_data at 0))
    else reply s ram (interrupt s int_mr)
