-- ===== src/Kyanite/Bus/Hub.antt =====
-- kyanite_legacy_hub_t and kyanite_legacy_hub_executor of src/kyanite_legacy.c, for devices that are
-- kyanite_bus_t, to which the code casts them. A device of another type, such as a legacy one, has its
-- fields at other offsets, and what the hub does to it is not modelled.
use amalgam_asm.Base.{
  ℕ, ◌+◌, ◌/◌, ◌%◌, ◌^◌, ◌==◌, not, ◌||◌, Option, none, some, List, if◌then◌else◌, get_or, set,
}
use amalgam_asm.Base.Bits.{u32, u64}
use amalgam_asm.Kyanite.Bus.{
  Bus, BusStatus, is_input, is_output, is_active, clear_input, clear_output, int_io, interrupt,
  respond_as,
}
use amalgam_asm.Kyanite.Bus.Board.{idle_status}

-- kyanite_bus_t: the address has 32 bits and the values have 64.
pub record WideBus : Type 0 where
  pub status : BusStatus
  pub bus_address : ℕ
  pub bus_in : ℕ
  pub bus_out : ℕ

abbrev pub idle_wide : WideBus
idle_wide = record { status = idle_status; bus_address = 0; bus_in = 0; bus_out = 0 }

pub record Hub : Type 0 where
  pub basic : Bus
  pub offset : List ℕ
  pub ports : List ℕ

-- The caller's bus, the hub, and the devices of the hub.
pub record Site : Type 0 where
  pub caller : Bus
  pub hub : Hub
  pub devices : List WideBus

abbrev pub set_status : Site → BusStatus → Site
set_status m s = record m { hub = record m.hub { basic = record m.hub.basic { status = s } } }

-- The port that the upper two bits of the address choose.
abbrev pub port_of : Hub → ℕ
port_of hub = hub.basic.address / 2 ^ 14 % 4

abbrev pub child_of : Hub → ℕ
child_of hub = get_or hub.ports (port_of hub) 0xff

-- `BUS_REQM` on a device behind a port.
abbrev pub request_wide : WideBus → BusStatus → ℕ → ℕ → Option WideBus
request_wide dev bits address value =
    if is_input dev.status
    then none
    else some (record dev {
      status = record dev.status {
        read = dev.status.read || bits.read;
        write = dev.status.write || bits.write;
      };
      bus_in = u64 value;
      bus_address = u32 address;
    })

pub data Stage : Type 0 where
  returned goes_on : Site → Stage

unfoldable pub absent : Site → Option Bus → Stage
absent m none = returned m
absent m (some caller) =
    returned (set_status (record m { caller = caller }) (clear_input m.hub.basic.status))

unfoldable pub forward : Site → Option WideBus → Stage
forward m none = returned m
forward m (some dev) = goes_on (
    set_status (record m { devices = set m.devices (child_of m.hub) dev })
      (clear_input m.hub.basic.status))

unfoldable pub take_input : Site → Stage
unfolding absent forward
take_input m =
    let hub = m.hub in
    let bus = hub.basic in
    if not (is_input bus.status)
    then goes_on m
    else if child_of hub == 0xff
    then absent m (interrupt m.caller int_io)
    else forward m (
        request_wide (get_or m.devices (child_of hub) idle_wide) bus.status
          (bus.address + get_or hub.offset (port_of hub) 0) bus.input)

unfoldable pub pass_on : Site → Option Bus → Site
pass_on m none = m
pass_on m (some caller) =
    set_status (record m { caller = caller }) (clear_output m.hub.basic.status)

unfoldable pub take_output : Site → Site
unfolding pass_on
take_output m =
    let bus = m.hub.basic in
    if is_output bus.status then pass_on m (respond_as m.caller bus.status bus.output) else m

unfoldable pub second_half : Stage → Site
unfolding take_output
second_half (returned m) = m
second_half (goes_on m) = take_output m

unfoldable pub hub_executor : Site → Site
unfolding take_input second_half
hub_executor m = if not (is_active m.hub.basic.status) then m else second_half (take_input m)
