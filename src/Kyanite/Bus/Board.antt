-- ===== src/Kyanite/Bus/Board.antt =====
-- kyanite_legacy_board_t and kyanite_legacy_board_executor of src/kyanite_legacy.c. The devices
-- of the board are the list behind `basic.devices`, with the CPU, at `cpu_id`, kept apart.
use amalgam_asm.Base.{
  ℕ, ◌/◌, ◌%◌, ◌^◌, ◌==◌, true, false, not, Option, none, some, List, if◌then◌else◌, get_or, set,
}
use amalgam_asm.Kyanite.Timer.{Cpu, dtr_intp}
use amalgam_asm.Kyanite.Bus.{
  Bus, BusStatus, is_input, is_output, is_active, clear_input, clear_output, int_io, interrupt,
  request_as,
}

abbrev pub idle_status : BusStatus
idle_status = record {
  running = true;
  read = false;
  write = false;
  response = false;
  intp = false;
  bus_io = false;
}

abbrev pub idle_bus : Bus
idle_bus = record { status = idle_status; address = 0; input = 0; output = 0 }

pub record Board : Type 0 where
  pub basic : Bus
  pub ram_id : ℕ
  pub io_ids : List ℕ

-- The board, its devices and its CPU.
pub record Machine : Type 0 where
  pub board : Board
  pub devices : List Bus
  pub cpu : Cpu

abbrev pub set_status : Machine → BusStatus → Machine
set_status m s = record m { board = record m.board { basic = record m.board.basic { status = s } } }

-- Whether the function returned before its second half.
pub data Stage : Type 0 where
  returned goes_on : Machine → Stage

-- The device that a request is for, and its address there. In the IO mode the upper three bits
-- of the address choose the device.
abbrev pub target : Board → ℕ
target b =
    if b.basic.status.bus_io then get_or b.io_ids (b.basic.address / 2 ^ 13) 0xff else b.ram_id

abbrev pub target_address : Board → ℕ
target_address b = if b.basic.status.bus_io then b.basic.address % 2 ^ 13 else b.basic.address

unfoldable pub absent : Machine → Option Bus → Stage
absent m none = returned m
absent m (some bus) =
    returned (record m {
      board = record m.board { basic = record bus { status = clear_input bus.status } };
    })

unfoldable pub forward : Machine → Option Bus → Stage
forward m none = returned m
forward m (some dev) = goes_on (
    set_status (record m { devices = set m.devices (target m.board) dev })
      (clear_input m.board.basic.status))

-- IO busy: the request is dropped and the CPU wakes to repeat it.
abbrev pub reject : Machine → Machine
reject m =
    set_status
      (record m { cpu = record m.cpu { status = record m.cpu.status { sleep_mem = false } } })
      (clear_input m.board.basic.status)

-- The half behind `ST_TEST(IO_INPUT)`.
unfoldable pub take_input : Machine → Stage
unfolding absent forward
take_input m =
    let b = m.board in
    let dev = get_or m.devices (target b) idle_bus in
    if not (is_input b.basic.status)
    then goes_on m
    else if target b == 0xff
    then absent m (interrupt b.basic int_io)
    else if is_input dev.status
    then returned (reject m)
    else forward m (request_as dev b.basic.status (target_address b) b.basic.input)

-- What the CPU gets of a reply, once both sleeps are over.
unfoldable pub deliver : BusStatus → ℕ → Cpu → Cpu
deliver s value cpu =
    let awake = record cpu {
      status = record cpu.status { sleep_delay = false; sleep_mem = false };
    } in
    if s.response
    then record awake { status = record awake.status { dtr_mem = false }; bus_data = value }
    else if s.intp
    then dtr_intp awake value
    else awake

-- The half behind `ST_TEST(IO_OUTPUT)`.
unfoldable pub take_output : Machine → Machine
unfolding deliver
take_output m =
    let bus = m.board.basic in
    if is_output bus.status
    then set_status (record m { cpu = deliver bus.status bus.output m.cpu })
        (clear_output bus.status)
    else m

unfoldable pub second_half : Stage → Machine
unfolding take_output
second_half (returned m) = m
second_half (goes_on m) = take_output m

unfoldable pub board_executor : Machine → Machine
unfolding take_input second_half
board_executor m = if not (is_active m.board.basic.status) then m else second_half (take_input m)
