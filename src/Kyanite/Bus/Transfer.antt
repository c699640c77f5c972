-- ===== src/Kyanite/Bus/Transfer.antt =====
-- A memory access from the board to the RAM and back to the CPU.
use amalgam_asm.Base.{
  ℕ, ◌^◌, ◌<◌, ◌≡◌, refl, ◌==◌, ltb, Bool, true, false, Option, none, some, List, if◌then◌else◌,
  length, get_or, set, get_or-set, get_or-set_same, arith, Bool-cases, inl, inr, ap, ◌∙◌,
}
use amalgam_asm.Base.Bits.{u16, u32}
use amalgam_asm.Kyanite.Timer.{Cpu, dtr_intp}
use amalgam_asm.Kyanite.Bus.{
  Bus, BusStatus, is_output, is_active, int_mr, Ram, ram_executor, reply, served,
}
use amalgam_asm.Kyanite.Bus.Board.{
  Machine, idle_bus, idle_status, board_executor, take_input, take_output, second_half, forward,
  deliver,
}

-- The RAM with a request on its bus: a write of a value, or a read.
abbrev pub asked_to_write : Ram → ℕ → ℕ → Ram
asked_to_write ram a v = record ram {
  basic = record ram.basic {
    status = record ram.basic.status { read = false; write = true };
    address = a;
    input = v;
  };
}

abbrev pub asked_to_read : Ram → ℕ → Ram
asked_to_read ram a = record ram {
  basic = record ram.basic {
    status = record ram.basic.status { read = true; write = false };
    address = a;
  };
}

-- After a write of a word, a read answers with that word at the address that was written and
-- with the old word at every other one. Both addresses are in the RAM, no reply is waiting on
-- the bus, and the RAM holds as many words of 32 bits as its size says.
pub ram_read-write :
    (s : Bus) (ram : Ram) (a b v : ℕ)
    → is_output s.status ≡ false
    → a < ram.ram_size
    → b < ram.ram_size
    → length ram.ram_data ≡ ram.ram_size
    → let stored = (ram_executor s (asked_to_write ram a v)).1 in
      let answer = (ram_executor s (asked_to_read stored b)).0 in
      (answer.output ≡ u32 (if a == b then v else get_or ram.ram_data b 0))
      × (answer.status.response ≡ true)
unfolding ram_executor served reply
ram_read-write s ram a b v free inside inside' filled =
    let fits : ltb a ram.ram_size ≡ true = ground arith in
    let fits' : ltb b ram.ram_size ≡ true = ground arith in
    rw (fits, fits', free, get_or-set ram.ram_data a b v 0 (omega arith)) (refl, refl)

-- A RAM that cannot answer, because a reply is still waiting on the bus, keeps its request.
pub ram_waits :
    (s : Bus) (ram : Ram)
    → is_output s.status ≡ true
    → ram.basic.status.write ≡ false
    → ram_executor s ram ≡ (s, ram)
unfolding ram_executor reply
ram_waits s ram busy reads = elim (Bool-cases (is_active ram.basic.status)) [
  | inl active ↦ elim (Bool-cases (ltb ram.basic.address ram.ram_size)) [
    | inl fits ↦ rw (active, fits, reads, busy)
    | inr beyond ↦ rw (active, beyond, busy)
  ]
  | inr idle ↦ rw idle
]

-- The bus of a board: a status, and the last values on its lines.
abbrev lines : BusStatus → ℕ → ℕ → ℕ → Bus
lines status a x y = record { status = status; address = a; input = x; output = y }

module _ (ids : List ℕ) (r : ℕ) (devices : List Bus) (cpu : Cpu) where
  abbrev pub with_bus : Bus → List Bus → Machine
  with_bus bus devs = record {
    board = record { basic = bus; ram_id = r; io_ids = ids };
    devices = devs;
    cpu = cpu;
  }

  -- The RAM of a machine runs once: `words` are the words it holds, `count` its size.
  abbrev pub run_ram : List ℕ → ℕ → Machine → Machine
  run_ram words count m =
      let ram : Ram = record {
        basic = get_or m.devices r idle_bus;
        ram_data = words;
        ram_size = count;
      } in
      let after = ram_executor m.board.basic ram in
      record m {
        board = record m.board { basic = after.0 };
        devices = set m.devices r after.1.basic;
      }

  -- What the CPU makes of a word of the RAM, or of its absence.
  abbrev pub received : Option ℕ → Cpu
  received o =
      let awake = record cpu {
        status = record cpu.status { sleep_delay = false; sleep_mem = false };
      } in
      elim o [
        | some word ↦ record awake {
          status = record awake.status { dtr_mem = false };
          bus_data = word;
        }
        | none ↦ dtr_intp awake int_mr
      ]

  module _ (a x y : ℕ) where
    -- The CPU has put a read at `a` on the bus of the board.
    abbrev pub reading : Machine
    reading = with_bus (lines (record idle_status { read = true }) a x y) devices

    abbrev dev : Bus
    dev = get_or devices r idle_bus

    abbrev asked : Bus
    asked = record dev {
      status = record dev.status { read = true; write = false };
      input = u32 x;
      address = u16 a;
    }

    board_asks :
        (r == 0xff) ≡ false
        → dev.status.read ≡ false
        → dev.status.write ≡ false
        → board_executor reading ≡ with_bus (lines idle_status a x y) (set devices r asked)
    unfolding board_executor take_input second_half take_output forward
    board_asks present no_read no_write = rw (present, no_read, no_write)

  module _ (a x y : ℕ) (rest : List Bus) where
    board_receives_word :
        (word : ℕ)
        → (board_executor
            (with_bus (lines (record idle_status { response = true }) a x word) rest)).cpu
          ≡ received (some word)
    unfolding board_executor take_input second_half take_output deliver
    board_receives_word word = refl

    board_receives_fault :
        (board_executor (with_bus (lines (record idle_status { intp = true }) a x int_mr) rest)).cpu
        ≡ received none
    unfolding board_executor take_input second_half take_output deliver
    board_receives_fault = refl

  module _ (words : List ℕ) (count : ℕ) (a x y : ℕ) where
    -- The board passes the request on, the RAM runs, and the board passes the reply back.
    abbrev pub answered : Machine
    answered = board_executor (run_ram words count (board_executor (reading a x y)))

    ram_answers :
        (devs : List Bus)
        → get_or devs r idle_bus ≡ asked a x y
        → a < 2 ^ 16
        → (run_ram words count (with_bus (lines idle_status a x y) devs)).board.basic ≡ (
            if ltb a count
            then lines (record idle_status { response = true }) a x (u32 (get_or words a 0))
            else lines (record idle_status { intp = true }) a x int_mr)
    unfolding ram_executor reply served
    ram_answers devs there small =
        let same : u16 a ≡ a = omega arith in
        elim (Bool-cases (ltb a count)) [
          | inl fits ↦ rw (there, same, fits)
          | inr beyond ↦ rw (there, same, beyond)
        ]

    board_answers :
        (b : Bool) (word : ℕ) (rest : List Bus)
        → (board_executor (
            with_bus
              (if b
                then lines (record idle_status { response = true }) a x word
                else lines (record idle_status { intp = true }) a x int_mr)
              rest)).cpu
          ≡ received (if b then some word else none)
    board_answers true word rest = board_receives_word a x y rest word
    board_answers false word rest = board_receives_fault a x y rest

    -- A read that the CPU puts on the bus of the board comes back in one run of the board, of
    -- the RAM and of the board again: the CPU wakes with the word at that address, or, where
    -- the address is beyond the RAM, with the memory interrupt. The RAM is present, and free.
    pub read_comes_back :
        (r == 0xff) ≡ false
        → r < length devices
        → (get_or devices r idle_bus).status.read ≡ false
        → (get_or devices r idle_bus).status.write ≡ false
        → a < 2 ^ 16
        → answered.cpu ≡ received (if ltb a count then some (u32 (get_or words a 0)) else none)
    read_comes_back present inside no_read no_write small =
        let there = get_or-set_same devices r (asked a x y) idle_bus inside in
        let devs = set devices r (asked a x y) in
        rw (board_asks a x y present no_read no_write) (
          ap
            (λ bus.
              (board_executor (
                with_bus bus
                  (run_ram words count (with_bus (lines idle_status a x y) devs)).devices)).cpu)
            (ram_answers devs there small)
          ∙ board_answers (ltb a count) (u32 (get_or words a 0)) _)
