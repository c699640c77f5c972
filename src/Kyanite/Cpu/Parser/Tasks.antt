-- ===== src/Kyanite/Cpu/Parser/Tasks.antt =====
-- Task switches, TSW (src/kyanite_legacy.c).
use amalgam_asm.Base.{
  ℕ, zero, suc, ◌+◌, ◌%◌, ◌<◌, ◌≡◌, ◌≢◌, refl, some, List, [], ◌∷◌, length, get_elem?, set, arith,
  ap, sym, ◌∙◌,
}
use amalgam_asm.Base.Bits.{u16}
use amalgam_asm.Kyanite.Cpu.{Core, Task, insn_end}
use amalgam_asm.Kyanite.Cpu.Parser.{switch_task, saved}

-- The slots of the tasks once the running one is saved.
abbrev pub slots_after : Core → List Task
slots_after core = set core.task_slots core.active_task (saved core)

get_elem?-set_same :
    {A : Type 0} (xs : List A) (i : ℕ) (v : A) → i < length xs → get_elem? (set xs i v) i ≡ some v
get_elem?-set_same [] i v h = absurd (omega arith)
get_elem?-set_same (x ∷ xs) zero v h = refl
get_elem?-set_same (x ∷ xs) (suc i) v h = get_elem?-set_same xs i v (omega arith)

get_elem?-set_other :
    {A : Type 0} (xs : List A) (i j : ℕ) (v : A) → i ≢ j → get_elem? (set xs i v) j ≡ get_elem? xs j
get_elem?-set_other [] i j v h = refl
get_elem?-set_other (x ∷ xs) zero zero v h = absurd (h refl)
get_elem?-set_other (x ∷ xs) zero (suc j) v h = refl
get_elem?-set_other (x ∷ xs) (suc i) zero v h = refl
get_elem?-set_other (x ∷ xs) (suc i) (suc j) v h = get_elem?-set_other xs i j v (λ e. h (ap suc e))

-- The CPU once it runs the task in the slot `t`.
abbrev pub switched : Core → ℕ → Task → Core
switched core t next = insn_end 2 (record core {
  task_slots = slots_after core;
  active_task = t;
  ip = next.ip;
  shared = record core.shared { status = next.status.0 };
  own = next.status.1;
  gpr = next.gpr;
})

switch_task-found :
    (core : Core) (t : ℕ) (next : Task)
    → t < 16
    → get_elem? (slots_after core) t ≡ some next
    → switch_task t core ≡ some (switched core t next)
unfolding switch_task
switch_task-found core t next fits found =
    let same : t % 16 ≡ t = omega arith in
    let at : get_elem? (slots_after core) (t % 16) ≡ some next = rw same found in
    rw (at, switch_task) (rw same refl)

module _ (core : Core) (t : ℕ) (next : Task) where
  abbrev away : Core
  away = switched core t next

  module _ (small : core.active_task < 16) (filled : length core.task_slots ≡ 16)
      (other : core.active_task ≢ t) (fits : t < 16)
      (there : get_elem? core.task_slots t ≡ some next) where
    -- A switch to another task and back leaves registers, status and interrupts as they were, two
    -- bytes further on, behind the first switch; the other task stands two bytes further on too.
    pub switch_task-switch_task :
        (switch_task t core ≡ some away)
        × (switch_task core.active_task away
            ≡ some (
                insn_end 2 (record core {
                  task_slots = set (slots_after core) t (record next { ip = u16 (next.ip + 2) });
                })))
    unfolding saved
    switch_task-switch_task = (
      switch_task-found core t next fits
          (get_elem?-set_other core.task_slots core.active_task t (saved core) other ∙ there),
      switch_task-found away core.active_task (saved core) small (
          get_elem?-set_other (slots_after core) t core.active_task (saved away)
            (λ e. other (sym e))
          ∙ get_elem?-set_same core.task_slots core.active_task (saved core) (omega arith)),
    )
