-- ===== src/Drivers/Registry.antt =====
-- drivers/driver.c: the table of drivers. A driver's functions act on a state `S` of the program.
pub mod Dispatch
use mira_os.Base.{
  ℕ, zero, suc, ◌+◌, Bool, true, false, ◌==◌, leb, if◌then◌else◌, Option, none, some, List, [], ◌∷◌,
  ◌++◌, length, ℤ, pos, negsuc,
}

pub record Driver (S : Type 0) : Type 0 where
  pub id : ℕ
  pub init : Option (S → S)
  pub irq : Option (ℕ → S → S)

abbrev pub max_drivers : ℕ
max_drivers = 32

module _ {S : Type 0} where
  -- The list is the first `driver_count` entries of `driver_list`.
  unfoldable pub driver_register : List (Driver S) → Driver S → ℤ × List (Driver S)
  driver_register table drv =
      if leb max_drivers (length table) then (negsuc 0, table) else (pos 0, table ++ (drv ∷ []))

  -- The pointers between `__start_drivers` and `__stop_drivers`; `none` is NULL.
  unfoldable pub register_all : List (Option (Driver S)) → List (Driver S) → List (Driver S)
  register_all [] table = table
  register_all (none ∷ ps) table = register_all ps table
  register_all (some drv ∷ ps) table = register_all ps (driver_register table drv).1

  unfoldable pub init_all : List (Driver S) → S → S
  init_all [] s = s
  init_all (d ∷ ds) s = init_all ds (elim (d.init) [ none ↦ s | some f ↦ f s ])

  unfoldable pub driver_subsystem_init : List (Option (Driver S)) → S → List (Driver S) × S
  driver_subsystem_init ps s = let table = register_all ps [] in (table, init_all table s)

  unfoldable pub driver_find : List (Driver S) → ℕ → Option (Driver S)
  driver_find [] id = none
  driver_find (d ∷ ds) id = let rest = driver_find ds id in if d.id == id then some d else rest

  unfoldable pub driver_dispatch_irq : List (Driver S) → ℕ → S → S
  driver_dispatch_irq [] irq s = s
  driver_dispatch_irq (d ∷ ds) irq s =
      driver_dispatch_irq ds irq (elim (d.irq) [ none ↦ s | some f ↦ f irq s ])
