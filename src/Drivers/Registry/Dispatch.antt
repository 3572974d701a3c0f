-- ===== src/Drivers/Registry/Dispatch.antt =====
-- The table after the start, and what an interrupt reaches.
use mira_os.Base.{
  suc, ◌+◌, ◌-◌, ◌≤◌, ◌≡◌, Option, none, some, List, [], ◌∷◌, ◌++◌, length, take, arith, ◌∙◌, sym,
  length-append, take-nil,
}
use mathlib.Core.List.{append-nil, append_assoc}
use native.Mathlib.Decide.{dec_lt}
use mira_os.Drivers.Registry.{
  Driver, max_drivers, driver_register, register_all, driver_subsystem_init, init_all,
}

module _ {S : Type 0} where
  -- The drivers whose pointer is not NULL, in order.
  pub present : List (Option (Driver S)) → List (Driver S)
  present [] = []
  present (none ∷ ps) = present ps
  present (some d ∷ ps) = d ∷ present ps

  register_all_lem :
      (ps : List (Option (Driver S))) (table : List (Driver S))
      → length table ≤ max_drivers
      → register_all ps table ≡ table ++ take (max_drivers - length table) (present ps)
  unfolding register_all driver_register present
  register_all_lem [] table h =
      rw (take-nil (Driver S) (max_drivers - length table)) (sym (append-nil table))
  register_all_lem (none ∷ ps) table h = register_all_lem ps table h
  register_all_lem (some d ∷ ps) table h = elim (dec_lt (length table) max_drivers) [
    | yes lt ↦
        let more : length (table ++ (d ∷ [])) ≡ length table + 1 = length-append table (d ∷ []) in
        let next : max_drivers - length table ≡ suc (max_drivers - length (table ++ (d ∷ []))) =
          omega arith in
        let step : (driver_register table d).1 ≡ table ++ (d ∷ []) = ground arith in
        rw (step, next)
          (register_all_lem ps (table ++ (d ∷ [])) (omega arith)
            ∙ append_assoc table (d ∷ [])
                (take (max_drivers - length (table ++ (d ∷ []))) (present ps)))
    | no full ↦
        let none_left : max_drivers - length table ≡ 0 = omega arith in
        let step : (driver_register table d).1 ≡ table = ground arith in
        rw (step, none_left) (rw none_left at (register_all_lem ps table h))
  ]

  -- At the start the drivers that are present are registered in their order, the first 32 of them, and
  -- then initialised in that order.
  driver_subsystem_init_lem :
      (ps : List (Option (Driver S))) (s : S)
      → driver_subsystem_init ps s
        ≡ (take max_drivers (present ps), init_all (take max_drivers (present ps)) s)
  unfolding driver_subsystem_init
  driver_subsystem_init_lem ps s = rw (register_all_lem ps [] (omega arith))
