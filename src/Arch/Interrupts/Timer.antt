-- ===== src/Arch/Interrupts/Timer.antt =====
-- The interrupt of a device (arch/x86_64/isr.c) with the timer among the drivers (drivers/timer.c).
use mira_os.Base.{ℕ, ◌≡◌, List, [], ◌∷◌, some}
use mira_os.Drivers.Registry.{Driver}

-- No interrupt function of these drivers changes the state.
abbrev pub KeepState : {S : Type 0} → List (Driver S) → Type 0
KeepState [] = Unit
KeepState {S} (d ∷ table) =
    ((f : ℕ → S → S) → d.irq ≡ some f → (irq : ℕ) (s : S) → f irq s ≡ s) × KeepState table
