-- ===== src/Kernel/Loader/Section.antt =====
-- The loop over the pages of a section, and a whole section.
use mira_os.Base.{ℕ, ◌≡◌, Bool, true, false, none, some}
use mira_os.Common.Memory.{Memory}
use mira_os.Kernel.Pmm.{Pmm, pmm_alloc_page}
use mira_os.Arch.Paging.{Paging}
use mira_os.Arch.Paging.Tree.{Shape}
use mira_os.Kernel.Loader.{Machine, SectDesc, map_pages}
use mira_os.Kernel.Loader.Pages.{Fits, Ready, Loaded}

module _ (sh : Shape) (m : Memory) (depth file : ℕ) (sd : SectDesc) (flags : ℕ)
    (fits : Fits file sd flags) where
  -- The loop ends, either with every page loaded or because no page is free.
  abbrev Ends : ℕ → Machine → ℕ → Type 0
  Ends f s j =
      (b : Bool) × (s' : Machine) × (map_pages depth f file sd flags j s ≡ some (b, s'))
      × (b ≡ true → Ready sh m file sd s' × Loaded m file sd sd.memsz s')
      × (b ≡ false → (pmm_alloc_page s'.paging.pmm).0 ≡ none)
