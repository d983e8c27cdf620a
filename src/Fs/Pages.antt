-- ===== src/Fs/Pages.antt =====
-- kernel/mm/vm and kernel/mm/pm as the rest of the kernel calls them, in the state of the kernel.
use modos.Base.{ℕ, some}
use modos.Mm.Arena
use modos.Mm.Paging
use modos.Mm.Paging.{Paging}
use modos.Mm.Setup.{take_pages}
use modos.Fs.{M}

-- A change of the page tables.
abbrev with_paging : (Paging → ℕ × Paging) → M ℕ
with_paging f w =
    let (ret, paging') = f w.heap.vm.paging in
    some (ret, record w { heap = record w.heap { vm = record w.heap.vm { paging = paging' } } })

unfoldable pub map_pages : (vaddr paddr n_pages flags : ℕ) → M ℕ
map_pages vaddr paddr n_pages flags = with_paging (Paging.map_pages vaddr paddr n_pages flags)

unfoldable pub mapalloc_pages : (vaddr n_pages flags : ℕ) → M ℕ
mapalloc_pages vaddr n_pages flags = with_paging (Paging.mapalloc_pages vaddr n_pages flags)

unfoldable pub alloc_pages : ℕ → M ℕ
alloc_pages n = with_paging (take_pages n)

unfoldable pub request_pages : (paddr n_pages flags : ℕ) → M ℕ
request_pages paddr n_pages flags w =
    let (p, vm') = Arena.request_pages paddr n_pages flags w.heap.vm in
    some (p, record w { heap = record w.heap { vm = vm' } })
