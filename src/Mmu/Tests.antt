-- ===== src/Mmu/Tests.antt =====
-- Runs of mmu.c, and its theorems at concrete address spaces.
use archarch.Base.{◌≡◌, refl, arith}
use archarch.Pmm.{ram_base, all_free}
use archarch.Pmm.Valid.{all_free-IsValid}
use archarch.Mmu.{
  Space, table_entry, page_entry, or_bit, mmu_create_user_pgd, mmu_map_user_page_in_pgd,
}
use archarch.Mmu.Map.{PageMapped, map_user_page-PageMapped}
use archarch.Mmu.Pgd.{Created, create_user_pgd-Created}
use archarch.Mmu.Sample.{empty, empty-IsTree}

-- The flags of a page for the user.
page_flags : page_entry 0x40010000 ≡ 0x20000040010747
unfolding page_entry or_bit
page_flags = refl

table_flags : table_entry 0x40010000 ≡ 0x40010003
unfolding table_entry or_bit
table_flags = refl

abbrev fresh : Space
fresh = record { pmm = all_free; mem = λ a. 0 }

create_user_pgd-Created_example :
    Created 0x40010000 2 0x40020000 4 fresh (mmu_create_user_pgd 0x40010000 2 0x40020000 4 fresh)
create_user_pgd-Created_example =
    create_user_pgd-Created 0x40010000 2 0x40020000 4 refl (omega arith) refl (omega arith)
      (omega arith) (omega arith) (omega arith) fresh all_free-IsValid

map_user_page-PageMapped_example :
    PageMapped ram_base 0x402000 0x40012000 empty
      (mmu_map_user_page_in_pgd ram_base 0x402000 0x40012000 empty)
map_user_page-PageMapped_example =
    map_user_page-PageMapped ram_base 0x402000 0x40012000 (λ q. 0) empty empty-IsTree refl
      (omega arith)
