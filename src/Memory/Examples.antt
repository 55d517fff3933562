-- ===== src/Memory/Examples.antt =====
-- earth/cpu_mmu.c on two processes with a page each.
use egos.Base.{◌≡◌, refl, true, ◌==◌, if◌then◌else◌, arith, some, inl, inr}
use egos.Memory.{Pages, Mmu, cleared, soft_tlb_switch, soft_tlb_translate}
use egos.Platform.{qemu}
use egos.Memory.PageTable.{Tables, pagetable_identity_map}
use egos.Memory.PageTable.Identity.{FreeFrom}
use egos.Memory.PageTable.Walk.{walk}
use egos.Memory.PageTable.Map.{pagetable_identity_map-returns, pagetable_identity_map-walk}
use egos.Memory.Isolation.{IsMapped, page_of, soft_tlb_switch-page_of, soft_tlb_translate-page_of}

-- Processes 1 and 2 see their pages at one address.
abbrev two : Pages
two i =
    if i == 0
    then record { used = true; pid = 1; vpage_no = 0x80400 }
    else if i == 1
    then record { used = true; pid = 2; vpage_no = 0x80400 }
    else cleared

two-IsMapped : IsMapped two
two-IsMapped = record {
  apart = λ i j lt lt' used used' e e'. ground arith;
  below = λ i lt used. ground arith;
}

-- Process 1 is mapped; each page of memory is filled with its number.
abbrev mmu : Mmu
mmu = record { pages = two; curr_vm_pid = 1; memory = λ n k. n }

soft_tlb_switch-page_of_example : page_of (soft_tlb_switch 2 mmu) 0 ≡ page_of mmu 0
soft_tlb_switch-page_of_example = soft_tlb_switch-page_of 2 mmu 0 two-IsMapped (omega arith) refl

soft_tlb_translate-page_of_example :
    let (paddr, m) = soft_tlb_translate 2 0x80400010 mmu in
    (paddr ≡ 0x80400010) × (m.memory 0x80400 ≡ page_of mmu 1)
soft_tlb_translate-page_of_example =
    soft_tlb_translate-page_of 2 0x80400010 mmu 1 two-IsMapped (omega arith) refl

-- Pages 0 and 1 are in use.
abbrev tables : Tables
tables = record { mmu = mmu; root = 0; leaf = 0; pagetable_base = λ pid. 0 }

tables-FreeFrom : FreeFrom 2 tables.mmu.pages
tables-FreeFrom j le lt = ground arith

mapped : (t : Tables) × (pagetable_identity_map 0 qemu tables ≡ some t)
mapped = pagetable_identity_map-returns 0 2 qemu tables tables-FreeFrom (omega arith)

-- A register of the timer.
pagetable_identity_map-walk_example :
    walk mapped.0.mmu.memory mapped.0.root 0x0200BFF8 ≡ some (0x0200BFF8, 0xDF)
pagetable_identity_map-walk_example =
    pagetable_identity_map-walk 0 2 0x0200BFF8 qemu tables mapped.0 tables-FreeFrom (omega arith)
      mapped.1 (omega arith) (inr (inr (inr (inr (inl (omega arith, omega arith))))))
