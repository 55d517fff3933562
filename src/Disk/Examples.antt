-- ===== src/Disk/Examples.antt =====
-- earth/dev_disk.c: a card of one block, and a board without a card.
use egos.Base.{
  ℕ, zero, suc, ◌≤◌, ◌<◌, ◌≡◌, inl, ◌==◌, List, [], ◌∷◌, length, if◌then◌else◌, arith, refl,
}
use egos.Platform.{qemu}
use egos.FileSystem.Run.{Returns}
use egos.Disk.Spi.{Bus, sifive_spi_txdata}
use egos.Disk.Sd.{sd_card, disk_read, rom_blocks}
use egos.Disk.Card.{IsController, IsBlock, IsBytes}
use egos.Disk.Blocks.{
  disk_read-rom_blocks, write_read, disk_write_read, init_read, init_read-rom_blocks,
}
use egos.Disk.Device.{Device, device, waiting, IsReady, idle, held, card, bus, qemu_arty}

abbrev fill : ℕ → ℕ → List ℕ
fill byte zero = []
fill byte (suc n) = byte ∷ fill byte n

length-fill : (byte n : ℕ) → length (fill byte n) ≡ n
length-fill byte zero = refl
length-fill byte (suc n) = omega (arith, length-fill byte n)

fill-IsBytes : (byte n : ℕ) → byte < 256 → IsBytes (fill byte n)
fill-IsBytes byte zero small = tt
fill-IsBytes byte (suc n) small = (small, fill-IsBytes byte n small)

old_block : List ℕ
old_block = fill 255 512

new_block : List ℕ
new_block = fill 7 512

old_block-IsBlock : IsBlock old_block
unfolding old_block
old_block-IsBlock = (length-fill 255 512, fill-IsBytes 255 512 (omega arith))

new_block-IsBlock : IsBlock new_block
unfolding new_block
new_block-IsBlock = (length-fill 7 512, fill-IsBytes 7 512 (omega arith))

abbrev rom : ℕ → List ℕ
rom n = []

abbrev inserted : Device
inserted = device old_block waiting 255

disk_read-rom_blocks_example :
    Returns
      (λ r t. (r ≡ old_block ∷ []) × IsReady t × (held t ≡ held inserted))
      (disk_read bus 1 sd_card rom 0 1 inserted)
unfolding rom_blocks card
disk_read-rom_blocks_example =
    disk_read-rom_blocks card rom 0 1 inserted (idle old_block 255 old_block-IsBlock) (omega arith)

disk_write_read_example :
    Returns
      (λ r t.
        (r ≡ new_block ∷ [])
        × IsReady t
        × ((m : ℕ) → m < 0 → held t m ≡ held inserted m)
        × ((m : ℕ) → 1 ≤ m → held t m ≡ held inserted m))
      (write_read card rom 0 (new_block ∷ []) inserted)
unfolding card
disk_write_read_example =
    disk_write_read card rom 0 (new_block ∷ []) inserted (idle old_block 255 old_block-IsBlock)
      (omega arith) (new_block-IsBlock, tt)

-- A bus without a card; its device has nothing to remember.
abbrev empty_bus : Bus (Unit {0})
empty_bus = record {
  readw = λ reg d. if reg == sifive_spi_txdata then (0, d) else (255, d);
  writew = λ reg value d. d;
  platform = qemu;
}

abbrev empty_controller : IsController empty_bus 1
empty_controller = record {
  answer = λ d byte. 255;
  after = λ d byte. d;
  litex = λ e. absurd (qemu_arty e);
  sifive = λ _ d byte. (0, 255, d, inl (refl, refl, refl), inl (refl, refl, refl), refl);
}

init_read-rom_blocks_example :
    Returns
      (λ r _. r ≡ rom_blocks rom 2 7)
      (init_read empty_bus 1 empty_controller (λ d byte. refl) rom 7 2 tt)
init_read-rom_blocks_example =
    init_read-rom_blocks empty_bus 1 empty_controller (λ d byte. refl) rom 7 2 tt
