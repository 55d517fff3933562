-- ===== src/Disk/Sd.antt =====
-- earth/dev_disk.c: the commands to the SD card, and the disk.
use egos.Base.{
  ℕ, zero, suc, ◌+◌, ◌*◌, ◌/◌, ◌%◌, ◌^◌, Bool, true, false, ◌==◌, if◌then◌else◌, List, [], ◌∷◌,
}
use egos.Platform.{Platform, arty, qemu}
use egos.FileSystem.Run.{Cmd, pure, failed, panicked, ◌>>=◌, ◌>>◌}
use egos.Disk.Spi.{
  litex_spi_cs, sifive_spi_csdef, sifive_spi_csmode, Bus, idle_bytes, write_reg, spi_exchange,
  spi_set_clock, send, receive, wait_for, wait_reply, find_reply,
}
use egos.FileSystem.Block.{block_size}

pub data DiskType : Type 0 where
  sd_card flash_rom : DiskType

abbrev pub is_qemu : Platform → Bool
is_qemu arty = false
is_qemu qemu = true

-- The address that the card is given: of a byte on QEMU, of a block on Arty.
unfoldable pub sd_offset : Platform → ℕ → ℕ
sd_offset platform offset = if is_qemu platform then offset * block_size % 2 ^ 32 else offset

-- The six bytes of a command: its number, the argument with the highest byte first, and 0xFF.
unfoldable pub sd_cmd : ℕ → ℕ → List ℕ
sd_cmd number arg =
    number ∷ arg / 2 ^ 24 % 256 ∷ arg / 2 ^ 16 % 256 ∷ arg / 2 ^ 8 % 256 ∷ arg % 256 ∷ 255 ∷ []

-- The highest byte comes first.
pub be_word : ℕ → List ℕ → ℕ
be_word high [] = high
be_word high (byte ∷ bytes) = be_word (high * 256 + byte) bytes

unfoldable pub rom_blocks : (ℕ → List ℕ) → ℕ → ℕ → List (List ℕ)
rom_blocks rom zero block_no = []
rom_blocks rom (suc nblocks) block_no = rom block_no ∷ rom_blocks rom nblocks (suc block_no)

module _ {D : Type 0} (bus : Bus D) (fuel : ℕ) where
  unfoldable pub sd_exec_cmd : List ℕ → Cmd D ℕ
  unfolding send find_reply
  sd_exec_cmd cmd = do send bus fuel cmd; find_reply bus fuel 8000

  pub sd_exec_acmd : List ℕ → Cmd D ℕ
  unfolding wait_for sd_exec_cmd
  sd_exec_acmd cmd = do
    wait_for bus fuel fuel 255
    sd_exec_cmd (119 ∷ 0 ∷ 0 ∷ 0 ∷ 0 ∷ 255 ∷ [])
    wait_for bus fuel fuel 255
    sd_exec_cmd cmd

  unfoldable pub sd_read : ℕ → Cmd D (List ℕ)
  unfolding wait_for sd_exec_cmd receive spi_exchange
  sd_read offset = do
    wait_for bus fuel fuel 255
    reply ← sd_exec_cmd (sd_cmd 81 (sd_offset bus.platform offset))
    if reply == 0
        then (do
          wait_for bus fuel fuel 254
          dst ← receive bus fuel block_size
          spi_exchange bus fuel 255
          spi_exchange bus fuel 255
          pure dst)
        else panicked

  unfoldable pub sd_write : ℕ → List ℕ → Cmd D (Unit {0})
  unfolding wait_for sd_exec_cmd send spi_exchange wait_reply
  sd_write offset src = do
    wait_for bus fuel fuel 255
    reply ← sd_exec_cmd (sd_cmd 88 (sd_offset bus.platform offset))
    if reply == 0
        then (do
          spi_exchange bus fuel 255
          spi_exchange bus fuel 254
          send bus fuel src
          spi_exchange bus fuel 255
          spi_exchange bus fuel 255
          ack ← wait_reply bus fuel fuel
          if ack % 32 == 5 then pure tt else panicked)
        else panicked

  -- while (reply != 0x01) reply = spi_exchange(0xFF)
  pub wait_idle : ℕ → ℕ → Cmd D (Unit {0})
  wait_idle zero reply = failed
  wait_idle (suc rounds) reply =
      if reply == 1 then pure tt else do next ← spi_exchange bus fuel 255; wait_idle rounds next

  -- while (sd_exec_acmd(cmd))
  pub wait_acmd : ℕ → List ℕ → Cmd D (Unit {0})
  unfolding sd_exec_acmd
  wait_acmd zero cmd = failed
  wait_acmd (suc rounds) cmd = do
    reply ← sd_exec_acmd cmd
    if reply == 0 then pure tt else wait_acmd rounds cmd

  -- The card's type and voltage, by cmd8. Of the payload the low 12 bits count.
  pub sd_check : Cmd D (Unit {0})
  unfolding sd_exec_cmd receive
  sd_check = do
    reply ← sd_exec_cmd (72 ∷ 0 ∷ 0 ∷ 1 ∷ 170 ∷ 135 ∷ [])
    if reply / 4 % 2 == 1 then panicked else do
      payload ← receive bus fuel 4
      if be_word 0 payload % 2 ^ 12 == 426 then pure tt else panicked

  -- So many bytes with the CS pin high.
  unfoldable pub sd_toggle : Platform → ℕ → Cmd D (Unit {0})
  unfolding write_reg spi_set_clock send
  sd_toggle arty rounds = do
    spi_set_clock bus fuel 400000
    write_reg bus fuel litex_spi_cs 0
    send bus fuel (idle_bytes rounds)
    write_reg bus fuel litex_spi_cs 1
  sd_toggle qemu rounds = do
    write_reg bus fuel sifive_spi_csmode 1
    send bus fuel (idle_bytes rounds)
    write_reg bus fuel sifive_spi_csdef 1

  -- Whether a card has been found.
  unfoldable pub sd_init : Cmd D Bool
  unfolding sd_toggle spi_set_clock sd_exec_cmd wait_idle wait_for sd_check wait_acmd
  sd_init = do
    sd_toggle bus.platform 1000
    reply ← sd_exec_cmd (64 ∷ 0 ∷ 0 ∷ 0 ∷ 0 ∷ 149 ∷ [])
    if reply == 255 then pure false else do
      wait_idle fuel reply
      wait_for bus fuel fuel 255
      sd_check
      wait_for bus fuel fuel 255
      wait_acmd fuel (105 ∷ 64 ∷ 0 ∷ 0 ∷ 0 ∷ 255 ∷ [])
      wait_for bus fuel fuel 255
      if is_qemu bus.platform then pure tt else spi_set_clock bus fuel 20000000
      pure true

  -- for (i = 0; i < nblocks; i++) sd_read(block_no + i, dst + BLOCK_SIZE * i), block by block.
  unfoldable pub sd_read_blocks : ℕ → ℕ → Cmd D (List (List ℕ))
  unfolding sd_read
  sd_read_blocks zero block_no = pure []
  sd_read_blocks (suc nblocks) block_no = do
    block ← sd_read (block_no % 2 ^ 32)
    blocks ← sd_read_blocks nblocks (suc block_no)
    pure (block ∷ blocks)

  unfoldable pub sd_write_blocks : ℕ → List (List ℕ) → Cmd D (Unit {0})
  unfolding sd_write
  sd_write_blocks block_no [] = pure tt
  sd_write_blocks block_no (block ∷ blocks) = do
    sd_write (block_no % 2 ^ 32) block
    sd_write_blocks (suc block_no) blocks

  -- The blocks of the ROM from `BOARD_FLASH_ROM` on are `rom`.
  unfoldable pub disk_read : DiskType → (ℕ → List ℕ) → ℕ → ℕ → Cmd D (List (List ℕ))
  unfolding sd_read_blocks
  disk_read sd_card rom block_no nblocks = sd_read_blocks nblocks block_no
  disk_read flash_rom rom block_no nblocks = pure (rom_blocks rom nblocks block_no)

  unfoldable pub disk_write : DiskType → ℕ → List (List ℕ) → Cmd D (Unit {0})
  unfolding sd_write_blocks
  disk_write sd_card block_no src = sd_write_blocks block_no src
  disk_write flash_rom block_no src = panicked

  -- What `disk_init` leaves in `type`.
  unfoldable pub disk_init : Cmd D DiskType
  unfolding sd_init
  disk_init = do found ← sd_init; pure (if found then sd_card else flash_rom)
