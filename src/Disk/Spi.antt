-- ===== src/Disk/Spi.antt =====
-- earth/dev_disk.c: the SPI bus. The bus, with its controller and the card, is a device that reads
-- and writes of its registers change.
use egos.Base.{ℕ, zero, suc, ◌+◌, ◌*◌, ◌/◌, ◌%◌, ◌^◌, Bool, ◌==◌, if◌then◌else◌, List, [], ◌∷◌}
use egos.Platform.{Platform, arty, qemu}
use egos.FileSystem.Run.{Cmd, ok, pure, failed, ◌>>=◌, ◌>>◌}

-- The registers of the SPI controller, by their offsets from SPI_BASE.
abbrev pub litex_spi_control : ℕ
litex_spi_control = 0

abbrev pub litex_spi_status : ℕ
litex_spi_status = 4

abbrev pub litex_spi_mosi : ℕ
litex_spi_mosi = 8

abbrev pub litex_spi_miso : ℕ
litex_spi_miso = 12

abbrev pub litex_spi_cs : ℕ
litex_spi_cs = 16

abbrev pub litex_spi_clkdiv : ℕ
litex_spi_clkdiv = 24

abbrev pub sifive_spi_csdef : ℕ
sifive_spi_csdef = 20

abbrev pub sifive_spi_csmode : ℕ
sifive_spi_csmode = 24

abbrev pub sifive_spi_txdata : ℕ
sifive_spi_txdata = 72

abbrev pub sifive_spi_rxdata : ℕ
sifive_spi_rxdata = 76

-- REGW, and the machine.
pub record Bus (D : Type 0) : Type 0 where
  pub readw : ℕ → D → ℕ × D
  pub writew : ℕ → ℕ → D → D
  pub platform : Platform

-- The bytes 0xFF that only keep the clock running.
pub idle_bytes : ℕ → List ℕ
idle_bytes zero = []
idle_bytes (suc n) = 255 ∷ idle_bytes n

-- A loop that waits for the device has `fuel` rounds; a command that fails is still in the loop.
module _ {D : Type 0} (bus : Bus D) (fuel : ℕ) where
  unfoldable pub read_reg : ℕ → Cmd D ℕ
  read_reg reg d = let r = bus.readw reg d in ok r.0 r.1

  unfoldable pub write_reg : ℕ → ℕ → Cmd D (Unit {0})
  write_reg reg value d = ok tt (bus.writew reg value d)

  -- while (!done(value = REGW(SPI_BASE, reg)))
  unfoldable pub await_reg : ℕ → ℕ → (ℕ → Bool) → Cmd D ℕ
  unfolding read_reg
  await_reg zero reg done = failed
  await_reg (suc rounds) reg done = do
    value ← read_reg reg
    if done value then pure value else await_reg rounds reg done

  unfoldable pub spi_exchange : ℕ → Cmd D ℕ
  unfolding read_reg write_reg await_reg
  spi_exchange byte = elim bus.platform [
    | arty ↦ (do
      write_reg litex_spi_mosi byte
      write_reg litex_spi_control (8 * 2 ^ 8 + 1)
      await_reg fuel litex_spi_status (λ status. status % 2 == 1)
      rxdata ← read_reg litex_spi_miso
      pure (rxdata % 256))
    | qemu ↦ (do
      await_reg fuel sifive_spi_txdata (λ txdata. txdata / 2 ^ 31 % 2 == 0)
      write_reg sifive_spi_txdata byte
      rxdata ← await_reg fuel sifive_spi_rxdata (λ rxdata. rxdata / 2 ^ 31 % 2 == 0)
      pure (rxdata % 256))
  ]

  unfoldable pub spi_set_clock : ℕ → Cmd D (Unit {0})
  unfolding write_reg
  spi_set_clock freq = write_reg litex_spi_clkdiv (100000000 / freq + 1)

  -- for (i...) spi_exchange(bytes[i])
  unfoldable pub send : List ℕ → Cmd D (Unit {0})
  send [] = pure tt
  send (byte ∷ bytes) = do spi_exchange byte; send bytes

  -- for (i...) dst[i] = spi_exchange(0xFF)
  unfoldable pub receive : ℕ → Cmd D (List ℕ)
  receive zero = pure []
  receive (suc n) = do byte ← spi_exchange 255; bytes ← receive n; pure (byte ∷ bytes)

  -- while ((reply = spi_exchange(0xFF)) != byte)
  unfoldable pub wait_for : ℕ → ℕ → Cmd D (Unit {0})
  wait_for zero byte = failed
  wait_for (suc rounds) byte = do
    reply ← spi_exchange 255
    if reply == byte then pure tt else wait_for rounds byte

  -- while ((reply = spi_exchange(0xFF)) == 0xFF)
  unfoldable pub wait_reply : ℕ → Cmd D ℕ
  wait_reply zero = failed
  wait_reply (suc rounds) = do
    reply ← spi_exchange 255
    if reply == 255 then wait_reply rounds else pure reply

  -- The first reply, or 0xFF if there is none in so many rounds.
  unfoldable pub find_reply : ℕ → Cmd D ℕ
  find_reply zero = pure 255
  find_reply (suc rounds) = do
    reply ← spi_exchange 255
    if reply == 255 then find_reply rounds else pure reply
