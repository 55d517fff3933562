-- ===== src/Disk/Card.antt =====
-- earth/dev_disk.c: what the driver relies on: the SPI controllers of the two machines, and an SD card
-- in SPI mode.
use egos.Base.{
  ℕ, zero, suc, ◌+◌, ◌*◌, ◌/◌, ◌%◌, ◌^◌, ◌≤◌, ◌<◌, ◌≡◌, ◌≢◌, ◌⊎◌, Bool, true, false, ◌==◌, List, [],
  ◌∷◌, length, if◌then◌else◌,
}
use egos.Platform.{arty, qemu}
use egos.Disk.Spi.{
  Bus, litex_spi_mosi, litex_spi_control, litex_spi_status, litex_spi_miso, sifive_spi_txdata,
  sifive_spi_rxdata,
}
use egos.FileSystem.Block.{block_size}

-- The first read of the register that passes the test is one of so many; it gives `value`.
abbrev pub Polls : {D : Type 0} → Bus D → ℕ → ℕ → (ℕ → Bool) → D → ℕ → D → Type 0
Polls bus zero reg done d value t = ⊥
Polls bus (suc rounds) reg done d value t =
    let read = bus.readw reg d in
    ((done read.0 ≡ true) × (read.0 ≡ value) × (read.1 ≡ t))
    ⊎ ((done read.0 ≡ false) × Polls bus rounds reg done read.1 value t)

-- When the byte has been written to the controller, it exchanges it for one of the card; `fuel`
-- reads of its status suffice.
pub record IsController {D : Type 0} (bus : Bus D) (fuel : ℕ) : Type 0 where
  pub answer : D → ℕ → ℕ
  pub after : D → ℕ → D
  pub litex :
      bus.platform ≡ arty
      → (d : D) (byte : ℕ)
      → (value : ℕ) × (t : D) × Polls bus fuel litex_spi_status
          (λ status. status % 2 == 1)
          (bus.writew litex_spi_control 2049 (bus.writew litex_spi_mosi byte d))
          value
          t
        × ((bus.readw litex_spi_miso t).0 % 256 ≡ answer d byte)
        × ((bus.readw litex_spi_miso t).1 ≡ after d byte)
  pub sifive :
      bus.platform ≡ qemu
      → (d : D) (byte : ℕ)
      → (free : ℕ) × (value : ℕ) × (t : D) × Polls bus fuel sifive_spi_txdata
          (λ txdata. txdata / 2 ^ 31 % 2 == 0)
          d
          free
          t
        × Polls bus fuel sifive_spi_rxdata
            (λ rxdata. rxdata / 2 ^ 31 % 2 == 0)
            (bus.writew sifive_spi_txdata byte t)
            value
            (after d byte)
        × (value % 256 ≡ answer d byte)

abbrev pub IsBytes : List ℕ → Type 0
IsBytes [] = Unit {0}
IsBytes (byte ∷ bytes) = (byte < 256) × IsBytes bytes

abbrev pub IsBlock : List ℕ → Type 0
IsBlock bytes = (length bytes ≡ block_size) × IsBytes bytes

module _ {D : Type 0} {bus : Bus D} {fuel : ℕ} (c : IsController bus fuel) where
  open c use {answer, after}

  -- The device after these bytes.
  abbrev pub take_all : D → List ℕ → D
  take_all d [] = d
  take_all d (byte ∷ bytes) = take_all (after d byte) bytes

  -- These are the next bytes that it gives.
  abbrev pub Sends : D → List ℕ → D → Type 0
  Sends d [] t = d ≡ t
  Sends d (byte ∷ bytes) t = (answer d 255 ≡ byte) × Sends (after d 255) bytes t

  -- This byte is one of the next.
  abbrev pub Within : ℕ → ℕ → D → D → Type 0
  Within zero byte d t = ⊥
  Within (suc rounds) byte d t =
      ((answer d 255 ≡ byte) × (after d 255 ≡ t))
      ⊎ ((answer d 255 ≢ byte) × Within rounds byte (after d 255) t)

  -- The next bytes are 0xFF up to this reply.
  abbrev pub Replies : ℕ → ℕ → D → D → Type 0
  Replies zero reply d t = ⊥
  Replies (suc rounds) reply d t =
      ((answer d 255 ≡ reply) × (reply ≢ 255) × (after d 255 ≡ t))
      ⊎ ((answer d 255 ≡ 255) × Replies rounds reply (after d 255) t)

  -- A card that counts addresses in units of blocks or of bytes. Once it has sent 0xFF it takes a
  -- command, whose argument has the highest byte first.
  pub record IsCard (unit : ℕ) : Type 1 where
    pub count : ℕ
    pub addressable : count * unit ≤ 4294967296
    pub blocks : D → ℕ → List ℕ
    pub IsReady : D → Type 0
    pub IsListening : D → Type 0
    pub whole : (d : D) (n : ℕ) → IsListening d → n < count → length (blocks d n) ≡ block_size
    pub listens :
        (d : D) → IsReady d → (t : D) × Within fuel 255 d t × IsListening t × (blocks t ≡ blocks d)
    pub reads :
        (d : D) (n b3 b2 b1 b0 : ℕ)
        → IsListening d
        → n < count
        → b3 < 256
        → b2 < 256
        → b1 < 256
        → b0 < 256
        → ((b3 * 256 + b2) * 256 + b1) * 256 + b0 ≡ n * unit
        → (d1 : D) × (d2 : D) × (d3 : D) × Replies 8000 0
            (take_all d (81 ∷ b3 ∷ b2 ∷ b1 ∷ b0 ∷ 255 ∷ []))
            d1
          × Within fuel 254 d1 d2
          × Sends d2 (blocks d n) d3
          × IsReady (after (after d3 255) 255)
          × (blocks (after (after d3 255) 255) ≡ blocks d)
    pub writes :
        (d : D) (n b3 b2 b1 b0 : ℕ) (bytes : List ℕ)
        → IsListening d
        → n < count
        → b3 < 256
        → b2 < 256
        → b1 < 256
        → b0 < 256
        → ((b3 * 256 + b2) * 256 + b1) * 256 + b0 ≡ n * unit
        → IsBlock bytes
        → (d1 : D) × (ack : ℕ) × (t : D) × Replies 8000 0
            (take_all d (88 ∷ b3 ∷ b2 ∷ b1 ∷ b0 ∷ 255 ∷ []))
            d1
          × Replies fuel ack (after (after (take_all (after (after d1 255) 254) bytes) 255) 255) t
          × (ack % 32 ≡ 5)
          × IsReady t
          × ((m : ℕ) → blocks t m ≡ (if m == n then bytes else blocks d m))
