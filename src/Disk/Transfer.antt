-- ===== src/Disk/Transfer.antt =====
-- earth/dev_disk.c: reading and writing blocks of the card.
use egos.Base.{ℕ, ◌+◌, ◌*◌, ◌/◌, ◌%◌, ◌≤◌, ◌<◌, ◌≡◌, List, length, arith, refl, ◌∙◌, ap, update}
use egos.Platform.{Platform, arty, qemu}
use egos.FileSystem.Run.{Returns, returns}
use egos.Disk.Spi.{Bus}
use egos.Disk.Sd.{sd_offset, sd_cmd, sd_exec_cmd, sd_read, sd_write}
use egos.Disk.Card.{IsController, IsCard, IsBlock}
use egos.Disk.Exchange.{
  spi_exchange_lem, send_lem, receive_lem, wait_for_lem, wait_reply_lem, find_reply_lem,
}

-- Addresses are of bytes on QEMU, of blocks on Arty.
abbrev pub unit_of : Platform → ℕ
unit_of arty = 1
unit_of qemu = 512

sd_offset_lem :
    (p : Platform) (n count : ℕ)
    → n < count
    → count * unit_of p ≤ 4294967296
    → (sd_offset p n ≡ n * unit_of p) × (sd_offset p n < 4294967296)
unfolding sd_offset
sd_offset_lem arty n count lt le = (omega arith, omega (arith, lt, le))
sd_offset_lem qemu n count lt le = (omega (arith, lt, le), omega (arith, lt, le))

pub unit_of_le :
    (p : Platform) (n count : ℕ) → n < count → count * unit_of p ≤ 4294967296 → n < 4294967296
unit_of_le arty n count lt le = omega (arith, lt, le)
unit_of_le qemu n count lt le = omega (arith, lt, le)

-- The bytes of a 32-bit number.
be_bytes :
    (a : ℕ)
    → a < 4294967296
    → ((a / 16777216 % 256 * 256 + a / 65536 % 256) * 256 + a / 256 % 256) * 256 + a % 256 ≡ a
be_bytes a lt = omega (arith, lt)

module _ {D : Type 0} {bus : Bus D} {fuel : ℕ} {c : IsController bus fuel}
    (card : IsCard c (unit_of bus.platform)) where
  open card use {count, addressable, blocks, whole, IsReady, listens, reads, writes}

  pub sd_read-block :
      (n : ℕ) (d : D)
      → IsReady d
      → n < count
      → Returns
          (λ bytes t. (bytes ≡ blocks d n) × IsReady t × (blocks t ≡ blocks d))
          (sd_read bus fuel n d)
  unfolding sd_read sd_exec_cmd sd_cmd
  sd_read-block n d ready lt =
      let a = sd_offset bus.platform n in
      let (e, small) = sd_offset_lem bus.platform n count lt addressable in
      let (t, within, listening, same) = listens d ready in
      let (d1, d2, d3, replies, token, sends, ready', same') =
        reads t n (a / 16777216 % 256) (a / 65536 % 256) (a / 256 % 256) (a % 256) listening lt
          (omega arith) (omega arith) (omega arith) (omega arith) (be_bytes a small ∙ e) in
      let received = receive_lem bus fuel c (blocks t n) d2 d3 sends in
      let all : length (blocks t n) ≡ 512 = whole t n listening lt in
      rw
        (
          wait_for_lem bus fuel c fuel 255 d t within,
          send_lem bus fuel c _ t,
          find_reply_lem bus fuel c 8000 0 _ d1 replies,
          wait_for_lem bus fuel c fuel 254 d1 d2 token,
          rw all at received,
          spi_exchange_lem bus fuel c 255 d3,
          spi_exchange_lem bus fuel c 255 _,
        )
        (returns (ap (λ f. f n) same, ready', same' ∙ same))

  pub sd_write-block :
      (n : ℕ) (bytes : List ℕ) (d : D)
      → IsReady d
      → n < count
      → IsBlock bytes
      → Returns
          (λ _ t. IsReady t × ((m : ℕ) → blocks t m ≡ update (blocks d) n bytes m))
          (sd_write bus fuel n bytes d)
  unfolding sd_write sd_exec_cmd sd_cmd
  sd_write-block n bytes d ready lt all =
      let a = sd_offset bus.platform n in
      let (e, small) = sd_offset_lem bus.platform n count lt addressable in
      let (t, within, listening, same) = listens d ready in
      let (d1, ack, u, replies, acked, good, ready', same') =
        writes t n (a / 16777216 % 256) (a / 65536 % 256) (a / 256 % 256) (a % 256) bytes listening
          lt (omega arith) (omega arith) (omega arith) (omega arith) (be_bytes a small ∙ e) all in
      rw
        (
          wait_for_lem bus fuel c fuel 255 d t within,
          send_lem bus fuel c _ t,
          find_reply_lem bus fuel c 8000 0 _ d1 replies,
          spi_exchange_lem bus fuel c 255 d1,
          spi_exchange_lem bus fuel c 254 _,
          send_lem bus fuel c bytes _,
          spi_exchange_lem bus fuel c 255 _,
          spi_exchange_lem bus fuel c 255 _,
          wait_reply_lem bus fuel c fuel ack _ u acked,
          good,
        )
        (returns (ready', λ m. same' m ∙ rw same refl))
