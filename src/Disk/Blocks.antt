-- ===== src/Disk/Blocks.antt =====
-- earth/dev_disk.c: `disk_read` and `disk_write` on ranges of blocks, and the fallback to the ROM.
use egos.Base.{
  ℕ, zero, suc, ◌+◌, ◌%◌, ◌^◌, ◌≤◌, ◌<◌, ◌≡◌, false, List, [], ◌∷◌, length, arith, refl, ◌∙◌, ap,
  ==_refl, update, fun_ext,
}
use egos.Platform.{Platform, arty, qemu}
use egos.FileSystem.Run.{ok, Returns, returns, Returns-and_then, Returns-weaken, Cmd, ◌>>◌, ◌>>=◌}
use egos.Disk.Spi.{
  Bus, idle_bytes, find_reply, write_reg, spi_set_clock, litex_spi_cs, litex_spi_clkdiv,
  sifive_spi_csmode, sifive_spi_csdef,
}
use egos.Disk.Sd.{
  sd_exec_cmd, sd_toggle, sd_init, disk_init, sd_read_blocks, sd_write_blocks, rom_blocks, sd_card,
  flash_rom, disk_read, disk_write,
}
use egos.Disk.Card.{IsController, IsCard, IsBlock, take_all}
use egos.Disk.Exchange.{spi_exchange_lem, send_lem}
use egos.Disk.Transfer.{unit_of, unit_of_le, sd_read-block, sd_write-block}

-- The blocks after these have been written from block k on.
unfoldable pub written : (ℕ → List ℕ) → ℕ → List (List ℕ) → ℕ → List ℕ
written f k [] = f
written f k (block ∷ blocks) = written (update f k block) (suc k) blocks

written-below :
    (f : ℕ → List ℕ) (k : ℕ) (src : List (List ℕ)) (m : ℕ) → m < k → written f k src m ≡ f m
unfolding written
written-below f k [] m lt = refl
written-below f k (block ∷ blocks) m lt =
    written-below (update f k block) (suc k) blocks m (omega (arith, lt)) ∙ ground (arith, lt)

written-above :
    (f : ℕ → List ℕ) (k : ℕ) (src : List (List ℕ)) (m : ℕ)
    → k + length src ≤ m
    → written f k src m ≡ f m
unfolding written
written-above f k [] m le = refl
written-above f k (block ∷ blocks) m le =
    written-above (update f k block) (suc k) blocks m (omega (arith, le)) ∙ ground (arith, le)

rom_blocks-written :
    (f : ℕ → List ℕ) (k : ℕ) (src : List (List ℕ))
    → rom_blocks (written f k src) (length src) k ≡ src
unfolding written rom_blocks
rom_blocks-written f k [] = refl
rom_blocks-written f k (block ∷ blocks) =
    rw
      (
        written-below (update f k block) (suc k) blocks k (omega arith),
        ==_refl k,
        rom_blocks-written (update f k block) (suc k) blocks,
      )
      refl

abbrev pub AreBlocks : List (List ℕ) → Type 0
AreBlocks [] = Unit {0}
AreBlocks (block ∷ blocks) = IsBlock block × AreBlocks blocks

module _ {D : Type 0} {bus : Bus D} {fuel : ℕ} {c : IsController bus fuel}
    (card : IsCard c (unit_of bus.platform)) where
  open card use {count, addressable, blocks, IsReady}

  unwrapped : (n : ℕ) → n < count → n % 2 ^ 32 ≡ n
  unwrapped n lt = let small = unit_of_le bus.platform n count lt addressable in omega arith

  sd_read_blocks-rom_blocks :
      (nblocks block_no : ℕ) (d : D)
      → IsReady d
      → block_no + nblocks ≤ count
      → Returns
          (λ r t. (r ≡ rom_blocks (blocks d) nblocks block_no) × IsReady t × (blocks t ≡ blocks d))
          (sd_read_blocks bus fuel nblocks block_no d)
  unfolding sd_read_blocks rom_blocks
  sd_read_blocks-rom_blocks zero block_no d ready fits = returns (refl, ready, refl)
  sd_read_blocks-rom_blocks (suc nblocks) block_no d ready fits =
      rw (unwrapped block_no (omega (arith, fits))) (
        Returns-and_then _ (sd_read-block card block_no d ready (omega (arith, fits)))
          λ block t (e, ready', same).
            Returns-and_then _
              (sd_read_blocks-rom_blocks nblocks (suc block_no) t ready' (omega (arith, fits)))
              λ rest u (e', ready'', same'). returns (rw (e, e', same) refl, ready'', same' ∙ same))

  -- With the same controller and a card that is ready, `disk_read` of a range within the card
  -- returns its blocks and leaves the card ready, with the blocks that it had.
  pub disk_read-rom_blocks :
      (rom : ℕ → List ℕ) (block_no nblocks : ℕ) (d : D)
      → IsReady d
      → block_no + nblocks ≤ count
      → Returns
          (λ r t. (r ≡ rom_blocks (blocks d) nblocks block_no) × IsReady t × (blocks t ≡ blocks d))
          (disk_read bus fuel sd_card rom block_no nblocks d)
  unfolding disk_read
  disk_read-rom_blocks rom block_no nblocks d ready fits =
      sd_read_blocks-rom_blocks nblocks block_no d ready fits

  sd_write_blocks-written :
      (block_no : ℕ) (src : List (List ℕ)) (d : D)
      → IsReady d
      → block_no + length src ≤ count
      → AreBlocks src
      → Returns
          (λ _ t. IsReady t × (blocks t ≡ written (blocks d) block_no src))
          (sd_write_blocks bus fuel block_no src d)
  unfolding sd_write_blocks written
  sd_write_blocks-written block_no [] d ready fits all = returns (ready, refl)
  sd_write_blocks-written block_no (block ∷ src) d ready fits all =
      rw (unwrapped block_no (omega (arith, fits))) (
        Returns-and_then _ (sd_write-block card block_no block d ready (omega (arith, fits)) all.0)
          λ _ t (ready', same).
            Returns-weaken
              (sd_write_blocks-written (suc block_no) src t ready' (omega (arith, fits)) all.1)
              λ _ u (ready'', same').
                (ready'', same' ∙ ap (λ f. written f (suc block_no) src) (fun_ext same)))

  -- A write of a range, and a read of it.
  abbrev pub write_read : (ℕ → List ℕ) → ℕ → List (List ℕ) → Cmd D (List (List ℕ))
  write_read rom block_no src =
      disk_write bus fuel sd_card block_no src
      >> disk_read bus fuel sd_card rom block_no (length src)

  -- Let the SPI controller exchange each byte within `fuel` reads of its status, and let the
  -- card be ready and follow the protocol of SD cards in SPI mode. Then `disk_write` of whole
  -- blocks within the card, and `disk_read` of the same range, return and give the blocks
  -- written. The card is ready again, and its blocks before and behind the range are as they
  -- were.
  pub disk_write_read :
      (rom : ℕ → List ℕ) (block_no : ℕ) (src : List (List ℕ)) (d : D)
      → IsReady d
      → block_no + length src ≤ count
      → AreBlocks src
      → Returns
          (λ r t.
            (r ≡ src)
            × IsReady t
            × ((m : ℕ) → m < block_no → blocks t m ≡ blocks d m)
            × ((m : ℕ) → block_no + length src ≤ m → blocks t m ≡ blocks d m))
          (write_read rom block_no src d)
  unfolding disk_write
  disk_write_read rom block_no src d ready fits all =
      Returns-and_then _ (sd_write_blocks-written block_no src d ready fits all)
        λ _ t (ready', same).
          Returns-weaken (disk_read-rom_blocks rom block_no (length src) t ready' fits)
            λ r u (e, ready'', same'). (
              e
                  ∙ ap (λ f. rom_blocks f (length src) block_no) same
                  ∙ rom_blocks-written (blocks d) block_no src,
              ready'',
              λ m lt. ap (λ f. f m) (same' ∙ same) ∙ written-below (blocks d) block_no src m lt,
              λ m le. ap (λ f. f m) (same' ∙ same) ∙ written-above (blocks d) block_no src m le,
            )

-- The bus of a board without a card gives 0xFF for every byte.
module _ {D : Type 0} (bus : Bus D) (fuel : ℕ) (c : IsController bus fuel) where
  open c use {answer, after}

  module _ (silent : (d : D) (byte : ℕ) → answer d byte ≡ 255) where
    no_reply : (rounds : ℕ) (d : D) → (t : D) × (find_reply bus fuel rounds d ≡ ok 255 t)
    unfolding find_reply
    no_reply zero d = (d, refl)
    no_reply (suc rounds) d =
        let (t, e) = no_reply rounds (after d 255) in
        (t, rw (spi_exchange_lem bus fuel c 255 d, silent d 255) e)

    cmd_fails : (cmd : List ℕ) (d : D) → (t : D) × (sd_exec_cmd bus fuel cmd d ≡ ok 255 t)
    unfolding sd_exec_cmd
    cmd_fails cmd d =
        let (t, e) = no_reply 8000 (take_all c d cmd) in (t, rw (send_lem bus fuel c cmd d) e)

    sd_toggle_lem :
        (p : Platform) (rounds : ℕ) (d : D) → (t : D) × (sd_toggle bus fuel p rounds d ≡ ok tt t)
    unfolding sd_toggle write_reg spi_set_clock
    sd_toggle_lem arty rounds d =
        let d1 = bus.writew litex_spi_cs 0 (bus.writew litex_spi_clkdiv 251 d) in
        let t = bus.writew litex_spi_cs 1 (take_all c d1 (idle_bytes rounds)) in
        (t, rw (send_lem bus fuel c (idle_bytes rounds) d1) refl)
    sd_toggle_lem qemu rounds d =
        let d1 = bus.writew sifive_spi_csmode 1 d in
        let t = bus.writew sifive_spi_csdef 1 (take_all c d1 (idle_bytes rounds)) in
        (t, rw (send_lem bus fuel c (idle_bytes rounds) d1) refl)

    sd_init_fails : (d : D) → Returns (λ found _. found ≡ false) (sd_init bus fuel d)
    unfolding sd_init
    sd_init_fails d =
        let (t, e) = sd_toggle_lem bus.platform 1000 d in
        let (u, e') = cmd_fails (64 ∷ 0 ∷ 0 ∷ 0 ∷ 0 ∷ 149 ∷ []) t in rw (e, e') (returns refl)

    -- Finding the disk, and then reading it.
    abbrev pub init_read : (ℕ → List ℕ) → ℕ → ℕ → Cmd D (List (List ℕ))
    init_read rom block_no nblocks =
        disk_init bus fuel >>= λ type. disk_read bus fuel type rom block_no nblocks

    -- If the bus gives 0xFF for every byte, as without a card, then `disk_init` ends and
    -- chooses the ROM, whose blocks `disk_read` returns.
    pub init_read-rom_blocks :
        (rom : ℕ → List ℕ) (block_no nblocks : ℕ) (d : D)
        → Returns (λ r _. r ≡ rom_blocks rom nblocks block_no) (init_read rom block_no nblocks d)
    unfolding disk_init disk_read
    init_read-rom_blocks rom block_no nblocks d =
        Returns-and_then _
          (Returns-and_then {Q = λ type _. type ≡ flash_rom} _ (sd_init_fails d)
            λ found t none. rw none (returns refl))
          λ type t chosen. rw chosen (returns refl)
