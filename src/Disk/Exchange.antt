-- ===== src/Disk/Exchange.antt =====
-- earth/dev_disk.c: the loops over the bytes of the bus.
use egos.Base.{ℕ, zero, suc, ◌≡◌, inl, inr, Bool, List, [], ◌∷◌, length, refl, ne→==, ==_refl}
use egos.Platform.{Platform, arty, qemu}
use egos.FileSystem.Run.{ok}
use egos.Disk.Spi.{
  Bus, read_reg, write_reg, await_reg, spi_exchange, send, receive, wait_for, wait_reply,
  find_reply,
}
use egos.Disk.Card.{Polls, IsController, take_all, Sends, Within, Replies}

module _ {D : Type 0} (bus : Bus D) (fuel : ℕ) where
  await_reg_lem :
      (rounds reg : ℕ) (done : ℕ → Bool) (d : D) (value : ℕ) (t : D)
      → Polls bus rounds reg done d value t
      → await_reg bus fuel rounds reg done d ≡ ok value t
  unfolding await_reg read_reg
  await_reg_lem zero reg done d value t none = elim none [ ]
  await_reg_lem (suc rounds) reg done d value t (inl (now, e, e')) = rw (now, e, e') refl
  await_reg_lem (suc rounds) reg done d value t (inr (later, more)) =
      rw later (await_reg_lem rounds reg done _ value t more)

  module _ (c : IsController bus fuel) where
    open c use {answer, after}

    exchange_on :
        (p : Platform)
        → bus.platform ≡ p
        → (byte : ℕ) (d : D) → spi_exchange bus fuel byte d ≡ ok (answer d byte) (after d byte)
    unfolding spi_exchange read_reg write_reg
    exchange_on arty is byte d =
        let (value, t, polls, given, left) = c.litex is d byte in
        rw (is, await_reg_lem fuel _ _ _ value t polls, given, left) refl
    exchange_on qemu is byte d =
        let (free, value, t, polls, polls', given) = c.sifive is d byte in
        rw
          (
            is,
            await_reg_lem fuel _ _ d free t polls,
            await_reg_lem fuel _ _ _ value _ polls',
            given,
          )
          refl

    -- `spi_exchange` sends a byte and returns the one that the card sends for it.
    pub spi_exchange_lem :
        (byte : ℕ) (d : D) → spi_exchange bus fuel byte d ≡ ok (answer d byte) (after d byte)
    spi_exchange_lem byte d = exchange_on bus.platform refl byte d

    pub send_lem : (bytes : List ℕ) (d : D) → send bus fuel bytes d ≡ ok tt (take_all c d bytes)
    unfolding send
    send_lem [] d = refl
    send_lem (byte ∷ bytes) d = rw (spi_exchange_lem byte d) (send_lem bytes (after d byte))

    pub receive_lem :
        (bytes : List ℕ) (d t : D)
        → Sends c d bytes t
        → receive bus fuel (length bytes) d ≡ ok bytes t
    unfolding receive
    receive_lem [] d t e = rw e refl
    receive_lem (byte ∷ bytes) d t (e, more) =
        rw (spi_exchange_lem 255 d, receive_lem bytes (after d 255) t more, e) refl

    pub wait_for_lem :
        (rounds byte : ℕ) (d t : D)
        → Within c rounds byte d t
        → wait_for bus fuel rounds byte d ≡ ok tt t
    unfolding wait_for
    wait_for_lem zero byte d t none = elim none [ ]
    wait_for_lem (suc rounds) byte d t (inl (e, e')) =
        rw (spi_exchange_lem 255 d, e, ==_refl byte, e') refl
    wait_for_lem (suc rounds) byte d t (inr (ne, more)) =
        rw (spi_exchange_lem 255 d, ne→== _ byte ne) (wait_for_lem rounds byte _ t more)

    pub find_reply_lem :
        (rounds reply : ℕ) (d t : D)
        → Replies c rounds reply d t
        → find_reply bus fuel rounds d ≡ ok reply t
    unfolding find_reply
    find_reply_lem zero reply d t none = elim none [ ]
    find_reply_lem (suc rounds) reply d t (inl (e, ne, e')) =
        rw (spi_exchange_lem 255 d, e, ne→== reply 255 ne, e') refl
    find_reply_lem (suc rounds) reply d t (inr (e, more)) =
        rw (spi_exchange_lem 255 d, e) (find_reply_lem rounds reply _ t more)

    pub wait_reply_lem :
        (rounds reply : ℕ) (d t : D)
        → Replies c rounds reply d t
        → wait_reply bus fuel rounds d ≡ ok reply t
    unfolding wait_reply
    wait_reply_lem zero reply d t none = elim none [ ]
    wait_reply_lem (suc rounds) reply d t (inl (e, ne, e')) =
        rw (spi_exchange_lem 255 d, e, ne→== reply 255 ne, e') refl
    wait_reply_lem (suc rounds) reply d t (inr (e, more)) =
        rw (spi_exchange_lem 255 d, e) (wait_reply_lem rounds reply _ t more)
