-- ===== src/Disk/Device.antt =====
-- earth/dev_disk.c: a device for the tests of the driver, a card of one block on the bus of QEMU.
use egos.Base.{
  ℕ, zero, suc, ◌/◌, ◌%◌, ◌^◌, ◌<◌, ◌≡◌, inl, true, ◌==◌, List, [], ◌∷◌, ◌++◌, length,
  if◌then◌else◌, arith, refl, ◌∙◌,
}
use egos.Platform.{arty, qemu}
use egos.Disk.Spi.{Bus, sifive_spi_txdata}
use egos.Disk.Card.{IsController, IsCard, IsBlock, IsBytes, take_all, Sends, Within, Replies}
use egos.Disk.Transfer.{unit_of}

-- A command under way has its number and how many bytes are to come.
pub data State : Type 0 where
  waiting : State
  command : ℕ → ℕ → State
  sending : List ℕ → State
  accepted : State
  skipped : State
  taking : ℕ → List ℕ → State
  checked : List ℕ → State
  acked : List ℕ → State

-- `last` is the byte sent last.
pub record Device : Type 0 where
  pub block : List ℕ
  pub state : State
  pub last : ℕ

abbrev pub reply : State → ℕ
reply (sending (byte ∷ bytes)) = byte
reply (sending []) = 255
reply waiting = 255
reply (command number k) = 255
reply accepted = 0
reply skipped = 255
reply (taking k bytes) = 255
reply (checked bytes) = 255
reply (acked bytes) = 5

-- The block and the state after a byte.
abbrev step : List ℕ → State → ℕ → List ℕ × State
step block waiting byte = (block, if byte == 255 then waiting else command byte 5)
step block (command number (suc (suc k))) byte = (block, command number (suc k))
step block (command number (suc zero)) byte =
    (block, if number == 81 then sending (0 ∷ 254 ∷ block ++ 255 ∷ 255 ∷ []) else accepted)
step block (command number zero) byte = (block, waiting)
step block (sending (b ∷ bytes)) byte = (block, sending bytes)
step block (sending []) byte = (block, waiting)
step block accepted byte = (block, skipped)
step block skipped byte = (block, if byte == 254 then taking 512 [] else skipped)
step block (taking (suc k) bytes) byte = (block, taking k (bytes ++ byte ∷ []))
step block (taking zero bytes) byte = (block, checked bytes)
step block (checked bytes) byte = (block, acked bytes)
step block (acked bytes) byte = (bytes, waiting)

unfoldable pub exchange : Device → ℕ → Device
exchange d byte =
    let next = step d.block d.state byte in
    record { block = next.0; state = next.1; last = reply d.state % 256 }

abbrev pub bus : Bus Device
unfolding exchange
bus = record {
  readw = λ reg d. if reg == sifive_spi_txdata then (0, d) else (d.last, d);
  writew = λ reg value d. if reg == sifive_spi_txdata then exchange d value else d;
  platform = qemu;
}

pub bit31_clear : (byte : ℕ) → (byte % 256 / 2 ^ 31 % 2 == 0) ≡ true
bit31_clear byte = ground arith

pub qemu_arty : qemu ≡ arty → ⊥
qemu_arty e = cc

abbrev pub controller : IsController bus 1
unfolding exchange
controller = record {
  answer = λ d byte. reply d.state % 256;
  after = λ d byte. exchange d byte;
  litex = λ e. absurd (qemu_arty e);
  sifive = λ _ d byte. (
    0,
    reply d.state % 256,
    d,
    inl (refl, refl, refl),
    inl (bit31_clear (reply d.state), refl, refl),
    omega arith,
  );
}

abbrev pub device : List ℕ → State → ℕ → Device
device block state last = record { block = block; state = state; last = last }

pub data IsReady : Device → Type 0 where
  idle : (block : List ℕ) (last : ℕ) → IsBlock block → IsReady (device block waiting last)
  drained : (block : List ℕ) (last : ℕ) → IsBlock block → IsReady (device block (sending []) last)

pub data IsListening : Device → Type 0 where
  listening : (block : List ℕ) (last : ℕ) → IsBlock block → IsListening (device block waiting last)

append_nil : (xs : List ℕ) → xs ++ [] ≡ xs
append_nil [] = refl
append_nil (x ∷ xs) = rw (append_nil xs) refl

append_snoc : (xs : List ℕ) (y : ℕ) (zs : List ℕ) → (xs ++ y ∷ []) ++ zs ≡ xs ++ y ∷ zs
append_snoc [] y zs = refl
append_snoc (x ∷ xs) y zs = rw (append_snoc xs y zs) refl

sends :
    (block bytes rest : List ℕ) (last : ℕ)
    → IsBytes bytes
    → (t : ℕ) × Sends controller
        (device block (sending (bytes ++ rest)) last)
        bytes
        (device block (sending rest) t)
unfolding exchange
sends block [] rest last all = (last, refl)
sends block (byte ∷ bytes) rest last (small, all) =
    let (t, more) = sends block bytes rest (byte % 256) all in (t, (omega (arith, small), more))

takes :
    (block got bytes : List ℕ) (last : ℕ)
    → (t : ℕ) × (take_all controller (device block (taking (length bytes) got) last) bytes
        ≡ device block (taking 0 (got ++ bytes)) t)
unfolding exchange
takes block got [] last = (last, rw (append_nil got) refl)
takes block got (byte ∷ bytes) last =
    let (t, more) = takes block (got ++ byte ∷ []) bytes (255 % 256) in
    (t, more ∙ rw (append_snoc got byte bytes) refl)

abbrev pub held : Device → ℕ → List ℕ
held d n = if n == 0 then d.block else []

pub held_whole : (d : Device) (n : ℕ) → IsListening d → n < 1 → length (held d n) ≡ 512
held_whole d n (listening block last all) lt =
    let first : n ≡ 0 = omega (arith, lt) in rw first all.0

pub hears :
    (d : Device)
    → IsReady d
    → (t : Device) × Within controller 1 255 d t × IsListening t × (held t ≡ held d)
unfolding exchange
hears d (idle block last all) = (_, inl (refl, refl), listening block 255 all, refl)
hears d (drained block last all) = (_, inl (refl, refl), listening block 255 all, refl)

pub gives :
    (d : Device) (n b3 b2 b1 b0 : ℕ)
    → IsListening d
    → n < 1
    → (d1 : Device) × (d2 : Device) × (d3 : Device) × Replies controller 8000 0
        (take_all controller d (81 ∷ b3 ∷ b2 ∷ b1 ∷ b0 ∷ 255 ∷ []))
        d1
      × Within controller 1 254 d1 d2
      × Sends controller d2 (held d n) d3
      × IsReady (exchange (exchange d3 255) 255)
      × (held (exchange (exchange d3 255) 255) ≡ held d)
unfolding exchange
gives d n b3 b2 b1 b0 (listening block last all) lt =
    let first : n ≡ 0 = omega (arith, lt) in
    let (t, sent) = sends block block (255 ∷ 255 ∷ []) 254 all.1 in
    (
      device block (sending (254 ∷ block ++ 255 ∷ 255 ∷ [])) 0,
      device block (sending (block ++ 255 ∷ 255 ∷ [])) 254,
      device block (sending (255 ∷ 255 ∷ [])) t,
      inl (refl, λ e. absurd (omega (arith, e)), refl),
      inl (refl, refl),
      rw first sent,
      drained block 255 all,
      refl,
    )

pub keeps :
    (d : Device) (n b3 b2 b1 b0 : ℕ) (bytes : List ℕ)
    → IsListening d
    → n < 1
    → IsBlock bytes
    → (d1 : Device) × (ack : ℕ) × (t : Device) × Replies controller 8000 0
        (take_all controller d (88 ∷ b3 ∷ b2 ∷ b1 ∷ b0 ∷ 255 ∷ []))
        d1
      × Replies controller 1 ack
          (exchange (exchange (take_all controller (exchange (exchange d1 255) 254) bytes) 255) 255)
          t
      × (ack % 32 ≡ 5)
      × IsReady t
      × ((m : ℕ) → held t m ≡ (if m == n then bytes else held d m))
unfolding exchange
keeps d n b3 b2 b1 b0 bytes (listening block last all) lt whole =
    let first : n ≡ 0 = omega (arith, lt) in
    let (u, taken) = takes block [] bytes 255 in
    let taken' : take_all controller (device block (taking 512 []) 255) bytes
        ≡ device block (taking 0 bytes) u =
      rw (← whole.0) taken in
    (
      device block skipped 0,
      5,
      device bytes waiting 5,
      inl (refl, λ e. absurd (omega (arith, e)), refl),
      rw taken' (inl (refl, λ e. absurd (omega (arith, e)), refl)),
      refl,
      idle bytes 5 whole,
      λ m. rw first (ground arith),
    )

unfoldable pub card : IsCard controller (unit_of bus.platform)
unfolding exchange bus
card = record {
  count = 1;
  addressable = omega arith;
  blocks = held;
  IsReady = IsReady;
  IsListening = IsListening;
  whole = held_whole;
  listens = hears;
  reads = λ d n b3 b2 b1 b0 l lt _ _ _ _ _. gives d n b3 b2 b1 b0 l lt;
  writes = λ d n b3 b2 b1 b0 bytes l lt _ _ _ _ _ whole. keeps d n b3 b2 b1 b0 bytes l lt whole;
}
