-- ===== src/Kernel/Probes.antt =====
-- The calls of the disk driver in `kernelMain` of kernel.cpp, on disks that are never busy.
use blue_os.Base.{ℕ, suc, ◌≡◌, true, false, Option, List, bit_and, ◌==◌}
use blue_os.Base.Options.{◌>>=◌}
use blue_os.Base.Words.{u8}
use blue_os.Screen.Cursor.{IsOnScreen}
use blue_os.Ports.{PortEvent, Device, Io, say}
use blue_os.Ata as Disks
use blue_os.Ata.Ready.{
  IsReady, Returns, say-IsOnScreen, identify-Returns, write28-IsOnScreen, read28-Returns,
  flush-Returns,
}
use blue_os.Kernel.{primary_slave, probe, try_slave, try_disks}

-- In every read, the keyboard's buffer is empty, and none of the four disks is busy.
pub record IsQuiet (dev : Device) : Type 0 where
  pub keyboard : (trace : List PortEvent) → (bit_and (u8 (dev trace 0x64)) 0x1 == 0) ≡ true
  pub primary : (trace : List PortEvent) → Disks.is_busy (u8 (dev trace 0x1F7)) ≡ false
  pub secondary : (trace : List PortEvent) → Disks.is_busy (u8 (dev trace 0x177)) ≡ false

Returns->>= :
    (o : Option Io) (f : Io → Option Io)
    → Returns o
    → ((io : Io) → IsOnScreen io.screen → Returns (f io))
    → Returns (o >>= f)
Returns->>= o f (io, e, v) h = rw e (h io v)

try_slave-Returns :
    (dev : Device) (fuel : ℕ) (io : Io)
    → IsQuiet dev
    → IsOnScreen io.screen
    → Returns (try_slave dev (suc fuel) io)
unfolding try_slave
try_slave-Returns dev fuel io quiet v =
    Returns->>= _ (λ io'. Disks.read28 dev primary_slave (suc fuel) 0 25 io')
      (flush-Returns dev primary_slave fuel _ quiet.primary
        (write28-IsOnScreen primary_slave 0 _ 25 io v))
      (λ io' v'. read28-Returns dev primary_slave fuel 0 25 io' quiet.primary v')

probe-Returns :
    (dev : Device) (fuel : ℕ) (ata : Disks.Ata) (text : List ℕ) (io : Io)
    → IsReady dev ata
    → IsOnScreen io.screen
    → Returns (probe dev (suc fuel) ata text io)
unfolding probe
probe-Returns dev fuel ata text io ready v =
    identify-Returns dev ata fuel (say text io) ready (say-IsOnScreen text io v)

pub try_disks-Returns :
    (dev : Device) (fuel : ℕ) (io : Io)
    → IsQuiet dev
    → IsOnScreen io.screen
    → Returns (try_disks dev (suc fuel) io)
unfolding try_disks
try_disks-Returns dev fuel io quiet v =
    Returns->>= _ _ (probe-Returns dev fuel (Disks.init true 0x1F0) _ io quiet.primary v) λ io1 v1.
      Returns->>= _ _ (probe-Returns dev fuel primary_slave _ io1 quiet.primary v1) λ io2 v2.
        Returns->>= _ _ (try_slave-Returns dev fuel io2 quiet v2) λ io3 v3.
          Returns->>= _ _ (probe-Returns dev fuel (Disks.init true 0x170) _ io3 quiet.secondary v3)
            λ io4 v4. probe-Returns dev fuel (Disks.init false 0x170) _ io4 quiet.secondary v4
