-- ===== src/Kernel/Hang.antt =====
-- `kernelMain` of kernel.cpp on a machine without disks on the primary channel: it flushes the slave
-- there, although none was identified.
use blue_os.Base.{ℕ, zero, suc, ◌≡◌, refl, true, Option, none, some, List}
use blue_os.Base.Options.{◌>>=◌}
use blue_os.Base.Texts.{codes}
use blue_os.Base.Words.{u8}
use blue_os.Ports.{PortEvent, Device, Io, read8}
use blue_os.Ata.{init, is_busy, wait_idle, flush}
use blue_os.Kernel.{
  Layout, System, primary_slave, probe, try_slave, try_disks, start_up, run_main, kernel_main,
}

-- Every read of the primary channel's status gives 0xFF, as a bus does that nothing drives.
abbrev pub IsFloating : Device → Type 0
IsFloating dev = (trace : List PortEvent) → u8 (dev trace 0x1F7) ≡ 0xFF

wait_idle-floating :
    (dev : Device) (fuel : ℕ) (io : Io)
    → IsFloating dev
    → wait_idle dev primary_slave fuel 0xFF io ≡ none
unfolding wait_idle is_busy
wait_idle-floating dev zero io h = refl
wait_idle-floating dev (suc fuel) io h =
    rw (h io.trace) (wait_idle-floating dev fuel (read8 dev 0x1F7 io).1 h)

flush-floating :
    (dev : Device) (fuel : ℕ) (io : Io) → IsFloating dev → flush dev primary_slave fuel io ≡ none
unfolding flush
flush-floating dev fuel io h = rw (h _, flush, wait_idle-floating dev fuel _ h) refl

>>=-none :
    {A B : Type 0} (o : Option A) (f : A → Option B) → ((a : A) → f a ≡ none) → (o >>= f) ≡ none
>>=-none none f h = refl
>>=-none (some a) f h = h a

none->>= : {A B : Type 0} (o : Option A) (f : A → Option B) → o ≡ none → (o >>= f) ≡ none
none->>= o f e = rw e refl

try_slave-floating :
    (dev : Device) (fuel : ℕ) (io : Io) → IsFloating dev → try_slave dev fuel io ≡ none
unfolding try_slave
try_slave-floating dev fuel io h = none->>= _ _ (flush-floating dev fuel _ h)

try_disks-floating :
    (dev : Device) (fuel : ℕ) (io : Io) → IsFloating dev → try_disks dev fuel io ≡ none
unfolding try_disks
try_disks-floating dev fuel io h =
    >>=-none (probe dev fuel (init true 0x1F0) (codes "\nS-ATA primary master: ") io) _ λ io1.
      >>=-none (probe dev fuel primary_slave (codes "\nS-ATA primary slave: ") io1) _
        λ io2. rw (try_slave-floating dev fuel io2 h) refl

-- If every read of the status of the primary channel gives 0xFF, as where no disk drives it, then
-- `kernelMain` with the multiboot magic never gets to its last loop, whatever the fuel.
pub kernel_main-floating :
    {S : Type 0} (dev : Device) (fuel : ℕ) (at : Layout) (s : System S)
    → IsFloating dev
    → kernel_main dev fuel at 0x2BADB002 s ≡ none
unfolding kernel_main run_main start_up
kernel_main-floating dev fuel at s h =
    >>=-none _ _ λ k. none->>= _ _ (none->>= _ _ (try_disks-floating dev fuel _ h))
