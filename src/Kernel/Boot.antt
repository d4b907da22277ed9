-- ===== src/Kernel/Boot.antt =====
-- What `kernelMain` of kernel.cpp has set up when it enters its last loop, and what interrupts do
-- from then on.
use blue_os.Base.{ℕ, suc, ◌≡◌, ◌≢◌, refl, ◌∙◌, some, arith}
use blue_os.Base.Options.{◌>>=◌, >>=-some}
use blue_os.Base.Texts.{codes}
use blue_os.Screen.Cursor.{IsOnScreen}
use blue_os.Ports.{Device, say}
use blue_os.Interrupts.{Interrupts, Kernel, activate, deactivate, handle_interrupt}
use blue_os.Keyboard.{KeyHandlers}
use blue_os.Ata.Ready.{say-IsOnScreen}
use blue_os.Kernel.{
  Layout, Devices, System, idle, handle, activate_driver, set_up, try_disks, take_interrupts,
  start_up, run_main, kernel_main,
}
use blue_os.Kernel.Sound.{IsMade, IsSound, handle_interrupt-IsSound}
use blue_os.Kernel.Probes.{IsQuiet, try_disks-Returns}
use blue_os.Kernel.Made.{activate_each-Started, set_up-drivers, set_up-IsMade}

activate-handler : (self m n : ℕ) (t : Interrupts) → (activate self t).handler m n ≡ t.handler m n
unfolding activate deactivate
activate-handler self m n t = ground arith

take_interrupts-IsSound :
    {S : Type 0} (at : Layout) (k : Kernel (Devices S))
    → IsMade at k
    → IsSound at (take_interrupts at k)
unfolding take_interrupts activate deactivate
take_interrupts-IsSound at k v = record {
  made = record {
    tasks = v.tasks;
    screen = v.screen;
    mouse = v.mouse;
    handlers = λ n l. activate-handler at.interrupts at.interrupts n k.interrupts ∙ v.handlers n l;
  };
  active = refl;
  enabled = refl;
}

start_up-IsSound :
    {S : Type 0} (dev : Device) (fuel : ℕ) (at : Layout) (k : Kernel (Devices S))
    → IsQuiet dev
    → IsMade at k
    → (k' : Kernel (Devices S)) × (start_up dev (suc fuel) at k ≡ some k') × IsSound at k'
unfolding start_up
start_up-IsSound dev fuel at k quiet v =
    let on = take_interrupts at k in
    let made = (take_interrupts-IsSound at k v).made in
    let stage = codes "Hardware Initialization Stage 3\n" in
    let (io, e, screen) =
      try_disks-Returns dev fuel (say stage on.io) quiet (say-IsOnScreen stage on.io made.screen) in
    let after = record on { io = io } in
    (
      take_interrupts at after,
      >>=-some (try_disks dev (suc fuel) (say stage on.io))
          (λ io'. some (take_interrupts at (record on { io = io' }))) e refl,
      take_interrupts-IsSound at after (record {
        tasks = made.tasks;
        screen = screen;
        mouse = made.mouse;
        handlers = made.handlers;
      }),
    )

run_main-IsSound :
    {S : Type 0} (dev : Device) (fuel : ℕ) (at : Layout) (s : System S)
    → IsQuiet dev
    → at.mouse ≢ at.keyboard
    → IsOnScreen s.kernel.io.screen
    → (s' : System S) × (run_main dev (suc fuel) at (set_up at s) ≡ some (idle s'))
      × IsSound at s'.kernel
unfolding run_main
run_main-IsSound dev fuel at s quiet ne screen =
    let made = set_up at s in
    let (k1, e1, started) = activate_each-Started dev fuel at made.kernel quiet ne in
    let (k2, e2, sound) =
      start_up-IsSound dev fuel at k1 quiet (set_up-IsMade at s k1 screen started) in
    (
      record made { kernel = k2 },
      >>=-some _
          (λ k. start_up dev (suc fuel) at k >>= λ k'. some (idle (record made { kernel = k' })))
          (set_up-drivers (activate_driver dev (suc fuel) at) at s made.kernel ∙ e1)
          (>>=-some (start_up dev (suc fuel) at k1) _ e2 refl),
      sound,
    )

-- The state after a series of calls of `handleInterrupt`, each with a number and a stack pointer.
pub data Interrupted {S : Type 0} (dev : Device) (keys : KeyHandlers S) (at : Layout)
    (k : Kernel (Devices S)) : Kernel (Devices S) → Type 0 where
  none_yet : Interrupted dev keys at k k
  one_more :
      (k' : Kernel (Devices S)) (number esp : ℕ)
      → Interrupted dev keys at k k'
      → Interrupted dev keys at k (handle_interrupt (handle dev keys at) number esp k').1

Interrupted-IsSound :
    {S : Type 0} (dev : Device) (keys : KeyHandlers S) (at : Layout) (k k' : Kernel (Devices S))
    → IsSound at k
    → Interrupted dev keys at k k'
    → IsSound at k'
Interrupted-IsSound dev keys at k k' v none_yet = v
Interrupted-IsSound dev keys at k k' v (one_more before number esp runs) =
    (handle_interrupt-IsSound dev keys at number esp before
      (Interrupted-IsSound dev keys at k before v runs)).1

pub kernel_main-IsSound :
    {S : Type 0} (dev : Device) (fuel : ℕ) (at : Layout) (s : System S)
    → IsQuiet dev
    → at.mouse ≢ at.keyboard
    → IsOnScreen s.kernel.io.screen
    → (s' : System S) × (kernel_main dev (suc fuel) at 0x2BADB002 s ≡ some (idle s'))
      × ((keys : KeyHandlers S) (k' : Kernel (Devices S)) (number esp : ℕ)
          → Interrupted dev keys at s'.kernel k'
          → IsSound at k' × ((handle_interrupt (handle dev keys at) number esp k').0 ≡ esp))
unfolding kernel_main
kernel_main-IsSound dev fuel at s quiet ne screen =
    let (s', e, sound) = run_main-IsSound dev fuel at s quiet ne screen in
    (
      s',
      e,
      λ keys k' number esp runs.
          let after = Interrupted-IsSound dev keys at s'.kernel k' sound runs in
          (after, (handle_interrupt-IsSound dev keys at number esp k' after).0),
    )
