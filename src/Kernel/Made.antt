-- ===== src/Kernel/Made.antt =====
-- The objects that `kernelMain` of kernel.cpp makes, and the activation of the drivers.
use blue_os.Base.{ℕ, suc, ◌<◌, ◌≡◌, ◌≢◌, refl, ap, ◌∙◌, some, [], ◌∷◌, arith, ==_refl, ==_ne}
use blue_os.Screen.Cursor.{IsOnScreen}
use blue_os.Ports.{Device, Io, read8}
use blue_os.Interrupts.{Interrupts, Kernel, register, activate, deactivate, handle_interrupt}
use blue_os.Interrupts as Managers
use blue_os.Interrupts.Gates.{init-handlers}
use blue_os.Tasks.{TaskManager}
use blue_os.Tasks as Scheduling
use blue_os.Keyboard.{KeyHandlers, clear_buffer, enable}
use blue_os.Keyboard as Keys
use blue_os.Mouse as Mice
use blue_os.Mouse.Moves.{IsValid}
use blue_os.Drivers.{Activate, activate_all}
use blue_os.Drivers.Order.{add_each, activate_each, activate_all-add_each}
use blue_os.Kernel.{
  Layout, Devices, System, activate_driver, make_task, make_task_manager, make_tasks, set_up,
}
use blue_os.Kernel.Sound.{handler_of, IsMade}
use blue_os.Kernel.Probes.{IsQuiet}

registered :
    (at : Layout) (t : Interrupts) (n : ℕ)
    → t.handler at.interrupts n ≡ 0
    → (register at.mouse 0x2C at.interrupts (register at.keyboard 0x21 at.interrupts t)).handler
        at.interrupts n
      ≡ handler_of at n
unfolding register
registered at t n e = rw (==_refl at.interrupts) (ground arith)

set_up-handlers :
    {S : Type 0} (at : Layout) (s : System S) (n : ℕ)
    → n < 256
    → (set_up at s).kernel.interrupts.handler at.interrupts n ≡ handler_of at n
unfolding set_up
set_up-handlers at s n l =
    let k = Managers.init at.stubs at.interrupts at.table (make_tasks at s).kernel in
    registered at k.interrupts n
      (init-handlers at.stubs at.interrupts at.table n (make_tasks at s).kernel l)

set_up-tasks : {S : Type 0} (at : Layout) (s : System S) → (set_up at s).kernel.tasks.num_tasks ≡ 0
unfolding set_up make_tasks make_task make_task_manager Managers.init Scheduling.init
set_up-tasks at s = refl

set_up-screen :
    {S : Type 0} (at : Layout) (s : System S) → (set_up at s).kernel.io.screen ≡ s.kernel.io.screen
unfolding set_up make_tasks make_task make_task_manager Managers.init Managers.remap_pic
set_up-screen at s = refl

-- What the activation of the drivers changes: the ports, and the mouse.
pub record Started {S : Type 0} (k k' : Kernel (Devices S)) : Type 0 where
  pub tasks : k'.tasks ≡ k.tasks
  pub interrupts : k'.interrupts ≡ k.interrupts
  pub screen : k'.io.screen ≡ k.io.screen
  pub mouse : IsValid k'.devices.mouse

clear_buffer-empty :
    (dev : Device) (fuel : ℕ) (io : Io)
    → IsQuiet dev
    → clear_buffer dev (suc fuel) io ≡ some (read8 dev 0x64 io).1
unfolding clear_buffer
clear_buffer-empty dev fuel io quiet = rw (quiet.keyboard io.trace) refl

activate-empty :
    (dev : Device) (fuel : ℕ) (io : Io)
    → IsQuiet dev
    → Keys.activate dev (suc fuel) io ≡ some (enable dev (read8 dev 0x64 io).1)
unfolding Keys.activate
activate-empty dev fuel io quiet = rw (clear_buffer-empty dev fuel io quiet, Keys.activate) refl

activate_keyboard :
    {S : Type 0} (dev : Device) (fuel : ℕ) (at : Layout) (k : Kernel (Devices S))
    → IsQuiet dev
    → activate_driver dev (suc fuel) at at.keyboard k
      ≡ some (record k { io = enable dev (read8 dev 0x64 k.io).1 })
unfolding activate_driver
activate_keyboard dev fuel at k quiet =
    rw (==_refl at.keyboard, activate-empty dev fuel k.io quiet) refl

activate_mouse :
    {S : Type 0} (dev : Device) (fuel : ℕ) (at : Layout) (k : Kernel (Devices S))
    → at.mouse ≢ at.keyboard
    → let (mouse, io) = Mice.activate dev k.devices.mouse k.io in
      activate_driver dev fuel at at.mouse k
      ≡ some (record k { io = io; devices = record k.devices { mouse = mouse } })
unfolding activate_driver
activate_mouse dev fuel at k ne = rw (==_ne at.mouse at.keyboard ne, ==_refl at.mouse) refl

pub activate_each-Started :
    {S : Type 0} (dev : Device) (fuel : ℕ) (at : Layout) (k : Kernel (Devices S))
    → IsQuiet dev
    → at.mouse ≢ at.keyboard
    → (k' : Kernel (Devices S)) × (activate_each
          (activate_driver dev (suc fuel) at)
          (at.keyboard ∷ at.mouse ∷ [])
          k
        ≡ some k')
      × Started k k'
unfolding activate_each Mice.activate enable
activate_each-Started dev fuel at k quiet ne =
    rw
      (
        activate_keyboard dev fuel at k quiet,
        activate_each,
        activate_mouse dev (suc fuel) at _ ne,
        activate_each,
      )
      (
        _,
        refl,
        record {
          tasks = refl;
          interrupts = refl;
          screen = refl;
          mouse = record { column = omega arith; row = omega arith; part = omega arith };
        },
      )

pub set_up-drivers :
    {S : Type 0} (activate : Activate (Kernel (Devices S))) (at : Layout) (s : System S)
    (k : Kernel (Devices S))
    → activate_all activate (set_up at s).drivers k
      ≡ activate_each activate (at.keyboard ∷ at.mouse ∷ []) k
unfolding set_up add_each
set_up-drivers activate at s k =
    activate_all-add_each activate (at.keyboard ∷ at.mouse ∷ []) s.drivers k (omega arith)

pub set_up-IsMade :
    {S : Type 0} (at : Layout) (s : System S) (k : Kernel (Devices S))
    → IsOnScreen s.kernel.io.screen
    → Started (set_up at s).kernel k
    → IsMade at k
set_up-IsMade at s k screen started = record {
  tasks = ap (λ (m : TaskManager). m.num_tasks) started.tasks ∙ set_up-tasks at s;
  screen = rw (started.screen, set_up-screen at s) screen;
  mouse = started.mouse;
  handlers = λ n l.
      ap (λ (t : Interrupts). t.handler at.interrupts n) started.interrupts
      ∙ set_up-handlers at s n l;
}
