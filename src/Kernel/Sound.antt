-- ===== src/Kernel/Sound.antt =====
-- The state of the kernel of kernel.cpp while it takes interrupts, in any order.
use blue_os.Base.{
  ℕ, ◌<◌, ◌≡◌, refl, ap, ◌∙◌, true, arith, bit_and, ◌==◌, Bool-cases, inl, inr, if◌then◌else◌,
}
use blue_os.Screen.Cursor.{IsOnScreen}
use blue_os.Ports.{Device, Io, read8}
use blue_os.Tasks.{TaskManager, schedule}
use blue_os.Interrupts.{
  Interrupts, Kernel, acknowledge, call_handler, switch_task, do_handle_interrupt, handle_interrupt,
}
use blue_os.Keyboard.{Keyboard, KeyHandlers, press}
use blue_os.Keyboard as Keys
use blue_os.Mouse.{Mouse, take_byte, packet}
use blue_os.Mouse as Mice
use blue_os.Mouse.Moves.{IsValid, handle_interrupt-IsValid}
use blue_os.Ata.Ready.{say-IsOnScreen}
use blue_os.Kernel.{Layout, Devices, handle}

-- the handler that is registered for an interrupt, or 0
abbrev pub handler_of : Layout → ℕ → ℕ
handler_of at n = if n == 0x2C then at.mouse else if n == 0x21 then at.keyboard else 0

-- There are no tasks, the positions on the screen are within it, and the two drivers' handlers are
-- the only ones that are registered.
pub record IsMade {S : Type 0} (at : Layout) (k : Kernel (Devices S)) : Type 0 where
  pub tasks : k.tasks.num_tasks ≡ 0
  pub screen : IsOnScreen k.io.screen
  pub mouse : IsValid k.devices.mouse
  pub handlers : (n : ℕ) → n < 256 → k.interrupts.handler at.interrupts n ≡ handler_of at n

-- Interrupts are taken, and dispatched to the kernel's manager.
pub record IsSound {S : Type 0} (at : Layout) (k : Kernel (Devices S)) : Type 0 where
  pub made : IsMade at k
  pub active : k.interrupts.active ≡ at.interrupts
  pub enabled : k.interrupts.enabled ≡ true

press-IsOnScreen :
    {S : Type 0} (handlers : KeyHandlers S) (k : Keyboard) (scancode : ℕ) (s : S) (io : Io)
    → IsOnScreen io.screen
    → IsOnScreen (press handlers k scancode s io).1.screen
unfolding press
press-IsOnScreen handlers k scancode s io v =
    elim (Bool-cases (Keys.scancode_to_ascii scancode == 0)) [
      | inl e ↦ rw e (say-IsOnScreen _ io v)
      | inr e ↦ rw e (say-IsOnScreen _ io v)
    ]

keyboard-IsOnScreen :
    {S : Type 0} (dev : Device) (handlers : KeyHandlers S) (esp : ℕ) (k : Keyboard) (s : S)
    (io : Io)
    → IsOnScreen io.screen
    → let out = Keys.handle_interrupt dev handlers esp k s io in
      (out.0 ≡ esp) × IsOnScreen out.1.1.screen
unfolding Keys.handle_interrupt
keyboard-IsOnScreen dev handlers esp k s io v =
    let (scancode, io1) = read8 dev 0x60 io in
    elim (Bool-cases (bit_and scancode 0x80 == 0)) [
      | inl e ↦ rw e (refl, press-IsOnScreen handlers k scancode s io1 v)
      | inr e ↦ rw e (refl, v)
    ]

mouse-IsOnScreen :
    (dev : Device) (esp : ℕ) (m : Mouse) (io : Io)
    → IsOnScreen io.screen
    → let out = Mice.handle_interrupt dev esp m io in (out.0 ≡ esp) × IsOnScreen out.1.1.screen
unfolding Mice.handle_interrupt
mouse-IsOnScreen dev esp m io v =
    let (status, io1) = read8 dev 0x64 io in
    let (byte, io2) = read8 dev 0x60 io1 in
    elim (Bool-cases (bit_and status 0x20 == 0)) [
      | inl e ↦ rw e (refl, v)
      | inr e ↦ rw e (elim (Bool-cases ((take_byte byte m).offset == 0)) [
        | inl z ↦ rw z (refl, record { column = v.column; row = v.row })
        | inr z ↦ rw z (refl, v)
      ])
    ]

-- What an interrupt's handler leaves: the stack pointer, and a state in which all this holds.
abbrev Keeps :
    {S : Type 0} → Layout → (esp : ℕ) → Kernel (Devices S) → ℕ × Kernel (Devices S) → Type 0
Keeps at esp k out = (out.0 ≡ esp) × IsMade at out.1 × (out.1.interrupts ≡ k.interrupts)

handle-Keeps :
    {S : Type 0} (dev : Device) (keys : KeyHandlers S) (at : Layout) (handler esp : ℕ)
    (k : Kernel (Devices S))
    → IsMade at k
    → Keeps at esp k (handle dev keys at handler esp k)
unfolding handle
handle-Keeps dev keys at handler esp k v = elim (Bool-cases (handler == at.keyboard)) [
  | inl e ↦
      (let (same, screen) =
          keyboard-IsOnScreen dev keys esp k.devices.keyboard k.devices.events k.io v.screen in
        rw e (
          same,
          record { tasks = v.tasks; screen = screen; mouse = v.mouse; handlers = v.handlers },
          refl,
        ))
  | inr e ↦ rw e (elim (Bool-cases (handler == at.mouse)) [
    | inl f ↦
        (let (same, screen) = mouse-IsOnScreen dev esp k.devices.mouse k.io v.screen in
          let moved = handle_interrupt-IsValid dev esp k.devices.mouse k.io v.mouse in
          rw f (
            same,
            record { tasks = v.tasks; screen = screen; mouse = moved; handlers = v.handlers },
            refl,
          ))
    | inr f ↦ rw f (refl, v, refl)
  ])
]

call_handler-Keeps :
    {S : Type 0} (dev : Device) (keys : KeyHandlers S) (at : Layout) (self number esp : ℕ)
    (k : Kernel (Devices S))
    → IsMade at k
    → Keeps at esp k (call_handler (handle dev keys at) self number esp k)
unfolding call_handler
call_handler-Keeps dev keys at self number esp k v =
    elim (Bool-cases (k.interrupts.handler self number == 0)) [
      | inr e ↦ rw e (handle-Keeps dev keys at (k.interrupts.handler self number) esp k v)
      | inl e ↦ rw e (elim (Bool-cases (number == 0x20)) [
        | inl f ↦ rw f (refl, v, refl)
        | inr f ↦ rw f (
          refl,
          record {
            tasks = v.tasks;
            screen = say-IsOnScreen _ k.io v.screen;
            mouse = v.mouse;
            handlers = v.handlers;
          },
          refl,
        )
      ])
    ]

schedule-idle : (esp : ℕ) (m : TaskManager) → m.num_tasks ≡ 0 → schedule esp m ≡ (esp, m)
unfolding schedule
schedule-idle esp m none_yet = rw none_yet refl

switch_task-idle :
    {S : Type 0} (number esp : ℕ) (k : Kernel S)
    → k.tasks.num_tasks ≡ 0
    → switch_task number esp k ≡ (esp, k)
unfolding switch_task
switch_task-idle number esp k none_yet = elim (Bool-cases (number == 0x20)) [
  | inl e ↦ rw (schedule-idle esp k.tasks none_yet, e) refl
  | inr e ↦ rw (schedule-idle esp k.tasks none_yet, e) refl
]

acknowledge-screen : (number : ℕ) (io : Io) → (acknowledge number io).screen ≡ io.screen
unfolding acknowledge
acknowledge-screen number io = ground arith

acknowledged-IsSound :
    {S : Type 0} (at : Layout) (number : ℕ) (k k' : Kernel (Devices S))
    → IsMade at k'
    → k'.interrupts ≡ k.interrupts
    → IsSound at k
    → IsSound at (record k' { io = acknowledge number k'.io })
acknowledged-IsSound at number k k' made kept v = record {
  made = record {
    tasks = made.tasks;
    screen = rw (acknowledge-screen number k'.io) made.screen;
    mouse = made.mouse;
    handlers = made.handlers;
  };
  active = ap (λ (i : Interrupts). i.active) kept ∙ v.active;
  enabled = ap (λ (i : Interrupts). i.enabled) kept ∙ v.enabled;
}

-- One interrupt of any number, with any stack pointer: the same stack pointer is returned, which
-- is that of the code that was interrupted, and the state stays sound.
pub handle_interrupt-IsSound :
    {S : Type 0} (dev : Device) (keys : KeyHandlers S) (at : Layout) (number esp : ℕ)
    (k : Kernel (Devices S))
    → IsSound at k
    → let out = handle_interrupt (handle dev keys at) number esp k in
      (out.0 ≡ esp) × IsSound at out.1
unfolding handle_interrupt do_handle_interrupt
handle_interrupt-IsSound dev keys at number esp k v = elim (Bool-cases (k.interrupts.active == 0)) [
  | inl e ↦ rw e (refl, v)
  | inr e ↦
      (let called = call_handler (handle dev keys at) k.interrupts.active number esp k in
        let (same, made, kept) =
          call_handler-Keeps dev keys at k.interrupts.active number esp k v.made in
        rw (e, switch_task-idle number called.0 called.1 made.tasks)
          (same, acknowledged-IsSound at number k called.1 made kept v))
]
