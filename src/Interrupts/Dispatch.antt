-- ===== src/Interrupts/Dispatch.antt =====
-- How interrupts.cpp dispatches an interrupt, and what it tells the interrupt controllers.
use blue_os.Base.{
  ℕ, zero, suc, ◌+◌, ◌<◌, ◌≡◌, ◌≢◌, refl, true, false, List, [], ◌∷◌, ◌++◌, arith, ltb, ◌==◌, ==_ne,
  ==_refl, if◌then◌else◌,
}
use blue_os.Ports.{PortEvent, written, Io}
use blue_os.Tasks.{schedule}
use blue_os.Interrupts.{
  Interrupts, Kernel, Handlers, register, unregister, deactivate, activate, acknowledge,
  call_handler, switch_task, do_handle_interrupt, handle_interrupt,
}

-- the end-of-interrupt commands for request line `k`, the last one first
abbrev pub end_of_interrupt : ℕ → List PortEvent
end_of_interrupt k =
    if ltb k 8 then written 8 0x20 0x20 ∷ [] else written 8 0xA0 0x20 ∷ written 8 0x20 0x20 ∷ []

acknowledge-line :
    (k : ℕ) (io : Io) → k < 16 → (acknowledge (0x20 + k) io).trace ≡ end_of_interrupt k ++ io.trace
unfolding acknowledge
acknowledge-line k io h = ground arith

-- While a manager is active, request line `k` of the two controllers is dispatched to the handler
-- that is registered for it, with the stack pointer given; the pointer that this returns is the
-- result, except for the timer, where the scheduler replaces it. Then the master controller, and
-- the slave for lines 8 to 15, are told the end of the interrupt.
pub handle_interrupt-line :
    {S : Type 0} (handlers : Handlers S) (handler line esp : ℕ) (k : Kernel S)
    → k.interrupts.active ≢ 0
    → line < 16
    → k.interrupts.handler k.interrupts.active (0x20 + line) ≡ handler
    → handler ≢ 0
    → let after = handlers handler esp k in
      let out = handle_interrupt handlers (0x20 + line) esp k in
      (out.0 ≡ (if line == 0 then (schedule after.0 after.1.tasks).0 else after.0))
      × (out.1.tasks ≡ (if line == 0 then (schedule after.0 after.1.tasks).1 else after.1.tasks))
      × (out.1.interrupts ≡ after.1.interrupts)
      × (out.1.io.trace ≡ end_of_interrupt line ++ after.1.io.trace)
unfolding handle_interrupt do_handle_interrupt call_handler switch_task
handle_interrupt-line handlers handler zero esp k active small registered some_handler =
    rw (==_ne k.interrupts.active 0 active, registered, ==_ne handler 0 some_handler)
      (refl, refl, refl, acknowledge-line 0 _ small)
handle_interrupt-line handlers handler (suc line) esp k active small registered some_handler =
    let other : 0x20 + suc line ≢ 0x20 = omega arith in
    let later : suc line ≢ 0 = omega arith in
    rw
      (
        ==_ne k.interrupts.active 0 active,
        registered,
        ==_ne handler 0 some_handler,
        ==_ne (0x20 + suc line) 0x20 other,
        ==_ne (suc line) 0 later,
      )
      (refl, refl, refl, acknowledge-line (suc line) _ small)

-- A timer interrupt with no handler registered, while a manager is active, switches to the context
-- that the scheduler chooses and tells the master controller the end of the interrupt; it writes
-- nothing on the screen.
pub handle_interrupt-timer :
    {S : Type 0} (handlers : Handlers S) (esp : ℕ) (k : Kernel S)
    → k.interrupts.active ≢ 0
    → k.interrupts.handler k.interrupts.active 0x20 ≡ 0
    → let (next, m) = schedule esp k.tasks in
      handle_interrupt handlers 0x20 esp k ≡ (
        next,
        record k { tasks = m; io = record k.io { trace = written 8 0x20 0x20 ∷ k.io.trace } },
      )
unfolding handle_interrupt do_handle_interrupt call_handler switch_task acknowledge
handle_interrupt-timer handlers esp k active none_registered =
    rw (==_ne k.interrupts.active 0 active, none_registered) refl

-- A handler that was registered last for a number of a manager is the one that stands there;
-- when it is destroyed, the number has no handler, and the other numbers and managers keep theirs.
unregister-register :
    (self number manager : ℕ) (s : Interrupts)
    → let t = register self number manager s in
      let u = unregister self number manager t in
      (t.handler manager number ≡ self)
      × (u.handler manager number ≡ 0)
      × ((m n : ℕ) → (m ≡ manager → n ≢ number) → u.handler m n ≡ s.handler m n)
unfolding register unregister
unregister-register self number manager s = (
  rw (==_refl manager, ==_refl number) refl,
  rw (==_refl manager, ==_refl number, ==_refl self, ==_refl manager, ==_refl number) refl,
  λ m n ne. rw (==_refl manager, ==_refl number, ==_refl self) (ground arith),
)

-- From any state, the manager that is activated is the active one and interrupts are taken; when
-- it is then deactivated, none is active, interrupts are not taken, and an interrupt that is
-- handled all the same changes nothing.
deactivate-activate :
    {S : Type 0} (handlers : Handlers S) (self number esp : ℕ) (k : Kernel S)
    → self ≢ 0
    → let on = activate self k.interrupts in
      let off = deactivate self on in
      (on.active ≡ self)
      × (on.enabled ≡ true)
      × (off.active ≡ 0)
      × (off.enabled ≡ false)
      × (handle_interrupt handlers number esp (record k { interrupts = off })
          ≡ (esp, record k { interrupts = off }))
unfolding activate deactivate handle_interrupt
deactivate-activate handlers self number esp k h =
    (refl, refl, rw (==_refl self) refl, rw (==_refl self) refl, rw (==_refl self) refl)
