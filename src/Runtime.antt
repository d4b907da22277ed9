-- ===== src/Runtime.antt =====
-- blue_Os/src/common/cpp_support.cpp: what the compiler calls for static locals, exit handlers and
-- pure virtual functions. The memory of the guards is one byte at each address.
use blue_os.Base.{ℕ, ◌≡◌, ◌≢◌, refl, ◌==◌, if◌then◌else◌, update, update_self, update_ne}

unfoldable pub cxa_guard_acquire : (guard : ℕ) → (ℕ → ℕ) → ℕ
cxa_guard_acquire guard memory = if memory guard == 0 then 1 else 0

unfoldable pub cxa_guard_release : (guard : ℕ) → (ℕ → ℕ) → ℕ → ℕ
cxa_guard_release guard memory = update memory guard 1

unfoldable pub cxa_guard_abort : (guard : ℕ) → (ℕ → ℕ) → ℕ → ℕ
cxa_guard_abort guard memory = memory

-- The handler is not kept.
unfoldable pub cxa_atexit : (func arg dso_handle : ℕ) → ℕ
cxa_atexit func arg dso_handle = 0

unfoldable pub atexit : (func : ℕ) → ℕ
atexit func = 0

-- An initialisation that was completed is not asked for again, one that was aborted is, and the
-- guards of other static locals are left alone.
cxa_guard_acquire-cxa_guard_release :
    (guard : ℕ) (memory : ℕ → ℕ)
    → (cxa_guard_acquire guard (cxa_guard_release guard memory) ≡ 0)
      × (cxa_guard_acquire guard (cxa_guard_abort guard memory) ≡ cxa_guard_acquire guard memory)
      × ((other : ℕ)
          → other ≢ guard
          → cxa_guard_acquire other (cxa_guard_release guard memory)
            ≡ cxa_guard_acquire other memory)
unfolding cxa_guard_acquire cxa_guard_release cxa_guard_abort
cxa_guard_acquire-cxa_guard_release guard memory = (
  rw (update_self memory guard 1) refl,
  refl,
  λ other ne. rw (update_ne memory guard other 1 ne) refl,
)
