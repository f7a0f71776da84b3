-- ===== src/Syscall/Places.antt =====
-- The places of the caller of `clone` and of the thread that it starts, against the lock.
use cavatools.Prelude.{ℕ, ◌≡◌, refl, Bool, true, false, arith}
use cavatools.Syscall.Clone.{
  Parent, locking, cloning, testing, waiting, asleep, passed, Child, unborn, copying, releasing,
  waking, interpreting, wake,
}

-- The child has copied the caller.
abbrev pub has_copied : Child → Bool
has_copied unborn = false
has_copied copying = false
has_copied _ = true

-- The child has still to wake a caller that waits.
abbrev pub will_wake : Child → Bool
will_wake interpreting = false
will_wake _ = true

abbrev pub is_locked : Child → ℕ
is_locked copying = 1
is_locked releasing = 1
is_locked _ = 0

abbrev pub in_loop : Parent → Bool
in_loop locking = false
in_loop cloning = false
in_loop _ = true

abbrev pub BeforeClone : Parent → ℕ → Type 0
BeforeClone locking lock = Unit
BeforeClone cloning lock = lock ≡ 1
BeforeClone p lock = ⊥

-- How far the two can be apart, and the value of the lock.
abbrev pub LockIs : Parent → Child → ℕ → Type 0
LockIs p unborn lock = BeforeClone p lock
LockIs p k lock = (in_loop p ≡ true) × (lock ≡ is_locked k)

abbrev pub Waits : Parent → Child → Type 0
Waits passed k = has_copied k ≡ true
Waits asleep k = will_wake k ≡ true
Waits p k = Unit

unfoldable pub is_started : Child → Bool
is_started unborn = false
is_started _ = true

pub loop_view :
    (p : Parent) (k : Child) (lock : ℕ)
    → in_loop p ≡ true
    → LockIs p k lock
    → (is_started k ≡ true) × (lock ≡ is_locked k)
unfolding is_started
loop_view locking k lock e h = cc
loop_view cloning k lock e h = cc
loop_view p unborn lock e h = absurd h
loop_view p k lock e h = (refl, h.1)

pub loop_make :
    (q : Parent) (k : Child) (lock : ℕ)
    → in_loop q ≡ true
    → (is_started k ≡ true) × (lock ≡ is_locked k)
    → LockIs q k lock
unfolding is_started
loop_make q unborn lock e (h, l) = cc
loop_make q k lock e (h, l) = (e, l)

pub unlocked : (k : Child) → is_started k ≡ true → is_locked k ≡ 0 → has_copied k ≡ true
unfolding is_started
unlocked unborn h e = cc
unlocked copying h e = absurd (omega arith)
unlocked k h e = refl

pub locked : (k : Child) → is_locked k ≡ 1 → will_wake k ≡ true
locked interpreting e = absurd (omega arith)
locked k e = refl

not_in_loop : (p : Parent) → in_loop p ≡ false → in_loop p ≡ true → ⊥
not_in_loop p e h = cc

pub before_clone :
    (p : Parent) (k : Child) (lock : ℕ) → in_loop p ≡ false → LockIs p k lock → k ≡ unborn
before_clone p unborn lock e h = refl
before_clone p copying lock e h = absurd (not_in_loop p e h.0)
before_clone p releasing lock e h = absurd (not_in_loop p e h.0)
before_clone p waking lock e h = absurd (not_in_loop p e h.0)
before_clone p interpreting lock e h = absurd (not_in_loop p e h.0)

-- Nobody is asleep behind a wake, so nobody waits for one.
pub wake-Waits : (p : Parent) (k : Child) → Waits p waking → Waits (wake p) interpreting
unfolding wake
wake-Waits asleep k h = tt
wake-Waits locking k h = tt
wake-Waits cloning k h = tt
wake-Waits testing k h = tt
wake-Waits waiting k h = tt
wake-Waits passed k h = refl

pub wake-in_loop : (p : Parent) → in_loop p ≡ true → in_loop (wake p) ≡ true
unfolding wake
wake-in_loop asleep e = refl
wake-in_loop locking e = e
wake-in_loop cloning e = e
wake-in_loop testing e = e
wake-in_loop waiting e = e
wake-in_loop passed e = e

pub copying-Waits : (p : Parent) → Waits p copying → Waits p releasing
copying-Waits passed w = refl
copying-Waits asleep w = refl
copying-Waits locking w = tt
copying-Waits cloning w = tt
copying-Waits testing w = tt
copying-Waits waiting w = tt

pub releasing-Waits : (p : Parent) → Waits p releasing → Waits p waking
releasing-Waits passed w = refl
releasing-Waits asleep w = refl
releasing-Waits locking w = tt
releasing-Waits cloning w = tt
releasing-Waits testing w = tt
releasing-Waits waiting w = tt

pub passed-Waits : (p : Parent) (k : Child) → p ≡ passed → Waits p k → has_copied k ≡ true
passed-Waits passed k e w = w
passed-Waits p k e w = cc
