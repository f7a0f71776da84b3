-- ===== src/Syscall/Handshake.antt =====
-- The lock between the caller of `clone` and the thread that it starts.
use cavatools.Prelude.{
  ℕ, ◌≡◌, ◌≢◌, refl, ap, sym, subst, Bool, true, false, ◌==◌, if◌then◌else◌, arith,
}
use cavatools.Syscall.{Cpu}
use cavatools.Syscall.Clone.{
  Parent, locking, cloning, testing, waiting, asleep, passed, Child, unborn, copying, releasing,
  waking, interpreting, start_child, Pair, parent_move, wake, child_move,
}
use cavatools.Syscall.Places.{
  has_copied, is_locked, in_loop, LockIs, Waits, is_started, loop_view, loop_make, unlocked, locked,
  before_clone, wake-Waits, wake-in_loop, copying-Waits, releasing-Waits, passed-Waits,
}

-- Any order of steps from the call on; `c` is what the caller has after its next instructions.
pub data Reach {Memory : Type 0} (c0 : Cpu Memory) : Pair Memory → Type 0 where
  start :
      (old_lock : ℕ) (any : Cpu Memory)
      → Reach c0 (record {
        clone_lock = old_lock;
        parent = locking;
        child = unborn;
        caller = c0;
        started = any;
      })
  parent_step :
      {s : Pair Memory} (c : Cpu Memory) → Reach c0 s → Reach c0 (parent_move s.parent s c)
  child_step : {s : Pair Memory} → Reach c0 s → Reach c0 (child_move s.child s)
  spurious : {s : Pair Memory} → Reach c0 s → Reach c0 (record s { parent = wake s.parent })

module _ {Memory : Type 0} (c0 : Cpu Memory) where
  abbrev pub Kept : Parent → Cpu Memory → Type 0
  Kept passed caller = Unit
  Kept p caller = caller ≡ c0

  abbrev pub Copied : Child → Cpu Memory → Type 0
  Copied unborn started = Unit
  Copied copying started = Unit
  Copied k started = started ≡ start_child c0

  pub record IsHandshake (s : Pair Memory) : Type 0 where
    pub lock : LockIs s.parent s.child s.clone_lock
    pub waits : Waits s.parent s.child
    pub kept : Kept s.parent s.caller
    pub copied : Copied s.child s.started

  -- Between two places in the loop.
  loop-IsHandshake :
      (s : Pair Memory) (p q : Parent)
      → s.parent ≡ p
      → in_loop p ≡ true
      → in_loop q ≡ true
      → Waits q s.child
      → Kept q s.caller
      → IsHandshake s
      → IsHandshake (record s { parent = q })
  loop-IsHandshake s p q e hp hq waits kept v = record {
    lock =
        loop_make q s.child s.clone_lock hq (
          loop_view p s.child s.clone_lock hp
            (subst (λ r. LockIs r s.child s.clone_lock) e v.lock));
    waits = waits;
    kept = kept;
    copied = v.copied;
  }

  loop_lock :
      (s : Pair Memory) (p : Parent)
      → s.parent ≡ p
      → in_loop p ≡ true
      → IsHandshake s
      → (is_started s.child ≡ true) × (s.clone_lock ≡ is_locked s.child)
  loop_lock s p e hp v =
      loop_view p s.child s.clone_lock hp (subst (λ r. LockIs r s.child s.clone_lock) e v.lock)

  tested :
      (s : Pair Memory) (b : Bool)
      → s.parent ≡ testing
      → (s.clone_lock == 0) ≡ b
      → IsHandshake s
      → IsHandshake (record s { parent = if b then passed else waiting })
  tested s true e t v =
      let (began, lock) = loop_lock s testing e refl v in
      let zero_lock : is_locked s.child ≡ 0 = ground (arith, t, lock) in
      loop-IsHandshake s testing passed e refl refl (unlocked s.child began zero_lock) tt v
  tested s false e t v =
      loop-IsHandshake s testing waiting e refl refl tt (subst (λ r. Kept r s.caller) e v.kept) v

  waited :
      (s : Pair Memory) (b : Bool)
      → s.parent ≡ waiting
      → (s.clone_lock == 1) ≡ b
      → IsHandshake s
      → IsHandshake (record s { parent = if b then asleep else testing })
  waited s true e t v =
      let (began, lock) = loop_lock s waiting e refl v in
      let one_lock : is_locked s.child ≡ 1 = ground (arith, t, lock) in
      loop-IsHandshake s waiting asleep e refl refl (locked s.child one_lock)
        (subst (λ r. Kept r s.caller) e v.kept) v
  waited s false e t v =
      loop-IsHandshake s waiting testing e refl refl tt (subst (λ r. Kept r s.caller) e v.kept) v

  -- The lock fits the caller's place, also as the caller's place is written.
  pub lock_at :
      (s : Pair Memory) (p : Parent) → s.parent ≡ p → IsHandshake s → LockIs p s.child s.clone_lock
  lock_at s p e v = subst (λ r. LockIs r s.child s.clone_lock) e v.lock

  Kept-at : (s : Pair Memory) (p : Parent) → s.parent ≡ p → IsHandshake s → Kept p s.caller
  Kept-at s p e v = subst (λ r. Kept r s.caller) e v.kept

  locked_call :
      (s : Pair Memory)
      → s.parent ≡ locking
      → IsHandshake s
      → IsHandshake (parent_move locking s s.caller)
  unfolding parent_move
  locked_call s e v =
      let none_yet : s.child ≡ unborn =
        before_clone locking s.child s.clone_lock refl (lock_at s locking e v) in
      record {
        lock = subst (λ k. LockIs cloning k 1) (sym none_yet) refl;
        waits = tt;
        kept = Kept-at s locking e v;
        copied = v.copied;
      }

  parent-IsHandshake :
      (p : Parent) (s : Pair Memory) (c : Cpu Memory)
      → s.parent ≡ p
      → IsHandshake s
      → IsHandshake (parent_move p s c)
  unfolding parent_move
  parent-IsHandshake locking s c e v = locked_call s e v
  parent-IsHandshake cloning s c e v =
      let none_yet : s.child ≡ unborn =
        before_clone cloning s.child s.clone_lock refl (lock_at s cloning e v) in
      let lock : s.clone_lock ≡ 1 =
        subst (λ k. LockIs cloning k s.clone_lock) none_yet (lock_at s cloning e v) in
      record { lock = (refl, lock); waits = tt; kept = Kept-at s cloning e v; copied = tt }
  parent-IsHandshake testing s c e v = tested s (s.clone_lock == 0) e refl v
  parent-IsHandshake waiting s c e v = waited s (s.clone_lock == 1) e refl v
  parent-IsHandshake asleep s c e v = v
  parent-IsHandshake passed s c e v = record {
    lock = v.lock;
    waits = v.waits;
    kept = subst (λ r. Kept r c) (sym e) tt;
    copied = v.copied;
  }

  woken :
      (p : Parent) (s : Pair Memory)
      → s.parent ≡ p
      → IsHandshake s
      → IsHandshake (record s { parent = wake p })
  unfolding wake
  woken asleep s e v = loop-IsHandshake s asleep testing e refl refl tt (Kept-at s asleep e v) v
  woken locking s e v = subst (λ p. IsHandshake (record s { parent = p })) e v
  woken cloning s e v = subst (λ p. IsHandshake (record s { parent = p })) e v
  woken testing s e v = subst (λ p. IsHandshake (record s { parent = p })) e v
  woken waiting s e v = subst (λ p. IsHandshake (record s { parent = p })) e v
  woken passed s e v = subst (λ p. IsHandshake (record s { parent = p })) e v

  wake-Kept : (p : Parent) (c : Cpu Memory) → Kept p c → Kept (wake p) c
  unfolding wake
  wake-Kept asleep c h = h
  wake-Kept locking c h = h
  wake-Kept cloning c h = h
  wake-Kept testing c h = h
  wake-Kept waiting c h = h
  wake-Kept passed c h = h

  -- Until the child has copied it, the caller is the one that called.
  caller-Kept : (p : Parent) (c : Cpu Memory) → Waits p copying → Kept p c → c ≡ c0
  caller-Kept passed c w h = cc
  caller-Kept locking c w h = h
  caller-Kept cloning c w h = h
  caller-Kept testing c w h = h
  caller-Kept waiting c w h = h
  caller-Kept asleep c w h = h

  pub child_lock :
      (s : Pair Memory) (k : Child) → s.child ≡ k → IsHandshake s → LockIs s.parent k s.clone_lock
  child_lock s k e v = subst (λ r. LockIs s.parent r s.clone_lock) e v.lock

  pub child-Waits : (s : Pair Memory) (k : Child) → s.child ≡ k → IsHandshake s → Waits s.parent k
  child-Waits s k e v = subst (λ r. Waits s.parent r) e v.waits

  child-Copied : (s : Pair Memory) (k : Child) → s.child ≡ k → IsHandshake s → Copied k s.started
  child-Copied s k e v = subst (λ r. Copied r s.started) e v.copied

  pub child-IsHandshake :
      (k : Child) (s : Pair Memory) → s.child ≡ k → IsHandshake s → IsHandshake (child_move k s)
  unfolding child_move
  child-IsHandshake unborn s e v = v
  child-IsHandshake copying s e v = record {
    lock = child_lock s copying e v;
    waits = copying-Waits s.parent (child-Waits s copying e v);
    kept = v.kept;
    copied = ap start_child (caller-Kept s.parent s.caller (child-Waits s copying e v) v.kept);
  }
  child-IsHandshake releasing s e v = record {
    lock = ((child_lock s releasing e v).0, refl);
    waits = releasing-Waits s.parent (child-Waits s releasing e v);
    kept = v.kept;
    copied = child-Copied s releasing e v;
  }
  child-IsHandshake waking s e v = record {
    lock = (wake-in_loop s.parent (child_lock s waking e v).0, (child_lock s waking e v).1);
    waits = wake-Waits s.parent waking (child-Waits s waking e v);
    kept = wake-Kept s.parent s.caller v.kept;
    copied = child-Copied s waking e v;
  }
  child-IsHandshake interpreting s e v = v

  pub Reach-IsHandshake : (s : Pair Memory) → Reach c0 s → IsHandshake s
  Reach-IsHandshake s (start old_lock any) = record {
    lock = tt;
    waits = tt;
    kept = refl;
    copied = tt;
  }
  Reach-IsHandshake s (parent_step {s = t} c r) =
      parent-IsHandshake t.parent t c refl (Reach-IsHandshake t r)
  Reach-IsHandshake s (child_step {s = t} r) =
      child-IsHandshake t.child t refl (Reach-IsHandshake t r)
  Reach-IsHandshake s (spurious {s = t} r) = woken t.parent t refl (Reach-IsHandshake t r)

  early-Kept : (p : Parent) (c : Cpu Memory) → p ≢ passed → Kept p c → c ≡ c0
  early-Kept passed c n h = absurd (n refl)
  early-Kept locking c n h = h
  early-Kept cloning c n h = h
  early-Kept testing c n h = h
  early-Kept waiting c n h = h
  early-Kept asleep c n h = h

  any-Copied : (k : Child) (c : Cpu Memory) → has_copied k ≡ true → Copied k c → c ≡ start_child c0
  any-Copied unborn c e h = cc
  any-Copied copying c e h = cc
  any-Copied releasing c e h = h
  any-Copied waking c e h = h
  any-Copied interpreting c e h = h

-- In every order of steps of the two threads, with wakes for no reason at any time, and whatever the
-- caller's instructions make of its hart behind the call: as soon as the child has copied its hart, that
-- hart is `start_child` of the hart that called; the caller is behind its loop only when the child has
-- copied; and until the caller is behind its loop, its hart is the one that called.
pub clone-copies :
    {Memory : Type 0} (c0 : Cpu Memory) (s : Pair Memory)
    → Reach c0 s
    → (has_copied s.child ≡ true → s.started ≡ start_child c0)
      × (s.parent ≡ passed → has_copied s.child ≡ true)
      × (s.parent ≢ passed → s.caller ≡ c0)
clone-copies c0 s r =
    let v = Reach-IsHandshake c0 s r in
    (
      (λ e. any-Copied c0 s.child s.started e v.copied),
      (λ e. passed-Waits s.parent s.child e v.waits),
      (λ n. early-Kept c0 s.parent s.caller n v.kept),
    )
