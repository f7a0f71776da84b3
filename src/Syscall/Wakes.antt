-- ===== src/Syscall/Wakes.antt =====
-- The caller of `clone` is never left asleep.
use cavatools.Prelude.{ℕ, zero, suc, ◌≡◌, refl, ap, sym, ◌∙◌, ◌≢◌, subst, true}
use cavatools.Syscall.{Cpu}
use cavatools.Syscall.Clone.{
  Parent, locking, cloning, testing, waiting, asleep, passed, Child, unborn, copying, releasing,
  waking, interpreting, Pair, parent_move, child_move,
}
use cavatools.Syscall.Places.{in_loop, LockIs, Waits}
use cavatools.Syscall.Handshake.{
  Reach, child_lock, child-Waits, IsHandshake, Reach-IsHandshake, child-IsHandshake,
}

next : Child → Child
next unborn = unborn
next copying = releasing
next releasing = waking
next waking = interpreting
next interpreting = interpreting

three_next : (k : Child) → k ≢ unborn → next (next (next k)) ≡ interpreting
unfolding next
three_next unborn n = absurd (n refl)
three_next copying n = refl
three_next releasing n = refl
three_next waking n = refl
three_next interpreting n = refl

-- The next place of a caller that finds the lock free.
free_next : Parent → Parent
free_next testing = passed
free_next waiting = testing
free_next p = p

two_free : (p : Parent) → in_loop p ≡ true → p ≢ asleep → free_next (free_next p) ≡ passed
unfolding free_next
two_free testing i n = refl
two_free waiting i n = refl
two_free passed i n = refl
two_free asleep i n = absurd (n refl)
two_free locking i n = cc
two_free cloning i n = cc

free-in_loop : (p : Parent) → in_loop p ≡ true → in_loop (free_next p) ≡ true
unfolding free_next
free-in_loop testing i = refl
free-in_loop waiting i = refl
free-in_loop passed i = refl
free-in_loop asleep i = refl
free-in_loop locking i = cc
free-in_loop cloning i = cc

not_asleep : (p : Parent) → Waits p interpreting → p ≢ asleep
not_asleep asleep w e = cc
not_asleep locking w e = cc
not_asleep cloning w e = cc
not_asleep testing w e = cc
not_asleep waiting w e = cc
not_asleep passed w e = cc

-- A caller that is in its loop has started the child.
started_child :
    (p : Parent) (k : Child) (lock : ℕ) → in_loop p ≡ true → LockIs p k lock → k ≢ unborn
started_child p k lock i h e = before p lock i (subst (λ r. LockIs p r lock) e h)
  where
    before : (p : Parent) (lock : ℕ) → in_loop p ≡ true → LockIs p unborn lock → ⊥
    before locking lock i h = cc
    before cloning lock i h = cc
    before testing lock i h = h
    before waiting lock i h = h
    before asleep lock i h = h
    before passed lock i h = h

module _ {Memory : Type 0} where
  -- The steps of the child alone.
  unfoldable pub child_steps : ℕ → Pair Memory → Pair Memory
  unfolding child_move
  child_steps zero s = s
  child_steps (suc k) s = child_steps k (child_move s.child s)

  -- The steps of the caller alone, until its instructions go on.
  unfoldable pub caller_steps : ℕ → Pair Memory → Pair Memory
  unfolding parent_move
  caller_steps zero s = s
  caller_steps (suc k) s = caller_steps k (parent_move s.parent s s.caller)

  child_steps-IsHandshake :
      (c0 : Cpu Memory) (n : ℕ) (s : Pair Memory)
      → IsHandshake c0 s
      → IsHandshake c0 (child_steps n s)
  unfolding child_steps
  child_steps-IsHandshake c0 zero s v = v
  child_steps-IsHandshake c0 (suc n) s v =
      child_steps-IsHandshake c0 n (child_move s.child s) (child-IsHandshake c0 s.child s refl v)

  child_move-next : (k : Child) (s : Pair Memory) → s.child ≡ k → (child_move k s).child ≡ next k
  unfolding child_move next
  child_move-next unborn s e = e
  child_move-next copying s e = refl
  child_move-next releasing s e = refl
  child_move-next waking s e = refl
  child_move-next interpreting s e = e

  child_steps-next : (s : Pair Memory) → (child_steps 3 s).child ≡ next (next (next s.child))
  unfolding child_steps
  child_steps-next s =
      let t = child_move s.child s in
      let u = child_move t.child t in
      child_move-next u.child u refl
      ∙ ap next (child_move-next t.child t refl ∙ ap next (child_move-next s.child s refl))

  free_move :
      (p : Parent) (s : Pair Memory)
      → s.parent ≡ p
      → in_loop p ≡ true
      → s.clone_lock ≡ 0
      → ((parent_move p s s.caller).parent ≡ free_next p)
        × ((parent_move p s s.caller).clone_lock ≡ 0)
  unfolding parent_move free_next
  free_move testing s e i l = (rw l, l)
  free_move waiting s e i l = (rw l, l)
  free_move passed s e i l = (e, l)
  free_move asleep s e i l = (e, l)
  free_move locking s e i l = cc
  free_move cloning s e i l = cc

  -- The loop of the caller is over after two steps when the lock is free and it is awake.
  loop_ends :
      (s : Pair Memory)
      → s.clone_lock ≡ 0
      → in_loop s.parent ≡ true
      → s.parent ≢ asleep
      → (caller_steps 2 s).parent ≡ passed
  unfolding caller_steps
  loop_ends s l i n =
      let (here, lock) = free_move s.parent s refl i l in
      let t = parent_move s.parent s s.caller in
      let looping : in_loop t.parent ≡ true =
        subst (λ p. in_loop p ≡ true) (sym here) (free-in_loop s.parent i) in
      let (there, _) = free_move t.parent t refl looping lock in
      there ∙ ap free_next here ∙ two_free s.parent i n

  -- The child alone gets to its instructions in three steps, and frees and wakes the caller.
  child_frees :
      (c0 : Cpu Memory) (s : Pair Memory)
      → Reach c0 s
      → in_loop s.parent ≡ true
      → let t = child_steps 3 s in
        (t.clone_lock ≡ 0) × (in_loop t.parent ≡ true) × (t.parent ≢ asleep)
  child_frees c0 s r i =
      let v = Reach-IsHandshake c0 s r in
      let t = child_steps 3 s in
      let w : IsHandshake c0 t = child_steps-IsHandshake c0 3 s v in
      let last : t.child ≡ interpreting =
        child_steps-next s
        ∙ three_next s.child (started_child s.parent s.child s.clone_lock i v.lock) in
      let (looping, lock) = child_lock c0 t interpreting last w in
      (lock, looping, not_asleep t.parent (child-Waits c0 t interpreting last w))

-- No wake is lost. In every state that any order of steps leads to once the thread is created, when the
-- child makes three steps and then the caller makes two, the caller is behind its loop, also where it
-- was asleep.
pub clone-wakes :
    {Memory : Type 0} (c0 : Cpu Memory) (s : Pair Memory)
    → Reach c0 s
    → in_loop s.parent ≡ true
    → (caller_steps 2 (child_steps 3 s)).parent ≡ passed
clone-wakes c0 s r i =
    let (lock, looping, awake) = child_frees c0 s r i in
    loop_ends (child_steps 3 s) lock looping awake
