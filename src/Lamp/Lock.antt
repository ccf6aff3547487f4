-- ===== src/Lamp/Lock.antt =====
-- lamp_control.c: the spin lock around every public operation, and its callers as interleavings.
use hq_led_lamp.Common.{ℕ, ◌≡◌, ◌≢◌, refl, Bool, true, false, if◌then◌else◌, ◌==◌, arith}

-- Where a thread stands: not in the module, in the loop of `lamp_lock`, or holding the lock.
pub data Phase : Type 0 where
  outside spinning inside : Phase

-- `s_lamp_lock`, and the phase of each thread.
pub record Lock : Type 0 where
  pub flag : Bool
  pub phase : ℕ → Phase

abbrev pub initial_lock : Lock
initial_lock = record { flag = false; phase = λ t. Phase.outside }

-- Thread `t` goes to phase `p`.
abbrev pub move : Lock → ℕ → Phase → ℕ → Phase
move l t p u = if u == t then p else l.phase u

-- One atomic action of thread `t`. `retry` and `acquire` are the two outcomes of
-- `atomic_flag_test_and_set_explicit`, which returns the old flag and sets it.
pub data LockStep (l : Lock) : Lock → Type 0 where
  enter :
      (t : ℕ)
      → l.phase t ≡ Phase.outside
      → LockStep l (record l { phase = move l t Phase.spinning })
  retry :
      (t : ℕ) → l.phase t ≡ Phase.spinning → l.flag ≡ true → LockStep l (record l { flag = true })
  acquire :
      (t : ℕ)
      → l.phase t ≡ Phase.spinning
      → l.flag ≡ false
      → LockStep l (record { flag = true; phase = move l t Phase.inside })
  unlock :
      (t : ℕ)
      → l.phase t ≡ Phase.inside
      → LockStep l (record { flag = false; phase = move l t Phase.outside })

pub data LockReach : Lock → Type 0 where
  start : LockReach initial_lock
  next : {l m : Lock} → LockReach l → LockStep l m → LockReach m

record IsExclusive (l : Lock) : Type 0 where
  held : (t : ℕ) → l.phase t ≡ Phase.inside → l.flag ≡ true
  alone : (t u : ℕ) → l.phase t ≡ Phase.inside → l.phase u ≡ Phase.inside → t ≡ u

LockStep-IsExclusive : {l m : Lock} → LockStep l m → IsExclusive l → IsExclusive m
LockStep-IsExclusive {l} (enter t out) h = record {
  held = λ u e. ground (arith, h.held u);
  alone = λ u v e f. ground (arith, h.alone u v);
}
LockStep-IsExclusive {l} (retry t wait set) h = record { held = λ u e. refl; alone = h.alone }
LockStep-IsExclusive {l} (acquire t wait clear) h = record {
  held = λ u e. refl;
  alone = λ u v e f. ground (arith, h.held u, h.held v);
}
LockStep-IsExclusive {l} (unlock t holds) h = record {
  held = λ u e. ground (arith, h.alone t u);
  alone = λ u v e f. ground (arith, h.alone u v);
}

LockReach-IsExclusive : {l : Lock} → LockReach l → IsExclusive l
LockReach-IsExclusive start = record { held = λ t e. cc; alone = λ t u e f. cc }
LockReach-IsExclusive (next r st) = LockStep-IsExclusive st (LockReach-IsExclusive r)

-- In every reachable interleaving, while a thread is between lamp_lock and lamp_unlock the flag is
-- set and no other thread is there.
pub lock_exclusive :
    (l : Lock) (t u : ℕ)
    → LockReach l
    → l.phase t ≡ Phase.inside
    → t ≢ u
    → (l.flag ≡ true) × (l.phase u ≢ Phase.inside)
lock_exclusive l t u r e ne =
    let x = LockReach-IsExclusive r in (x.held t e, λ f. ne (x.alone t u e f))
