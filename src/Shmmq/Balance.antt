-- ===== src/Shmmq/Balance.antt =====
-- shmmq/shmmq.c: on every path of the queue's functions the semaphore that was acquired is released.
use mathlib.Core.Path.{subst}
use cclab.Base.{
  ℕ, ◌≡◌, refl, sym, ◌∙◌, ap, ◌⊎◌, inl, inr, Bool, true, false, Option, none, some, List,
  if◌then◌else◌, ltb, length, take, Bool-cases, Option-cases,
}
use cclab.Base.Int.{ℤ, pos, minus_one, is_minus_one, to_ℕ}
use cclab.Shmmq.Code.{Code}
use cclab.Shmmq.Segment
use cclab.Shmmq.Segment.{Segment}
use cclab.Shmmq.Semaphore.{
  is_minus_one-status, is_success, failing, status, semaphore_p, semaphore_v,
}
use cclab.Shmmq.Semaphore
use cclab.Shmmq.System.{Ipc, Globals, Cmd, pure, undefined, ◌>>=◌, ◌>>◌}
use cclab.Shmmq.Transfer.{
  shmmq_enqueue, enqueue_locked, shmmq_dequeue, dequeue_locked, shmmq_clear, bad_size, unlock,
  put_item, take_item, check_index,
}
use cclab.Shmmq.Ensures.{Ensures, Ensures-mono, Ensures->>=}

module _ (ipc : Ipc) where
  open ipc use {World, semop, segment, put_segment}

  -- The world between the two operations: the segment is written at most once.
  abbrev pub Inside : Globals → World → World → Type 0
  Inside g w m =
      (m ≡ (semop g.semid minus_one w).1)
      ⊎ ((a : ℕ) × (s : Segment) × (m ≡ put_segment a s (semop g.semid minus_one w).1))

  -- How a function that returns a code leaves the world: untouched; with an acquisition that failed, and
  -- nothing after it; with the semaphore released after it was acquired; or still acquired, where the
  -- release failed. The codes tell the failures apart.
  pub data Balanced (g : Globals) (w : World) (c : Code) (u : World) : Type 0 where
    untouched : c ≡ Code.invalid_argument → u ≡ w → Balanced g w c u
    refused :
        is_minus_one (semop g.semid minus_one w).0 ≡ true
        → c ≡ Code.semaphore_p
        → u ≡ (semop g.semid minus_one w).1
        → Balanced g w c u
    released :
        {m : World}
        → is_minus_one (semop g.semid minus_one w).0 ≡ false
        → Inside g w m
        → is_minus_one (semop g.semid (pos 1) m).0 ≡ false
        → u ≡ (semop g.semid (pos 1) m).1
        → Balanced g w c u
    still_acquired :
        {m : World}
        → is_minus_one (semop g.semid minus_one w).0 ≡ false
        → Inside g w m
        → is_minus_one (semop g.semid (pos 1) m).0 ≡ true
        → c ≡ Code.semaphore_v
        → u ≡ (semop g.semid (pos 1) m).1
        → Balanced g w c u

  abbrev pub Kept : {A : Type 0} → (A → Code) → Globals → World → A → Globals → World → Type 0
  Kept code g w a g' u = (g' ≡ g) × Balanced g w (code a) u

  -- What holds of the world when the critical section ends.
  abbrev Written : Globals → World → Globals → World → Type 0
  Written g w g' m = (g' ≡ g) × Inside g w m

  -- What holds when the semaphore has been released, or could not be.
  abbrev Left : {B : Type 0} → (B → Code) → Globals → World → B → Globals → World → Type 0
  Left code g m b g' u =
      (g' ≡ g)
      × (u ≡ (semop g.semid (pos 1) m).1)
      × (is_minus_one (semop g.semid (pos 1) m).0 ≡ true → code b ≡ Code.semaphore_v)

  Kept-of_Written :
      {B : Type 0} (code : B → Code) (b : B) (g g' g'' : Globals) (w m u : World)
      → is_minus_one (semop g.semid minus_one w).0 ≡ false
      → Written g w g' m
      → Left code g' m b g'' u
      → Kept code g w b g'' u
  Kept-of_Written code b g g' g'' w m u got (e, wrote) (e', out, failed) =
      let same : (semop g'.semid (pos 1) m) ≡ (semop g.semid (pos 1) m) =
        ap (λ (k : Globals). semop k.semid (pos 1) m) e in
      let out' : u ≡ (semop g.semid (pos 1) m).1 = out ∙ ap (λ x. x.1) same in
      (
        e' ∙ e,
        elim (Bool-cases (is_minus_one (semop g.semid (pos 1) m).0)) [
          | inl y ↦ still_acquired got wrote y (failed (ap (λ x. is_minus_one x.0) same ∙ y)) out'
          | inr n ↦ released got wrote n out'
        ],
      )

  -- A critical section between the two operations.
  locked-Balanced :
      {A B : Type 0} (code : B → Code) (refusal : B) (body : Cmd World A) (close : A → Cmd World B)
      (g : Globals) (w : World)
      → code refusal ≡ Code.semaphore_p
      → Ensures (λ _ g' m. Written g w g' m) (body g (semop g.semid minus_one w).1)
      → ((a : A) (g' : Globals) (m : World) → Ensures (Left code g' m) (close a g' m))
      → Ensures (Kept code g w) (
          (if is_minus_one (status (semop g.semid minus_one w).0)
              then pure refusal
              else (body >>= close))
            g
            (semop g.semid minus_one w).1)
  locked-Balanced code refusal body close g w named inside outside =
      elim (Bool-cases (is_minus_one (semop g.semid minus_one w).0)) [
        | inl y ↦ rw (is_minus_one-status, y) (refl, refused y named refl)
        | inr n ↦
            rw (is_minus_one-status, n)
              (Ensures->>= (Kept code g w) (body g (semop g.semid minus_one w).1) close inside
                λ a g' m wrote.
                  Ensures-mono (close a g' m)
                    (λ b g'' u. Kept-of_Written code b g g' g'' w m u n wrote) (outside a g' m))
      ]

  failing-Left :
      (ret : Code) (v : ℤ)
      → is_minus_one v ≡ true
      → failing (status v) Code.semaphore_v ret ≡ Code.semaphore_v
  failing-Left ret v e = rw (is_minus_one-status, e) refl

  unlock-Ensures :
      (ret : Code) (g : Globals) (m : World) → Ensures (Left (λ c. c) g m) (unlock ipc ret g m)
  unfolding semaphore_v
  unlock-Ensures ret g m = (refl, refl, λ e. failing-Left ret (semop g.semid (pos 1) m).0 e)

  load_at-Ensures :
      (p : Option ℕ) (g : Globals) (w : World)
      → Ensures (λ _ g' m. (g' ≡ g) × (m ≡ w)) (Semaphore.load_at ipc p g w)
  load_at-Ensures none g w = tt
  load_at-Ensures (some a) g w = elim (Option-cases (segment a w)) [
    | inl e ↦ rw (e, Ensures) tt
    | inr (s, e) ↦ rw (e, Ensures) (refl, refl)
  ]

  load-Ensures :
      (g : Globals) (w : World) → Ensures (λ _ g' m. (g' ≡ g) × (m ≡ w)) (Semaphore.load ipc g w)
  unfolding Semaphore.load
  load-Ensures g w = load_at-Ensures g.phead g w

  after_load :
      {A : Type 0} (k : ℕ × Segment → Cmd World A) (g : Globals) (w : World)
      → ((a : ℕ) (s : Segment) (m : World)
          → m ≡ (semop g.semid minus_one w).1
          → Ensures (λ _. Written g w) (k (a, s) g m))
      → Ensures (λ _. Written g w) ((Semaphore.load ipc >>= k) g (semop g.semid minus_one w).1)
  after_load k g w h =
      Ensures->>= (λ _. Written g w) (Semaphore.load ipc g (semop g.semid minus_one w).1) k
        (load-Ensures g (semop g.semid minus_one w).1)
        λ (a, s) g' m (e, e').
          subst (λ t. Ensures (λ _. Written g w) (k (a, s) t m)) (sym e) (h a s m e')

  -- What both transfers do with the outcome of their step.
  commit-Written :
      {A : Type 0} (c : Code) (short : Bool) (a : ℕ) (s : Segment) (r : A) (g : Globals)
      (w m : World)
      → m ≡ (semop g.semid minus_one w).1
      → Ensures
          (λ _. Written g w)
          ((if is_success c
              then (if short then undefined else (Semaphore.store ipc a s >> pure r))
              else pure r)
            g m)
  commit-Written Code.success true a s r g w m e = tt
  commit-Written Code.success false a s r g w m e = (refl, inr (a, s, ap (put_segment a s) e))
  commit-Written _ short a s r g w m e = (refl, inl e)

  put_item-Written :
      (buffer : List ℕ) (n : ℕ) (g : Globals) (w : World)
      → Ensures (λ _. Written g w) (put_item ipc buffer n g (semop g.semid minus_one w).1)
  put_item-Written buffer n g w =
      after_load (λ (a, s). _) g w
        λ a s m e.
          let (c, s') = Segment.push g.mqsize g.itemsize s (take n buffer) in
          commit-Written c (ltb (length buffer) n) a s' c g w m e

  take_item-Written :
      (room n : ℕ) (g : Globals) (w : World)
      → Ensures (λ _. Written g w) (take_item ipc room n g (semop g.semid minus_one w).1)
  take_item-Written room n g w =
      after_load (λ (a, s). _) g w
        λ a s m e.
          let (c, out, s') = Segment.pop g.mqsize g.itemsize s n in
          commit-Written c (ltb room n) a s' (c, out) g w m e

  check_index-Written :
      (sf : ℕ → ℕ → ℕ) (g : Globals) (w : World)
      → Ensures (λ _. Written g w) (check_index ipc sf g (semop g.semid minus_one w).1)
  check_index-Written sf g w = after_load (λ (a, s). _) g w λ a s m e. (refl, inl e)

  enqueue_locked-Balanced :
      (buffer : List ℕ) (n : ℕ) (g : Globals) (w : World)
      → Ensures (Kept (λ c. c) g w) (enqueue_locked ipc buffer n g w)
  unfolding enqueue_locked semaphore_p
  enqueue_locked-Balanced buffer n g w =
      locked-Balanced (λ c. c) Code.semaphore_p (put_item ipc buffer n) (unlock ipc) g w refl
        (put_item-Written buffer n g w) unlock-Ensures

  dequeue_locked-Balanced :
      (room n : ℕ) (g : Globals) (w : World)
      → Ensures (Kept (λ c. c.0) g w) (dequeue_locked ipc room n g w)
  unfolding dequeue_locked semaphore_p semaphore_v
  dequeue_locked-Balanced room n g w =
      locked-Balanced {B = Code × Option (List ℕ)} (λ c. c.0) (Code.semaphore_p, none)
        (take_item ipc room n) (λ (c, out). unlock ipc c >>= λ ret. pure (ret, out)) g w refl
        (take_item-Written room n g w)
        λ (c, out) g' m. (refl, refl, λ e. failing-Left c (semop g'.semid (pos 1) m).0 e)

  -- Whatever the arguments and the state, a call of `shmmq_enqueue` that returns leaves the static
  -- variables alone, and does one of four things: nothing, with `invalid_argument`; a `semaphore_p` that
  -- fails, and nothing after it, with that error; a `semaphore_p` and then a `semaphore_v` that succeed; or
  -- the same where only `semaphore_v` fails, with that error. Between the two it writes the segment
  -- at most once.
  pub enqueue-Balanced :
      (item : Option (List ℕ)) (size : ℤ) (g : Globals) (w : World)
      → Ensures (Kept (λ c. c) g w) (shmmq_enqueue ipc item size g w)
  unfolding shmmq_enqueue
  enqueue-Balanced none size g w = (refl, untouched refl refl)
  enqueue-Balanced (some b) size g w = elim (Bool-cases (bad_size g size)) [
    | inl y ↦ rw y (refl, untouched refl refl)
    | inr z ↦ rw z (enqueue_locked-Balanced b (to_ℕ size) g w)
  ]

  -- Whatever the arguments and the state, a call of `shmmq_dequeue` that returns leaves the static
  -- variables alone, and does one of four things: nothing, with `invalid_argument`; a `semaphore_p` that
  -- fails, and nothing after it, with that error; a `semaphore_p` and then a `semaphore_v` that succeed; or
  -- the same where only `semaphore_v` fails, with that error. Between the two it writes the segment
  -- at most once.
  pub dequeue-Balanced :
      (item : Option ℕ) (size : ℤ) (g : Globals) (w : World)
      → Ensures (Kept (λ c. c.0) g w) (shmmq_dequeue ipc item size g w)
  unfolding shmmq_dequeue
  dequeue-Balanced none size g w = (refl, untouched refl refl)
  dequeue-Balanced (some room) size g w = elim (Bool-cases (bad_size g size)) [
    | inl y ↦ rw y (refl, untouched refl refl)
    | inr z ↦ rw z (dequeue_locked-Balanced room (to_ℕ size) g w)
  ]

  -- Whatever the arguments and the state, a call of `shmmq_clear` that returns leaves the static
  -- variables alone, and does one of four things: nothing, with `invalid_argument`; a `semaphore_p` that
  -- fails, and nothing after it, with that error; a `semaphore_p` and then a `semaphore_v` that succeed; or
  -- the same where only `semaphore_v` fails, with that error. Between the two it writes the segment
  -- at most once.
  pub clear-Balanced :
      (sf : Option (ℕ → ℕ → ℕ)) (g : Globals) (w : World)
      → Ensures (Kept (λ c. c) g w) (shmmq_clear ipc sf g w)
  unfolding shmmq_clear semaphore_p
  clear-Balanced none g w = (refl, untouched refl refl)
  clear-Balanced (some sf) g w =
      locked-Balanced (λ c. c) Code.semaphore_p (check_index ipc sf) (unlock ipc) g w refl
        (check_index-Written sf g w) unlock-Ensures
