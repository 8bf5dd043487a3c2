-- ===== src/Shmmq/Interleaved.antt =====
-- shmmq/shmmq.c: the calls of interleaved processes are whole critical sections, one after the other.
use cclab.Base.{
  map-end, ℕ, suc, ◌⊎◌, ◌+◌, ◌-◌, ◌≡◌, ◌≢◌, refl, sym, ◌∙◌, ap, inl, inr, true, false, [], ◌∷◌,
  ◌++◌, ◌==◌, Bool-cases, arith,
}
use mathlib.Core.Path.{ap₂, subst}
use cclab.Base.Pointers.{update}
use cclab.Shmmq.Segment.{Segment}
use cclab.Shmmq.Slots.{Fits, IsValid, contents}
use cclab.Shmmq.Trace.{Op, Reply, run, run_queue, Sized, run_refines}
use cclab.Shmmq.Sections.{
  section, after_all, ops_of, replies_of, run-last, after_all-last, AtPhase, access-AtPhase,
}
use cclab.Shmmq.Processes.{
  Phase, outside, entered, finished, access, Processes, after_access, Reached, begin, enter,
  proceed, leave,
}

-- Nobody is inside, or one process is, part of the way; the calls that are over are whole sections in their order.
record IsFree (m i : ℕ) (s : Segment) (w : Processes) : Type 0 where
  semaphore : w.semaphore ≡ 1
  phases : (k : ℕ) → w.phase k ≡ outside
  segment : w.segment ≡ after_all m i s (ops_of w.calls)

record IsHeld (m i : ℕ) (s : Segment) (w : Processes) : Type 0 where
  holder : ℕ
  semaphore : w.semaphore ≡ 0
  phases : (k : ℕ) → k ≢ holder → w.phase k ≡ outside
  part : AtPhase m i (after_all m i s (ops_of w.calls)) (w.phase holder) w.segment

record IsOrdered (m i : ℕ) (s : Segment) (w : Processes) : Type 0 where
  replies : run m i s (ops_of w.calls) ≡ replies_of w.calls
  now : IsFree m i s w ⊎ IsHeld m i s w

module _ (m i : ℕ) (s : Segment) where
  entered_lem :
      (k left : ℕ) (op : Op) (w : Processes)
      → IsOrdered m i s w
      → w.phase k ≡ outside
      → w.semaphore ≡ suc left
      → IsOrdered m i s (record w { semaphore = left; phase = update w.phase k (entered op) })
  unfolding AtPhase
  entered_lem k left op w o e f =
      let self : (k == k) ≡ true = ground arith in
      elim o.now [
        | inl free ↦ record {
          replies = o.replies;
          now = inr (record {
            holder = k;
            semaphore = omega (arith, f, free.semaphore);
            phases = λ j ne. let g : (j == k) ≡ false = ground (arith, ne) in rw g (free.phases j);
            part = rw self free.segment;
          });
        }
        | inr held ↦ absurd (omega (arith, f, held.semaphore))
      ]

  unmoved : (w : Processes) (k j : ℕ) → w.phase k ≡ outside → update w.phase k outside j ≡ w.phase j
  unmoved w k j e = elim (Bool-cases (j == k)) [
    | inl y ↦ let f : k ≡ j = ground arith in rw y (sym e ∙ ap w.phase f)
    | inr z ↦ rw z refl
  ]

  same_phases :
      (w : Processes) (phase : ℕ → Phase)
      → ((j : ℕ) → phase j ≡ w.phase j)
      → IsOrdered m i s w
      → IsOrdered m i s (record w { phase = phase })
  same_phases w phase same o = record {
    replies = o.replies;
    now = elim o.now [
      | inl free ↦ inl (record {
        semaphore = free.semaphore;
        phases = λ j. same j ∙ free.phases j;
        segment = free.segment;
      })
      | inr held ↦ inr (record {
        holder = held.holder;
        semaphore = held.semaphore;
        phases = λ j ne. same j ∙ held.phases j ne;
        part = rw (same held.holder) held.part;
      })
    ];
  }

  proceeded : (k : ℕ) (w : Processes) → IsOrdered m i s w → IsOrdered m i s (after_access m i k w)
  unfolding access
  proceeded k w o =
      let stays : w.phase k ≡ outside → IsOrdered m i s (after_access m i k w) =
        λ e. rw e (same_phases w (update w.phase k outside) (λ j. unmoved w k j e) o) in
      let self : (k == k) ≡ true = ground arith in
      elim o.now [
        | inl free ↦ stays (free.phases k)
        | inr held ↦ elim (Bool-cases (k == held.holder)) [
          | inl y ↦
              let e : held.holder ≡ k = ground arith in
              let part : AtPhase m i (after_all m i s (ops_of w.calls)) (w.phase k) w.segment =
                subst (λ j. AtPhase m i (after_all m i s (ops_of w.calls)) (w.phase j) w.segment) e
                  held.part in
              record {
                replies = o.replies;
                now = inr (record {
                  holder = k;
                  semaphore = held.semaphore;
                  phases = λ j ne.
                      let g : (j == k) ≡ false = ground (arith, ne) in
                      rw g (held.phases j λ f. ne (f ∙ e));
                  part = rw self (
                      access-AtPhase m i (after_all m i s (ops_of w.calls)) (w.phase k) w.segment
                        part);
                });
              }
          | inr z ↦ stays (held.phases k (ground (arith, z)))
        ]
      ]

  left_lem :
      (k : ℕ) (op : Op) (reply : Reply) (w : Processes)
      → IsOrdered m i s w
      → w.phase k ≡ finished op reply
      → IsOrdered m i s (record w {
        semaphore = w.semaphore + 1;
        phase = update w.phase k outside;
        calls = w.calls ++ ((op, reply) ∷ []);
      })
  unfolding AtPhase
  left_lem k op reply w o e =
      let base = after_all m i s (ops_of w.calls) in
      elim o.now [
        | inl free ↦ absurd (cc (e, free.phases k))
        | inr held ↦ elim (Bool-cases (k == held.holder)) [
          | inl y ↦
              let f : held.holder ≡ k = ground arith in
              let g : w.phase held.holder ≡ finished op reply = ap w.phase f ∙ e in
              let whole : section m i op base ≡ (reply, w.segment) =
                subst (λ p. AtPhase m i base p w.segment) g held.part in
              let ops : ops_of (w.calls ++ ((op, reply) ∷ [])) ≡ ops_of w.calls ++ (op ∷ []) =
                map-end (λ c. c.0) w.calls (op, reply) in
              record {
                replies =
                    ap (run m i s) ops
                    ∙ run-last m i s (ops_of w.calls) op
                    ∙ ap₂ (λ l r. l ++ (r ∷ [])) o.replies (ap (λ x. x.0) whole)
                    ∙ sym (map-end (λ c. c.1) w.calls (op, reply));
                now = inl (record {
                  semaphore = omega (arith, held.semaphore);
                  phases = λ j. elim (Bool-cases (j == k)) [
                    | inl a ↦ rw a refl
                    | inr b ↦ let ne : j ≢ k = ground arith in rw b (held.phases j λ h. ne (h ∙ f))
                  ];
                  segment =
                      sym (ap (λ x. x.1) whole)
                      ∙ sym (after_all-last m i s (ops_of w.calls) op)
                      ∙ ap (after_all m i s) (sym ops);
                });
              }
          | inr z ↦ absurd (cc (e, held.phases k (ground (arith, z))))
        ]
      ]

  reached_lem : (w : Processes) → Reached m i s w → IsOrdered m i s w
  unfolding run
  reached_lem _ begin = record {
    replies = refl;
    now = inl (record { semaphore = refl; phases = λ k. refl; segment = refl });
  }
  reached_lem _ (enter k left op w r e f) = entered_lem k left op w (reached_lem w r) e f
  reached_lem _ (proceed k w r) = proceeded k w (reached_lem w r)
  reached_lem _ (leave k op reply w r e) = left_lem k op reply w (reached_lem w r) e

  -- However the processes interleave, from a semaphore of 1 on, all others are outside while one of them is
  -- inside.
  pub processes_exclude :
      (j k : ℕ) (w : Processes)
      → Reached m i s w
      → w.phase j ≢ outside
      → k ≢ j
      → w.phase k ≡ outside
  processes_exclude j k w r f ne =
      let o = reached_lem w r in
      elim o.now [
        | inl free ↦ free.phases k
        | inr held ↦ elim (Bool-cases (j == held.holder)) [
          | inl y ↦ let e : held.holder ≡ j = ground arith in held.phases k (λ h. ne (h ∙ e))
          | inr z ↦ absurd (f (held.phases j (ground (arith, z))))
        ]
      ]

  -- However the processes interleave, from a semaphore of 1 and a valid segment on that fits (mqsize divides 2^32), the
  -- calls that have released the semaphore got the replies of a FIFO of `mqsize - 1` items that serves
  -- them in this order, where the items fill a slot and requests are no longer than one.
  pub interleaved_refines :
      (w : Processes)
      → Reached m i s w
      → Fits m i
      → IsValid m s
      → Sized i (ops_of w.calls)
      → replies_of w.calls ≡ run_queue (m - 1) (contents m i s) (ops_of w.calls)
  interleaved_refines w r f v z =
      let o = reached_lem w r in sym o.replies ∙ run_refines m i s (ops_of w.calls) f v z
