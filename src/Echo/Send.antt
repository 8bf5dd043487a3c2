-- ===== src/Echo/Send.antt =====
-- ae/main.c: `non_block_send`.
use cclab.Base.{
  ℕ, zero, suc, ◌+◌, ◌-◌, ◌<◌, ◌≤◌, ◌≡◌, refl, sym, ◌∙◌, ap, true, false, Option, some, List, [],
  ◌∷◌, ◌++◌, ◌==◌, length, take, drop, length-drop, append_assoc, append-nil, arith, Bool-cases,
  inl, inr, ◌⊎◌,
}
use cclab.Base.Int.{ℤ, pos, negsuc, minus_one, is_nonpos, to_ℕ}
use cclab.Echo.System.{Errno, again, would_block, interrupted, no_buffers, other, System}
use cclab.Echo.Server.{send_loop, non_block_send, is_retried}

take-take-drop :
    (n k : ℕ) (xs : List ℕ) → n ≤ length xs → take n xs ++ take k (drop n xs) ≡ take (n + k) xs
take-take-drop zero k xs le = let e : 0 + k ≡ k = omega arith in rw e refl
take-take-drop (suc n) k [] le = absurd (omega arith)
take-take-drop (suc n) k (x ∷ xs) le =
    let e : suc n + k ≡ suc (n + k) = omega arith in
    rw e (ap (λ l. x ∷ l) (take-take-drop n k xs (omega arith)))

positive-to_ℕ : (z : ℤ) → is_nonpos z ≡ false → 0 < to_ℕ z
positive-to_ℕ (pos n) e = ground arith
positive-to_ℕ (negsuc n) e = cc

nonpos-to_ℕ : (z : ℤ) → is_nonpos z ≡ true → to_ℕ z ≡ 0
nonpos-to_ℕ (pos n) e = ground arith
nonpos-to_ℕ (negsuc n) e = refl

module _ {ℓ} {W : Type ℓ} (sys : System W) (out : ℤ → W → List ℕ) where
  -- `send` puts as many of the first bytes on the way as it returns, no more than it is given, and none
  -- where it fails.
  pub record SendsPrefix : Type ℓ where
    pub bound : (fd : ℤ) (xs : List ℕ) (w : W) → to_ℕ (sys.send fd xs w).0 ≤ length xs
    pub sent :
        (fd : ℤ) (xs : List ℕ) (w : W)
        → out fd (sys.send fd xs w).1 ≡ out fd w ++ take (to_ℕ (sys.send fd xs w).0) xs

  -- A failure that passes: `EAGAIN`, `EINTR` and `ENOBUFS`.
  abbrev pub IsPassing : Errno → Type 0
  IsPassing again = Unit
  IsPassing interrupted = Unit
  IsPassing no_buffers = Unit
  IsPassing would_block = ⊥
  IsPassing other = ⊥

  -- Only so many sends of some bytes fail in passing: each takes from `patience`, and no send adds to it.
  pub record AreTemporary (patience : W → ℕ) : Type ℓ where
    pub fewer :
        (fd : ℤ) (xs : List ℕ) (w : W)
        → 0 < length xs
        → is_nonpos (sys.send fd xs w).0 ≡ true
        → IsPassing (sys.errno (sys.send fd xs w).1)
        → patience (sys.send fd xs w).1 < patience w
    pub no_more : (fd : ℤ) (xs : List ℕ) (w : W) → patience (sys.send fd xs w).1 ≤ patience w

  -- What the call returns: 0 and the bytes are all on the way, or -1 and only a part of them is, after a
  -- failure that does not pass.
  pub record Sent (o : Option (ℤ × W)) (fd : ℤ) (xs : List ℕ) (w : W) : Type ℓ where
    pub value : ℤ
    pub world : W
    pub done : o ≡ some (value, world)
    pub taken : ℕ
    pub way : out fd world ≡ out fd w ++ take taken xs
    pub complete :
        (value ≡ pos 0) × (taken ≡ length xs)
        ⊎ (value ≡ minus_one) × (taken < length xs) × (IsPassing (sys.errno world) → ⊥)

  passing : (e : Errno) → is_retried e ≡ true → IsPassing e
  passing again r = tt
  passing interrupted r = tt
  passing no_buffers r = tt
  passing would_block r = cc
  passing other r = cc

  not_passing : (e : Errno) → is_retried e ≡ false → IsPassing e → ⊥
  not_passing again r p = cc
  not_passing interrupted r p = cc
  not_passing no_buffers r p = cc
  not_passing would_block r p = p
  not_passing other r p = p

  module _ (prefix : SendsPrefix) (patience : W → ℕ) (temporary : AreTemporary patience) where
    -- A send that has failed in passing, and those after it.
    tried_again :
        (fuel : ℕ) (fd : ℤ) (xs : List ℕ) (w : W)
        → (length xs == 0) ≡ false
        → is_nonpos (sys.send fd xs w).0 ≡ true
        → is_retried (sys.errno (sys.send fd xs w).1) ≡ true
        → Sent (send_loop sys fuel fd xs (sys.send fd xs w).1) fd xs (sys.send fd xs w).1
        → Sent (send_loop sys (suc fuel) fd xs w) fd xs w
    unfolding send_loop
    tried_again fuel fd xs w z y r rest =
        let none_sent : to_ℕ (sys.send fd xs w).0 ≡ 0 = nonpos-to_ℕ (sys.send fd xs w).0 y in
        let same : out fd (sys.send fd xs w).1 ≡ out fd w =
          prefix.sent fd xs w ∙ ap (λ n. out fd w ++ take n xs) none_sent ∙ append-nil (out fd w) in
        record {
          value = rest.value;
          world = rest.world;
          done = rw (z, y, r) rest.done;
          taken = rest.taken;
          way = rest.way ∙ ap (λ l. l ++ take rest.taken xs) same;
          complete = rest.complete;
        }

    -- A send that has failed for good.
    failed :
        (fuel : ℕ) (fd : ℤ) (xs : List ℕ) (w : W)
        → (length xs == 0) ≡ false
        → is_nonpos (sys.send fd xs w).0 ≡ true
        → is_retried (sys.errno (sys.send fd xs w).1) ≡ false
        → Sent (send_loop sys (suc fuel) fd xs w) fd xs w
    unfolding send_loop
    failed fuel fd xs w z y r =
        let none_sent : to_ℕ (sys.send fd xs w).0 ≡ 0 = nonpos-to_ℕ (sys.send fd xs w).0 y in
        record {
          value = minus_one;
          world = (sys.send fd xs w).1;
          done = rw (z, y, r) refl;
          taken = 0;
          way = prefix.sent fd xs w ∙ ap (λ n. out fd w ++ take n xs) none_sent;
          complete = inr (refl, ground arith, not_passing (sys.errno (sys.send fd xs w).1) r);
        }

    -- A send that has put bytes on the way, and those after it.
    went_out :
        (fuel : ℕ) (fd : ℤ) (xs : List ℕ) (w : W)
        → (length xs == 0) ≡ false
        → is_nonpos (sys.send fd xs w).0 ≡ false
        → (let (rv, w') = sys.send fd xs w in
            let left = drop (to_ℕ rv) xs in Sent (send_loop sys fuel fd left w') fd left w')
        → Sent (send_loop sys (suc fuel) fd xs w) fd xs w
    unfolding send_loop
    went_out fuel fd xs w z some_sent rest =
        let n = to_ℕ (sys.send fd xs w).0 in
        let size : length (drop n xs) ≡ length xs - n = length-drop n xs in
        let le : n ≤ length xs = prefix.bound fd xs w in
        record {
          value = rest.value;
          world = rest.world;
          done = rw (z, some_sent) rest.done;
          taken = n + rest.taken;
          way =
              rest.way
              ∙ ap (λ l. l ++ take rest.taken (drop n xs)) (prefix.sent fd xs w)
              ∙ append_assoc (out fd w) (take n xs) (take rest.taken (drop n xs))
              ∙ ap (λ l. out fd w ++ l) (take-take-drop n rest.taken xs le);
          complete = elim rest.complete [
            | inl (e, all) ↦ inl (e, omega (arith, all, size, le))
            | inr (e, part, why) ↦ inr (e, omega (arith, part, size, le), why)
          ];
        }

    send_loop_lem :
        (fuel : ℕ) (fd : ℤ) (xs : List ℕ) (w : W)
        → length xs + patience w < fuel
        → Sent (send_loop sys fuel fd xs w) fd xs w
    unfolding send_loop
    send_loop_lem zero fd xs w lt = absurd (omega arith)
    send_loop_lem (suc fuel) fd xs w lt =
        let w' = (sys.send fd xs w).1 in
        let n = to_ℕ (sys.send fd xs w).0 in
        elim (Bool-cases (length xs == 0)) [
          | inl y ↦ record {
            value = pos 0;
            world = w;
            done = rw y refl;
            taken = 0;
            way = sym (append-nil (out fd w));
            complete = inl (refl, ground arith);
          }
          | inr z ↦ elim (Bool-cases (is_nonpos (sys.send fd xs w).0)) [
            | inl y ↦ elim (Bool-cases (is_retried (sys.errno w'))) [
              | inl r ↦
                  let less =
                    temporary.fewer fd xs w (ground (arith, z)) y (passing (sys.errno w') r) in
                  tried_again fuel fd xs w z y r
                    (send_loop_lem fuel fd xs w' (omega (arith, lt, less)))
              | inr r ↦ failed fuel fd xs w z y r
            ]
            | inr some_sent ↦
                let more : 0 < n = positive-to_ℕ (sys.send fd xs w).0 some_sent in
                went_out fuel fd xs w z some_sent (
                  send_loop_lem fuel fd (drop n xs) w' (
                    omega (
                      arith,
                      length-drop n xs,
                      prefix.bound fd xs w,
                      more,
                      lt,
                      temporary.no_more fd xs w,
                    )))
          ]
        ]

    -- Where `send` puts a prefix of what it is given on the way, and fails in passing (`EAGAIN`, `EINTR`,
    -- `ENOBUFS`) no more than `patience` times, `non_block_send` ends within that many rounds and one more
    -- than there are bytes. It returns 0 with all of them on the way, or -1 with a part of them, after a
    -- failure that does not pass.
    pub non_block_send_refines :
        (fuel : ℕ) (fd : ℤ) (buffer : List ℕ) (w : W)
        → length buffer + patience w < fuel
        → Sent (non_block_send sys fuel fd buffer w) fd buffer w
    unfolding non_block_send
    non_block_send_refines fuel fd buffer w lt = send_loop_lem fuel fd buffer w lt
