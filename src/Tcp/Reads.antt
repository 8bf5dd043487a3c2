-- ===== src/Tcp/Reads.antt =====
-- httpserver/http_server.cc: how often a connection of `HttpServer` is read.
use cclab.Base.{
  ℕ, ◌+◌, ◌≤◌, ◌≡◌, refl, sym, ◌∙◌, ap, false, Option, none, some, List, [], ◌∷◌, ◌++◌, leb, length,
  length-append, arith, Bool-cases, inl, inr,
}
use cclab.Base.Bytes.{copy_in, copy_out}
use cclab.Iobuf.Ops.{and_then}
use cclab.Tcp.Connection.{Connection, max_msg, set_context, async_write, on_read, on_write}
use cclab.Tcp.Server.{
  http_server, write_all, received, with_context, handle_accept, Step, step_read, step_read_error,
  step_write, step_write_error, Steps, stay, go,
}

-- The connection, if there is one, waits for `n` reads.
abbrev pub HasReads {ℓ} : {σ : Type ℓ} → ℕ → Option (Connection σ) → Type 0
HasReads n none = Unit
HasReads n (some c) = c.reads ≡ n

module _ {ℓ} {σ : Type ℓ} where
  HasReads-and_then :
      (n : ℕ) (o : Option (Connection σ)) (f : Connection σ → Option (Connection σ))
      → HasReads n o
      → ((c : Connection σ) → c.reads ≡ n → HasReads n (f c))
      → HasReads n (and_then o f)
  HasReads-and_then n none f h g = tt
  HasReads-and_then n (some c) f h g = g c h

  HasReads-some :
      (n : ℕ) (o : Option (Connection σ)) (c : Connection σ)
      → HasReads n o
      → o ≡ some c
      → c.reads ≡ n
  HasReads-some n none c h e = cc
  HasReads-some n (some d) c h e = ap (HasReads-reads d) (sym e) ∙ h
    where
      HasReads-reads : Connection σ → Option (Connection σ) → ℕ
      HasReads-reads d none = d.reads
      HasReads-reads d (some c) = c.reads

  async_write-HasReads :
      (msg : List ℕ) (c : Connection σ) (n : ℕ) → c.reads ≡ n → HasReads n (async_write msg c)
  unfolding async_write
  async_write-HasReads msg c n e = elim (Bool-cases (leb (length msg) max_msg)) [
    | inl y ↦ rw y e
    | inr z ↦ rw z tt
  ]

  -- Writes start no read.
  write_all-HasReads :
      (msgs : List (List ℕ)) (c : Connection σ) (n : ℕ)
      → c.reads ≡ n
      → HasReads n (write_all msgs c)
  write_all-HasReads [] c n e = e
  write_all-HasReads (msg ∷ msgs) c n e =
      HasReads-and_then n (async_write msg c) (write_all msgs) (async_write-HasReads msg c n e)
        λ d f. write_all-HasReads msgs d n f

  module _ (start : σ) (parse : List ℕ → ℕ → σ → Option (σ × List (List ℕ))) where
    parsed-HasReads :
        (o : Option (σ × List (List ℕ))) (c : Connection σ) (n : ℕ)
        → c.reads ≡ n
        → HasReads n (and_then o (λ (s', replies). write_all replies (set_context s' c)))
    parsed-HasReads none c n e = tt
    parsed-HasReads (some (s', replies)) c n e = write_all-HasReads replies (set_context s' c) n e

    with_context-HasReads :
        (msg : List ℕ) (size : ℕ) (o : Option σ) (c : Connection σ) (n : ℕ)
        → c.reads ≡ n
        → HasReads n (with_context parse msg size o c)
    with_context-HasReads msg size none c n e = tt
    with_context-HasReads msg size (some s) c n e = parsed-HasReads (parse msg size s) c n e

    -- A read that ends is followed by none.
    step_lem :
        (ns : List (List ℕ)) (c c' : Connection σ)
        → Step (http_server start parse) ns c c'
        → length ns + c'.reads ≤ c.reads
    unfolding on_read on_write
    step_lem _ c c' (step_read msg left _ _ e some_bytes le run) =
        let d = record c { reads = left; read_buffer = copy_in c.read_buffer 0 msg } in
        let h =
          with_context-HasReads (copy_out d.read_buffer 0 (length msg)) (length msg) c.context d
            left refl in
        omega
          (arith, e, HasReads-some left (received (http_server start parse) msg left c) c' h run)
    step_lem _ c c' (step_read_error left _ _ e run) =
        let d = record c { reads = left; is_open = false } in
        omega (arith, e, HasReads-some left (some d) c' refl run)
    step_lem _ c c' (step_write n size left _ _ e le run) =
        let d = record c { writes = left; wire = c.wire ++ copy_out c.write_buffer 0 size } in
        omega (arith, HasReads-some c.reads (some d) c' refl run)
    step_lem _ c c' (step_write_error n left _ _ e run) =
        let d = record c { writes = left; is_open = false } in
        omega (arith, HasReads-some c.reads (some d) c' refl run)

    pub steps_lem :
        (ms : List (List ℕ)) (c c' : Connection σ)
        → Steps (http_server start parse) ms c c'
        → length ms + c'.reads ≤ c.reads
    steps_lem _ c _ (stay _) = omega arith
    steps_lem _ c e (go ms ns _ d _ s t) =
        omega (arith, length-append ms ns, steps_lem ms c d s, step_lem ns d e t)

    -- In every run of a connection that `HttpServer` accepts, with no read waiting before, at most one message
    -- is read.
    pub http_server-ReadsOnce :
        (c : Connection σ) (c' : Connection σ) (ms : List (List ℕ))
        → c.reads ≡ 0
        → Steps (http_server start parse) ms (handle_accept (http_server start parse) c) c'
        → length ms ≤ 1
    http_server-ReadsOnce c c' ms e s =
        omega (arith, steps_lem ms (handle_accept (http_server start parse) c) c' s)
