-- ===== src/Http/Exchange.antt =====
-- httpserver/http_server.cc, httpserver/tcp_server.cc: a connection of `HttpServer` with its context, its
-- buffer and the parser.
use mathlib.Core.Path.{subst}
use cclab.Base.{
  ℕ, suc, ◌<◌, ◌≤◌, ◌≡◌, refl, sym, ◌∙◌, ap, ◌⊎◌, inl, inr, some, List, [], ◌∷◌, ◌++◌, length,
  arith,
}
use cclab.Base.Bytes.{copy_out, copy_out-copy_in}
use cclab.Iobuf.Valid.{IsValid}
use cclab.Http.Answer.{Parser, reply_404, answers, HttpContext, parse_message}
use cclab.Tcp.Connection.{Connection, max_msg, on_read, on_write}
use cclab.Tcp.Server.{
  http_server, received, handle_accept, Step, step_read, step_read_error, step_write,
  step_write_error, Steps, stay, go,
}
use cclab.Http.Serve.{calls_of, first_received}
use cclab.Tcp.Reads.{steps_lem}
use cclab.Tcp.Waiting.{written_over}

some_inj {ℓ} : {A : Type ℓ} {a b : A} → some a ≡ some b → a ≡ b
some_inj e = cc

module _ {ℓ} {P : Type ℓ} (parser : Parser P) where
  -- A request that one read brings whole is answered: with a parser that completes one request in a
  -- message, not empty and of at most 4096 bytes, there is a run of a new connection, whose context
  -- has a valid buffer without blocks, in which the answer goes out.
  pub answered :
      (start : HttpContext P) (fuel : ℕ) (msg : List ℕ) (c : Connection (HttpContext P))
      → IsValid start.input_buffer start.heap []
      → c.reads ≡ 0
      → c.writes ≡ []
      → c.wire ≡ []
      → 0 < length msg
      → length msg ≤ 4096
      → answers (calls_of parser msg start.http_parser) ≡ reply_404 ∷ []
      → let server = http_server start (parse_message parser (suc (suc fuel))) in
        (c' : Connection (HttpContext P)) × Steps server (msg ∷ []) (handle_accept server c) c'
        × (c'.wire ≡ reply_404)
  unfolding on_write
  answered start fuel msg c v none_waits no_writes nothing some_bytes short one =
      let server = http_server start (parse_message parser (suc (suc fuel))) in
      let d = handle_accept server c in
      let x = first_received parser start fuel msg 0 d refl v short in
      let waiting : x.after.writes ≡ length reply_404 ∷ [] = x.writes ∙ rw (no_writes, one) refl in
      let e = record (x.after) {
        writes = [];
        wire = x.after.wire ++ copy_out x.after.write_buffer 0 (length reply_404);
      } in
      let reply : copy_out x.after.write_buffer 0 (length reply_404) ≡ reply_404 =
        ap (λ b. copy_out b 0 (length reply_404))
          (x.write_buffer ∙ ap (written_over c.write_buffer) one)
        ∙ copy_out-copy_in c.write_buffer 0 reply_404 in
      (
        e,
        go (msg ∷ []) [] d x.after e
            (go [] (msg ∷ []) d d x.after (stay d)
              (step_read msg 0 d x.after (omega (arith, none_waits)) some_bytes short x.done))
            (step_write (length reply_404) (length reply_404) [] x.after e waiting (omega arith)
              refl),
        ap (λ l. l ++ copy_out x.after.write_buffer 0 (length reply_404)) (x.wire ∙ nothing)
            ∙ reply,
      )

  -- Messages in each of which the parser, at the start, completes no request.
  abbrev pub AreIncomplete : HttpContext P → List (List ℕ) → Type 0
  AreIncomplete start [] = Unit
  AreIncomplete start (msg ∷ msgs) =
      (answers (calls_of parser msg start.http_parser) ≡ []) × AreIncomplete start msgs

  -- Nothing is written, and the context is new as long as a read waits.
  record IsSilent (start : HttpContext P) (c : Connection (HttpContext P)) : Type ℓ where
    writes : c.writes ≡ []
    wire : c.wire ≡ []
    new : (c.reads ≡ 0) ⊎ (c.context ≡ some start)

  AreIncomplete-append :
      (start : HttpContext P) (ms ns : List (List ℕ))
      → AreIncomplete start (ms ++ ns)
      → AreIncomplete start ms × AreIncomplete start ns
  AreIncomplete-append start [] ns q = (tt, q)
  AreIncomplete-append start (m ∷ ms) ns (e, q) =
      let (a, b) = AreIncomplete-append start ms ns q in ((e, a), b)

  module _ (start : HttpContext P) (fuel : ℕ) (v : IsValid start.input_buffer start.heap []) where
    IsSilent-read :
        (msg : List ℕ) (left : ℕ) (c c' : Connection (HttpContext P))
        → c.context ≡ some start
        → c.reads ≡ suc left
        → 0 < length msg
        → length msg ≤ max_msg
        → answers (calls_of parser msg start.http_parser) ≡ []
        → received (http_server start (parse_message parser (suc (suc fuel)))) msg left c ≡ some c'
        → IsSilent start c
        → c.reads ≤ 1
        → IsSilent start c'
    IsSilent-read msg left c c' e r some_bytes le q run s few =
        let x = first_received parser start fuel msg left c e v le in
        let same : x.after ≡ c' = some_inj (sym x.done ∙ run) in
        subst (IsSilent start) same (record {
          writes = x.writes ∙ rw (s.writes, q) refl;
          wire = x.wire ∙ s.wire;
          new = inl (x.reads ∙ omega (arith, few, r));
        })

    IsSilent-Step :
        (ns : List (List ℕ)) (c c' : Connection (HttpContext P))
        → Step (http_server start (parse_message parser (suc (suc fuel)))) ns c c'
        → AreIncomplete start ns
        → IsSilent start c
        → c.reads ≤ 1
        → IsSilent start c'
    unfolding on_read on_write
    IsSilent-Step _ c c' (step_read msg left _ _ e some_bytes le run) (q, _) s few = elim s.new [
      | inl none_waits ↦ absurd (omega (arith, none_waits, e))
      | inr new ↦ IsSilent-read msg left c c' new e some_bytes le q run s few
    ]
    IsSilent-Step _ c c' (step_read_error left _ _ e run) q s few =
        subst (IsSilent start) (some_inj run)
          (record { writes = s.writes; wire = s.wire; new = inl (omega (arith, few, e)) })
    IsSilent-Step _ c c' (step_write n size left _ _ e le run) q s few = cc
    IsSilent-Step _ c c' (step_write_error n left _ _ e run) q s few = cc

    IsSilent-Steps :
        (ms : List (List ℕ)) (c c' : Connection (HttpContext P))
        → Steps (http_server start (parse_message parser (suc (suc fuel)))) ms c c'
        → AreIncomplete start ms
        → IsSilent start c
        → c.reads ≤ 1
        → IsSilent start c'
    IsSilent-Steps _ c _ (stay _) q s few = s
    IsSilent-Steps _ c e (go ms ns _ d _ t u) q s few =
        let (a, b) = AreIncomplete-append start ms ns q in
        IsSilent-Step ns d e u b (IsSilent-Steps ms c d t a s few)
          (omega (arith, few, steps_lem start (parse_message parser (suc (suc fuel))) ms c d t))

    -- A request that the first read does not complete is never answered: in no run of a new
    -- connection, whose context has a valid buffer without blocks, in which no message that is read
    -- completes a request in the parser's first state, does anything go out.
    pub http_server-Silent :
        (ms : List (List ℕ)) (c c' : Connection (HttpContext P))
        → c.reads ≡ 0
        → c.writes ≡ []
        → c.wire ≡ []
        → let server = http_server start (parse_message parser (suc (suc fuel))) in
          Steps server ms (handle_accept server c) c' → AreIncomplete start ms → c'.wire ≡ []
    http_server-Silent ms c c' none_waits no_writes nothing t q =
        let server = http_server start (parse_message parser (suc (suc fuel))) in
        let s =
          IsSilent-Steps ms (handle_accept server c) c' t q
            (record { writes = no_writes; wire = nothing; new = inr refl })
            (omega (arith, none_waits)) in
        s.wire
