-- ===== src/Tcp/Acceptor.antt =====
-- httpserver/tcp_server.h, httpserver/tcp_server.cc: the class `TcpServer`, its acceptor and its connections.
use mathlib.Core.Path.{subst}
use cclab.Base.{
  ℕ, suc, ◌+◌, ◌<◌, ◌≤◌, ◌≡◌, ◌≢◌, refl, sym, ◌∙◌, ap, inl, inr, Bool, false, List, [], ◌∷◌, ◌++◌,
  ◌==◌, if◌then◌else◌, Bool-cases, arith,
}
use cclab.Base.Bytes.{Bytes}
use cclab.Base.Pointers.{update}
use cclab.Tcp.Connection.{Connection, Server, create_connection, close}
use cclab.Tcp.Server.{
  handle_accept, Step, step_read, step_read_error, step_write, step_write_error, Steps, stay, go,
}

-- The operations of `async_accept` that wait, each with the number of its connection, the connections
-- by their numbers, how many there are, and the threads that run the service.
pub record TcpServer {ℓ} (σ : Type ℓ) : Type ℓ where
  pub accepts : List ℕ
  pub connections : ℕ → Connection σ
  pub created : ℕ
  pub threads : ℕ

module _ {ℓ} {σ : Type ℓ} (read_arrays write_arrays : ℕ → Bytes) where
  abbrev pub created_connection : ℕ → Connection σ
  created_connection k = create_connection (read_arrays k) (write_arrays k)

  -- `CreateConnection` and `async_accept`
  abbrev pub accept_next : TcpServer σ → TcpServer σ
  accept_next w = record w {
    accepts = w.accepts ++ (w.created ∷ []);
    connections = update w.connections w.created (created_connection w.created);
    created = suc w.created;
  }

  -- The constructor, and `Start`, with its three threads.
  abbrev pub new_server : TcpServer σ
  new_server = record { accepts = []; connections = created_connection; created = 0; threads = 0 }

  unfoldable pub start_server : TcpServer σ → TcpServer σ
  start_server w = let w' = accept_next w in record w' { threads = w'.threads + 3 }

module _ {ℓ} {σ : Type ℓ} (server : Server σ) (read_arrays write_arrays : ℕ → Bytes) where
  -- The socket of an accept that ends with an error is not open.
  abbrev pub after_accept : Bool → Connection σ → Connection σ
  after_accept ec c = if ec then close c else c

  -- `HandleAccept`: whatever the error, the next accept, and the connection is new.
  unfoldable pub handle_accept_of : Bool → ℕ → List ℕ → TcpServer σ → TcpServer σ
  handle_accept_of ec k left w =
      let w' = accept_next read_arrays write_arrays (record w { accepts = left }) in
      record w' {
        connections =
            update w'.connections k (handle_accept server (after_accept ec (w'.connections k)));
      }

  -- The states of a server that has been started: an accept ends, or an operation of a connection does.
  pub data Run : TcpServer σ → Type ℓ where
    started : Run (start_server read_arrays write_arrays (new_server read_arrays write_arrays))
    accept_ends :
        (ec : Bool) (k : ℕ) (left : List ℕ) (w : TcpServer σ)
        → Run w
        → w.accepts ≡ k ∷ left
        → Run (handle_accept_of ec k left w)
    operation_ends :
        (k : ℕ) (ns : List (List ℕ)) (c : Connection σ) (w : TcpServer σ)
        → Run w
        → Step server ns (w.connections k) c
        → Run (record w { connections = update w.connections k c })

  -- One accept waits, that of the newest connection, which nothing has happened to; each of the others
  -- is in a run of its own from `HandleAccept` on.
  pub record IsServing (w : TcpServer σ) : Type ℓ where
    pub newest : ℕ
    pub one : w.accepts ≡ newest ∷ []
    pub created : w.created ≡ suc newest
    pub untouched :
        (k : ℕ) → newest ≤ k → w.connections k ≡ created_connection read_arrays write_arrays k
    pub served :
        (k : ℕ)
        → k < newest
        → (ec : Bool) × (ms : List (List ℕ)) × Steps server ms
            (handle_accept server (after_accept ec (created_connection read_arrays write_arrays k)))
            (w.connections k)
    pub threads : w.threads ≡ 3

  waits_for_none :
      (ns : List (List ℕ)) (c c' : Connection σ)
      → c.reads ≡ 0
      → c.writes ≡ []
      → Step server ns c c'
      → ⊥
  waits_for_none _ c c' r w (step_read msg left _ _ e _ _ _) = omega (arith, r, e)
  waits_for_none _ c c' r w (step_read_error left _ _ e _) = omega (arith, r, e)
  waits_for_none _ c c' r w (step_write n size left _ _ e _ _) = cc (w, e)
  waits_for_none _ c c' r w (step_write_error n left _ _ e _) = cc (w, e)

  -- The connection's own run goes on.
  went_on :
      (k : ℕ) (ns : List (List ℕ)) (c : Connection σ) (w : TcpServer σ) (s : IsServing w)
      → Step server ns (w.connections k) c
      → IsServing (record w { connections = update w.connections k c })
  went_on k ns c w s t =
      let blank : (j : ℕ) → s.newest ≤ j → j ≢ k = λ j le e.
        let u : w.connections k ≡ created_connection read_arrays write_arrays k =
          s.untouched k (omega (arith, le, e)) in
        waits_for_none ns (w.connections k) c (ap Connection.reads u) (ap Connection.writes u) t in
      record {
        newest = s.newest;
        one = s.one;
        created = s.created;
        untouched = λ j le.
            let e : (j == k) ≡ false = ground (arith, blank j le) in rw e (s.untouched j le);
        served = λ j lt. elim (Bool-cases (j == k)) [
          | inl y ↦
              let e : k ≡ j = ground arith in
              let (ec, ms, run) = s.served j lt in
              let t' : Step server ns (w.connections j) c =
                subst (λ i. Step server ns (w.connections i) c) e t in
              (
                ec,
                ms ++ ns,
                rw y (
                    go ms ns
                      (handle_accept server
                        (after_accept ec (created_connection read_arrays write_arrays j)))
                      (w.connections j) c run t'),
              )
          | inr z ↦ rw z (s.served j lt)
        ];
        threads = s.threads;
      }

  accepted_next :
      (ec : Bool) (k : ℕ) (left : List ℕ) (w : TcpServer σ)
      → IsServing w
      → w.accepts ≡ k ∷ left
      → IsServing (handle_accept_of ec k left w)
  unfolding handle_accept_of
  accepted_next ec k left w s e =
      let at : k ≡ s.newest = cc (e, s.one) in
      let no_more : left ≡ [] = cc (e, s.one) in
      let count : w.created ≡ suc s.newest = s.created in
      let old : (k == w.created) ≡ false = ground (arith, at, count) in
      let blank : w.connections k ≡ created_connection read_arrays write_arrays k =
        s.untouched k (omega (arith, at)) in
      record {
        newest = w.created;
        one = ap (λ l. l ++ (w.created ∷ [])) no_more;
        created = refl;
        untouched = λ j le.
            let f : (j == k) ≡ false = ground (arith, le, at, count) in
            elim (Bool-cases (j == w.created)) [
              | inl y ↦
                  let g : w.created ≡ j = ground arith in
                  rw (f, y) (ap (created_connection read_arrays write_arrays) g)
              | inr z ↦ rw (f, z) (s.untouched j (omega (arith, le, count)))
            ];
        served = λ j lt. elim (Bool-cases (j == k)) [
          | inl y ↦
              let g : k ≡ j = ground arith in
              (
                ec,
                [],
                rw (y, old)
                    (subst
                      (λ c.
                        Steps server []
                          (handle_accept server
                            (after_accept ec (created_connection read_arrays write_arrays j)))
                          (handle_accept server (after_accept ec c)))
                      (ap (created_connection read_arrays write_arrays) (sym g) ∙ sym blank)
                      (stay (
                        handle_accept server
                          (after_accept ec (created_connection read_arrays write_arrays j))))),
              )
          | inr z ↦
              let f : (j == w.created) ≡ false = ground (arith, lt) in
              let older : j < s.newest = ground (arith, z, at, lt, count) in
              rw (z, f) (s.served j older)
        ];
        threads = s.threads;
      }

  -- In every state of a server that has been started, exactly one accept waits, that of the newest connection,
  -- which nothing has happened to; each of the others is in a run of its own from `HandleAccept` on,
  -- whatever the accept's error was; and three threads run the service.
  pub Run-IsServing : (w : TcpServer σ) → Run w → IsServing w
  unfolding start_server
  Run-IsServing _ started = record {
    newest = 0;
    one = refl;
    created = refl;
    untouched = λ k le. elim (Bool-cases (k == 0)) [
      | inl y ↦
          let e : 0 ≡ k = ground arith in rw y (ap (created_connection read_arrays write_arrays) e)
      | inr z ↦ rw z refl
    ];
    served = λ k lt. absurd (omega (arith, lt));
    threads = refl;
  }
  Run-IsServing _ (accept_ends ec k left w r e) = accepted_next ec k left w (Run-IsServing w r) e
  Run-IsServing _ (operation_ends k ns c w r t) = went_on k ns c w (Run-IsServing w r) t
