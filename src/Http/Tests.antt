-- ===== src/Http/Tests.antt =====
-- httpserver/http_server.cc: the theorems at small requests, and the code run on small inputs.
use cclab.Base.{
  suc, ℕ, ◌≡◌, refl, Bool, false, ◌==◌, if◌then◌else◌, some, List, [], ◌∷◌, ◌++◌, length, arith,
}
use cclab.Iobuf.Heap.{Heap}
use cclab.Iobuf.Blocks.{Iobuf, empty}
use cclab.Iobuf.Valid.{IsValid}
use cclab.Tcp.Connection.{Connection, create_connection}
use cclab.Tcp.Server.{http_server, handle_accept, step_read, Steps, stay, go}
use cclab.Http.Answer.{
  url, message_complete, Parser, reply_404, HttpContext, new_http_context, parse_message,
}
use cclab.Http.Serve.{Served, received_refines}
use cclab.Http.Exchange.{answered, http_server-Silent}
use cclab.Http.Strings.{find, insert}
use cclab.Http.Context.{Context, question, header_field_cb, header_value_cb, request_url_cb}
use cclab.Http.Url.{query_text, url_round_trip, request_url-keeps_old}
use cclab.Http.Headers.{header_fields, header_refines, host-strips_scheme, scheme}
use cclab.Http.Parse.{parse, parse_all, Parsed, parse_refines, parse_all_refines}

abbrev new_context : Context
new_context = record {
  http_method = 0;
  request_url = [];
  path = [];
  content_length = 0;
  query_params = [];
  request_headers = [];
  tmp_header_key = [];
  events = [];
}

-- `/a?k=v&x=`
url_round_trip_example :
    let text = query_text (((107 ∷ []), (118 ∷ [])) ∷ ((120 ∷ []), []) ∷ []) in
    request_url_cb ((47 ∷ 97 ∷ []) ++ (question ∷ text)) new_context ≡ record new_context {
      request_url = (47 ∷ 97 ∷ []) ++ (question ∷ text);
      path = 47 ∷ 97 ∷ [];
      query_params = ((107 ∷ []), (118 ∷ [])) ∷ ((120 ∷ []), []) ∷ [];
    }
url_round_trip_example =
    url_round_trip (47 ∷ 97 ∷ []) (107 ∷ []) (118 ∷ []) (((120 ∷ []), []) ∷ []) new_context refl
      (refl, refl, refl, refl, (refl, refl, refl, refl, tt))

abbrev second_request : Context
second_request = record new_context { query_params = ((107 ∷ []), (49 ∷ [])) ∷ [] }

-- The second request of a connection asks for `/?k=2`, and `k` stays `1`.
old_parameter_stays :
    find (107 ∷ []) (request_url_cb (47 ∷ 63 ∷ 107 ∷ 61 ∷ 50 ∷ []) second_request).query_params
    ≡ some (49 ∷ [])
old_parameter_stays =
    request_url-keeps_old (47 ∷ 63 ∷ 107 ∷ 61 ∷ 50 ∷ []) (107 ∷ []) (49 ∷ []) second_request refl

abbrev one_header : Context
one_header = header_value_cb (118 ∷ []) (header_fields ((75 ∷ []) ∷ (69 ∷ []) ∷ []) new_context)

header_refines_example :
    (find (107 ∷ 101 ∷ []) one_header.request_headers ≡ some (118 ∷ []))
    × (one_header.request_headers ≡ insert (107 ∷ 101 ∷ []) (118 ∷ []) [])
    × (one_header.tmp_header_key ≡ [])
    × (one_header.query_params ≡ [])
header_refines_example = header_refines ((75 ∷ []) ∷ (69 ∷ []) ∷ []) (118 ∷ []) new_context refl

abbrev at_host : Context
at_host = record new_context {
  path = scheme ++ (98 ∷ 47 ∷ 99 ∷ []);
  tmp_header_key = 72 ∷ 111 ∷ 115 ∷ 116 ∷ [];
}

at_host_path : (header_value_cb (98 ∷ []) at_host).path ≡ 47 ∷ 99 ∷ []
at_host_path = host-strips_scheme (98 ∷ []) 47 (99 ∷ []) at_host refl refl

-- A path that is no absolute URL loses its first bytes too, if it holds the host's name.
abbrev relative : Context
relative = record at_host { path = 47 ∷ 98 ∷ 47 ∷ 49 ∷ 50 ∷ 51 ∷ 52 ∷ 53 ∷ 54 ∷ 55 ∷ [] }

relative_cut : (header_value_cb (98 ∷ []) relative).path ≡ 54 ∷ 55 ∷ []
unfolding header_value_cb
relative_cut = refl

-- A value in two pieces: the second is stored under the empty name.
pieces_of_value :
    (header_value_cb
      (50 ∷ [])
      (header_value_cb (49 ∷ []) (header_field_cb (107 ∷ []) new_context))).request_headers
    ≡ ((107 ∷ []), (49 ∷ [])) ∷ ([], (50 ∷ [])) ∷ []
unfolding header_value_cb header_field_cb
pieces_of_value = refl

-- A parser that keeps what it reads.
abbrev keep : List ℕ → List ℕ → List ℕ × ℕ
keep msg s = (s ++ msg, length msg)

abbrev no_blocks : Heap
no_blocks = record {
  live = λ p. false;
  buffer = λ p. 0;
  start = λ p. 0;
  len = λ p. 0;
  cap = λ p. 0;
  next = λ p. 0;
  prev = λ p. 0;
  content = λ b i. 0;
  refs = λ b. 0;
  held = λ b. false;
  top = 1;
}

no_blocks-IsValid : IsValid empty no_blocks []
no_blocks-IsValid = record {
  ring = refl;
  distinct = tt;
  not_null = refl;
  blocks = λ p m. cc;
  own = λ p q i j. cc;
  counted = refl;
  small = omega arith;
  positive = omega arith;
}

one_message :
    Parsed (parse keep 3 (7 ∷ 8 ∷ []) 2 [] empty no_blocks) (keep (7 ∷ 8 ∷ []) []) (7 ∷ 8 ∷ [])
one_message =
    parse_refines keep 3 (7 ∷ 8 ∷ []) [] empty no_blocks [] no_blocks-IsValid (omega arith)
      (omega arith) (omega arith)

parse_all_refines_example :
    (io' : Iobuf) × (h' : Heap) × (parse_all keep 2
        ((7 ∷ 8 ∷ []) ∷ (9 ∷ []) ∷ [])
        []
        empty
        no_blocks
      ≡ some (7 ∷ 8 ∷ 9 ∷ [], (io', h')))
    × IsValid io' h' []
parse_all_refines_example =
    parse_all_refines keep 2 ((7 ∷ 8 ∷ []) ∷ (9 ∷ []) ∷ []) [] empty no_blocks no_blocks-IsValid
      (omega arith, omega arith, (omega arith, omega arith, tt)) (refl, (refl, tt)) (omega arith)

-- A parser that keeps what it reads, completes a request with a message that ends in a line feed, and parses
-- no NUL.
abbrev ends_line : List ℕ → Bool
ends_line [] = false
ends_line (c ∷ []) = c == 10
ends_line (c ∷ d ∷ cs) = ends_line (d ∷ cs)

abbrev before_nul : List ℕ → ℕ
before_nul [] = 0
before_nul (c ∷ cs) = let rest = suc (before_nul cs) in if c == 0 then 0 else rest

abbrev lines : Parser (List ℕ)
lines = record {
  init = λ p. [];
  execute = λ init msg p.
      (p ++ msg, (if ends_line msg then url msg ∷ message_complete ∷ [] else []), before_nul msg);
}

abbrev new_http : HttpContext (List ℕ)
new_http = new_http_context lines [] 0 0 no_blocks

abbrev new_connection : Connection (HttpContext (List ℕ))
new_connection = create_connection (λ i. 0) (λ i. 0)

received_refines_example :
    Served lines new_http 2
      (47 ∷ 0 ∷ 10 ∷ [])
      0
      (handle_accept (http_server new_http (parse_message lines 2)) new_connection)
      new_http
      []
received_refines_example =
    received_refines lines new_http 2 (47 ∷ 0 ∷ 10 ∷ []) 0
      (handle_accept (http_server new_http (parse_message lines 2)) new_connection) new_http [] refl
      no_blocks-IsValid (omega arith) (omega arith) (omega arith)

answered_example :
    (c' : Connection (HttpContext (List ℕ))) × Steps
      (http_server new_http (parse_message lines 2))
      ((47 ∷ 10 ∷ []) ∷ [])
      (handle_accept (http_server new_http (parse_message lines 2)) new_connection)
      c'
    × (c'.wire ≡ reply_404)
answered_example =
    answered lines new_http 0 (47 ∷ 10 ∷ []) new_connection no_blocks-IsValid refl refl refl
      (omega arith) (omega arith) refl

-- The first half of a request
half :
    Served lines new_http 2
      (47 ∷ [])
      0
      (handle_accept (http_server new_http (parse_message lines 2)) new_connection)
      new_http
      []
half =
    received_refines lines new_http 2 (47 ∷ []) 0
      (handle_accept (http_server new_http (parse_message lines 2)) new_connection) new_http [] refl
      no_blocks-IsValid (omega arith) (omega arith) (omega arith)

half_read :
    Steps
      (http_server new_http (parse_message lines 2))
      ((47 ∷ []) ∷ [])
      (handle_accept (http_server new_http (parse_message lines 2)) new_connection)
      half.after
half_read =
    let c = handle_accept (http_server new_http (parse_message lines 2)) new_connection in
    go [] ((47 ∷ []) ∷ []) c c half.after (stay c)
      (step_read (47 ∷ []) 0 c half.after refl (omega arith) (omega arith) half.done)

http_server-Silent_example : half.after.wire ≡ []
http_server-Silent_example =
    http_server-Silent lines new_http 0 no_blocks-IsValid ((47 ∷ []) ∷ []) new_connection half.after
      refl refl refl half_read (refl, tt)
