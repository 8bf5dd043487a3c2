-- ===== src/Http/Answer.antt =====
-- httpserver/http_server.h, httpserver/http_server.cc: the callbacks as calls of the parser within `Parse`,
-- the class `HttpContext` as a whole, and what `OnComplete` writes.
use cclab.Base.{ℕ, Option, some, List, [], ◌∷◌, ◌++◌}
use cclab.Iobuf.Heap.{Heap}
use cclab.Iobuf.Blocks.{Iobuf, State, empty}
use cclab.Iobuf.Ops.{and_then}
use cclab.Http.Strings.{Str}
use cclab.Http.Context.{
  Request, Context, message_begin_cb, header_field_cb, header_value_cb, request_url_cb,
  headers_complete_cb, body_cb, message_complete_cb,
}
use cclab.Http.Parse.{parse}

-- A call of the parser, with what it hands over.
pub data Call : Type 0 where
  message_begin headers_complete : Request → Call
  url status header_field header_value body : Str → Call
  message_complete : Call

-- The parser. `execute` is given what `on_message_complete` does to it, and gives the calls that it makes
-- while it reads, in their order, and how many bytes it has parsed.
pub record Parser {ℓ} (P : Type ℓ) : Type ℓ where
  pub init : P → P
  pub execute : (P → P) → List ℕ → P → P × List Call × ℕ

-- "HTTP/1.1 404 OK\r\nContent-Length: 0\r\n\r\n"
abbrev pub reply_404 : Str
reply_404 =
    72 ∷ 84 ∷ 84 ∷ 80 ∷ 47 ∷ 49 ∷ 46 ∷ 49 ∷ 32 ∷ 52 ∷ 48 ∷ 52 ∷ 32 ∷ 79 ∷ 75 ∷ 13 ∷ 10 ∷ 67 ∷ 111
    ∷ 110 ∷ 116 ∷ 101 ∷ 110 ∷ 116 ∷ 45 ∷ 76 ∷ 101 ∷ 110 ∷ 103 ∷ 116 ∷ 104 ∷ 58 ∷ 32 ∷ 48 ∷ 13 ∷ 10
    ∷ 13 ∷ 10 ∷ []

-- The table of callbacks that the constructor fills in.
abbrev pub callback : Call → Context → Context
callback (message_begin parser) ctx = message_begin_cb parser ctx
callback (url at) ctx = request_url_cb at ctx
callback (status at) ctx = ctx
callback (header_field at) ctx = header_field_cb at ctx
callback (header_value at) ctx = header_value_cb at ctx
callback (headers_complete parser) ctx = headers_complete_cb parser ctx
callback (body at) ctx = body_cb at ctx
callback message_complete ctx = message_complete_cb ctx

-- `OnComplete` writes its answer; no other callback writes.
abbrev pub on_complete_write : Call → List Str
on_complete_write message_complete = reply_404 ∷ []
on_complete_write _ = []

abbrev pub call_all : List Call → Context → Context
call_all [] ctx = ctx
call_all (call ∷ calls) ctx = call_all calls (callback call ctx)

abbrev pub answers : List Call → List Str
answers [] = []
answers (call ∷ calls) = on_complete_write call ++ answers calls

pub record HttpContext {ℓ} (P : Type ℓ) : Type ℓ where
  pub http_parser : P
  pub fields : Context
  pub input_buffer : Iobuf
  pub heap : Heap

module _ {ℓ} {P : Type ℓ} (parser : Parser P) where
  -- The constructor; `http_method_` and `content_length_` are not set.
  abbrev pub new_http_context : P → ℕ → ℕ → Heap → HttpContext P
  new_http_context p http_method content_length heap = record {
    http_parser = parser.init p;
    fields = record {
      http_method = http_method;
      request_url = [];
      path = [];
      content_length = content_length;
      query_params = [];
      request_headers = [];
      tmp_header_key = [];
      events = [];
    };
    input_buffer = empty;
    heap = heap;
  }

  -- `http_parser_execute` with the callbacks, and what they have written.
  abbrev pub execute_calls : List ℕ → P × Context × List Str → (P × Context × List Str) × ℕ
  execute_calls msg (p, ctx, out) =
      let (p', calls, n) = parser.execute parser.init msg p in
      ((p', call_all calls ctx, out ++ answers calls), n)

  abbrev pub with_answers : (P × Context × List Str) × State → HttpContext P × List Str
  with_answers ((p, ctx, out), (io, h)) =
      (record { http_parser = p; fields = ctx; input_buffer = io; heap = h }, out)

  -- `Parse`, with what it has the connection write.
  unfoldable pub parse_message : ℕ → List ℕ → ℕ → HttpContext P → Option (HttpContext P × List Str)
  parse_message fuel msg size s =
      and_then
        (parse execute_calls fuel msg size (s.http_parser, s.fields, []) s.input_buffer s.heap)
        (λ t. some (with_answers t))
