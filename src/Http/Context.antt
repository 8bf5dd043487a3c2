-- ===== src/Http/Context.antt =====
-- httpserver/http_server.h, httpserver/http_server.cc: the class `HttpContext` and the callbacks that it
-- gives to the parser.
use cclab.Base.{ℕ, ◌+◌, ◌&&◌, List, [], ◌∷◌, ◌++◌, ◌==◌, if◌then◌else◌, ltb, length, take, drop}
use cclab.Http.Strings.{Str, Map, index_of, is_same, lower, contains, insert}

-- What the callbacks read of the parser
pub record Request : Type 0 where
  pub verb : ℕ
  pub size : ℕ

-- The calls of `OnRequest`, `OnBody` and `OnComplete`, which a derived class overrides.
pub data Event : Type 0 where
  on_request on_complete : Event
  on_body : Str → Event

pub record Context : Type 0 where
  pub http_method : ℕ
  pub request_url : Str
  pub path : Str
  pub content_length : ℕ
  pub query_params : Map
  pub request_headers : Map
  pub tmp_header_key : Str
  pub events : List Event

abbrev pub message_begin_cb : Request → Context → Context
message_begin_cb parser ctx = record ctx { http_method = parser.verb }

unfoldable pub header_field_cb : Str → Context → Context
header_field_cb at ctx = record ctx { tmp_header_key = ctx.tmp_header_key ++ at }

-- "host"
abbrev pub host : Str
host = 104 ∷ 111 ∷ 115 ∷ 116 ∷ []

-- What a `Host` header does to the path: "http://" and the host go.
abbrev pub strip_host : Str → Str → Str
strip_host v path =
    let path_pos = 7 + length v in
    if contains v path && ltb path_pos (length path) then drop path_pos path else path

unfoldable pub header_value_cb : Str → Context → Context
header_value_cb v ctx =
    let k = lower ctx.tmp_header_key in
    record ctx {
      path = if is_same k host then strip_host v ctx.path else ctx.path;
      request_headers = insert k v ctx.request_headers;
      tmp_header_key = [];
    }

-- `?`, `&` and `=`
abbrev pub question : ℕ
question = 63

abbrev pub ampersand : ℕ
ampersand = 38

abbrev pub equals : ℕ
equals = 61

-- `elems.push_back` of an item that is not empty
abbrev pub push : Str → List Str → List Str
push [] elems = elems
push (c ∷ cs) elems = (c ∷ cs) ∷ elems

-- `std::getline` up to each `&`, with the item that is being read
abbrev pub items : Str → Str → List Str
items item [] = push item []
items item (c ∷ cs) =
    let here = push item (items [] cs) in
    let rest = items (item ++ (c ∷ [])) cs in if c == ampersand then here else rest

-- The name and the value of an item
abbrev pub key_value : Str → Str × Str
key_value e =
    let pos = index_of equals e in
    if pos == length e then (e, []) else (take pos e, drop (pos + 1) e)

abbrev pub insert_all : List Str → Map → Map
insert_all [] m = m
insert_all (e ∷ elems) m = let (k, v) = key_value e in insert_all elems (insert k v m)

unfoldable pub request_url_cb : Str → Context → Context
request_url_cb at ctx =
    let i = index_of question at in
    record ctx {
      request_url = at;
      path = take i at;
      query_params =
          if ltb i (length at)
          then insert_all (items [] (drop (i + 1) at)) ctx.query_params
          else ctx.query_params;
    }

abbrev pub headers_complete_cb : Request → Context → Context
headers_complete_cb parser ctx = record ctx {
  content_length = parser.size;
  events = ctx.events ++ (on_request ∷ []);
}

abbrev pub body_cb : Str → Context → Context
body_cb at ctx = record ctx { events = ctx.events ++ (on_body at ∷ []) }

-- `http_parser_init`, the call on the parser, is an argument of the parser's run.
abbrev pub message_complete_cb : Context → Context
message_complete_cb ctx = record ctx { events = ctx.events ++ (on_complete ∷ []) }
