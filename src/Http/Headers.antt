-- ===== src/Http/Headers.antt =====
-- httpserver/http_server.cc: what `header_field_cb` and `header_value_cb` make of a header.
use cclab.Base.{
  ℕ, suc, ◌+◌, ◌-◌, ◌≡◌, refl, sym, ◌∙◌, ap, true, Option, none, some, List, [], ◌∷◌, ◌++◌, ltb,
  length, length-append, append_assoc, append-nil, arith, drop, drop-append, concat,
}
use cclab.Http.Strings.{
  Str, Map, find, insert, find-insert_new, find-insert_keep, is_same, lower, contains, starts_with,
}
use cclab.Http.Context.{Context, header_field_cb, header_value_cb, host}

-- The pieces of a header's name, as the parser hands them over, and then its value.
abbrev pub header_fields : List Str → Context → Context
header_fields [] ctx = ctx
header_fields (at ∷ pieces) ctx = header_fields pieces (header_field_cb at ctx)

header_fields_lem :
    (pieces : List Str) (ctx : Context)
    → header_fields pieces ctx ≡ record ctx { tmp_header_key = ctx.tmp_header_key ++ concat pieces }
unfolding header_field_cb
header_fields_lem [] ctx = rw (append-nil ctx.tmp_header_key) refl
header_fields_lem (at ∷ pieces) ctx =
    header_fields_lem pieces (header_field_cb at ctx)
    ∙ ap (λ k. record ctx { tmp_header_key = k })
        (append_assoc ctx.tmp_header_key at (concat pieces))

-- The value that stays: the first.
abbrev pub or_else : Option Str → Str → Str
or_else none w = w
or_else (some v) w = v

find-insert : (k w : Str) (m : Map) → find k (insert k w m) ≡ some (or_else (find k m) w)
find-insert k w m = go (find k m) refl
  where
    go : (o : Option Str) → find k m ≡ o → find k (insert k w m) ≡ some (or_else (find k m) w)
    go none e = find-insert_new k w m e ∙ ap (λ o. some (or_else o w)) (sym e)
    go (some v) e = find-insert_keep k v k w m e ∙ ap (λ o. some (or_else o w)) (sym e)

-- With no name begun before, a name in pieces and a value: the header is stored under the joined name in
-- lower case, unless the connection has had one of that name, whose value stays. The name is begun anew,
-- and the parameters stay.
pub header_refines :
    (pieces : List Str) (v : Str) (ctx : Context)
    → ctx.tmp_header_key ≡ []
    → let ctx' = header_value_cb v (header_fields pieces ctx) in
      let k = lower (concat pieces) in
      (find k ctx'.request_headers ≡ some (or_else (find k ctx.request_headers) v))
      × (ctx'.request_headers ≡ insert k v ctx.request_headers)
      × (ctx'.tmp_header_key ≡ [])
      × (ctx'.query_params ≡ ctx.query_params)
unfolding header_value_cb
header_refines pieces v ctx e =
    rw (header_fields_lem pieces ctx, e)
      (find-insert (lower (concat pieces)) v ctx.request_headers, refl, refl, refl)

starts_with-append : (v ys : Str) → starts_with v (v ++ ys) ≡ true
starts_with-append [] ys = refl
starts_with-append (c ∷ v) ys = ground (arith, starts_with-append v ys)

contains-start : (v s : Str) → starts_with v s ≡ true → contains v s ≡ true
contains-start v [] h = h
contains-start v (c ∷ s) h = ground (arith, h)

contains-append : (v xs ys : Str) → contains v (xs ++ (v ++ ys)) ≡ true
contains-append v [] ys = contains-start v (v ++ ys) (starts_with-append v ys)
contains-append v (x ∷ xs) ys = ground (arith, contains-append v xs ys)

-- "http://"
abbrev pub scheme : Str
scheme = 104 ∷ 116 ∷ 116 ∷ 112 ∷ 58 ∷ 47 ∷ 47 ∷ []

-- Of an absolute URL the `Host` header leaves the path: what stands behind the scheme and the host.
pub host-strips_scheme :
    (v : Str) (c : ℕ) (rest : Str) (ctx : Context)
    → ctx.path ≡ scheme ++ (v ++ (c ∷ rest))
    → lower ctx.tmp_header_key ≡ host
    → (header_value_cb v ctx).path ≡ c ∷ rest
unfolding header_value_cb
host-strips_scheme v c rest ctx e k =
    let s = scheme ++ (v ++ (c ∷ rest)) in
    let found : contains v s ≡ true = contains-append v scheme (c ∷ rest) in
    let size : length s ≡ 7 + (length v + suc (length rest)) =
      omega (arith, length-append scheme (v ++ (c ∷ rest)), length-append v (c ∷ rest)) in
    let inside : ltb (7 + length v) (length s) ≡ true = ground (arith, size) in
    let cut : drop (7 + length v) s ≡ c ∷ rest =
      ap (drop (7 + length v)) (sym (append_assoc scheme v (c ∷ rest)))
      ∙ drop-append (7 + length v) (scheme ++ v) (c ∷ rest) (omega (arith, length-append scheme v))
      ∙ (let z : 7 + length v - length (scheme ++ v) ≡ 0 = omega (arith, length-append scheme v) in
          rw z refl) in
    let same : is_same (lower ctx.tmp_header_key) host ≡ true = rw k refl in
    rw (same, e, found, inside) cut
