-- ===== src/Http/Url.antt =====
-- httpserver/http_server.cc: what `request_url_cb` makes of a URL.
use cclab.Base.{
  ℕ, suc, ◌+◌, ◌-◌, ◌≡◌, refl, ◌∙◌, ap, true, false, none, some, List, [], ◌∷◌, ◌++◌, ◌==◌, ltb,
  length, length-append, append_assoc, append-nil, arith, take, drop, take-append_lt, take_all,
  drop-append, Bool-cases, inl, inr,
}
use mathlib.Core.Path.{ap₂}
use cclab.Base.Pointers.{has, has-append}
use cclab.Http.Strings.{Str, Map, index_of, find, insert, insert_new, find-insert_keep}
use cclab.Http.Context.{
  Context, question, ampersand, equals, push, items, key_value, insert_all, request_url_cb,
}

-- The text of parameters, as a form sends it.
abbrev pub pair_text : Str → Str → Str
pair_text k v = k ++ (equals ∷ v)

abbrev pub more_text : List (Str × Str) → Str
more_text [] = []
more_text ((k, v) ∷ ps) = ampersand ∷ (pair_text k v ++ more_text ps)

abbrev pub query_text : List (Str × Str) → Str
query_text [] = []
query_text ((k, v) ∷ ps) = pair_text k v ++ more_text ps

-- Parameters whose names are new and which hold no `&`, and their names no `=`.
abbrev pub IsQuery : List (Str × Str) → Map → Type 0
IsQuery [] m = Unit
IsQuery ((k, v) ∷ ps) m =
    (has ampersand k ≡ false)
    × (has equals k ≡ false)
    × (has ampersand v ≡ false)
    × (find k m ≡ none)
    × IsQuery ps (m ++ ((k, v) ∷ []))

index_of-append : (c : ℕ) (xs ys : Str) → has c xs ≡ false → index_of c (xs ++ (c ∷ ys)) ≡ length xs
index_of-append c [] ys h = ground arith
index_of-append c (x ∷ xs) ys h =
    let e : (x == c) ≡ false = ground (arith, h) in
    rw e (ap suc (index_of-append c xs ys (ground (arith, h))))

take-length : (xs ys : Str) → take (length xs) (xs ++ ys) ≡ xs
take-length xs ys =
    take-append_lt (length xs) xs ys (omega arith) ∙ take_all (length xs) xs (omega arith)

drop-length_suc : (c : ℕ) (xs ys : Str) → drop (length xs + 1) (xs ++ (c ∷ ys)) ≡ ys
drop-length_suc c xs ys =
    drop-append (length xs + 1) xs (c ∷ ys) (omega arith)
    ∙ (let e : length xs + 1 - length xs ≡ 1 = omega arith in ap (λ n. drop n (c ∷ ys)) e)

key_value_lem : (k v : Str) → has equals k ≡ false → key_value (pair_text k v) ≡ (k, v)
key_value_lem k v h =
    let at = index_of-append equals k v h in
    let e : (length k == length (k ++ (equals ∷ v))) ≡ false =
      ground (arith, length-append k (equals ∷ v)) in
    rw (at, e) (ap₂ (λ a b. (a, b)) (take-length k (equals ∷ v)) (drop-length_suc equals k v))

-- An item ends at the end or at the next `&`.
items_last : (item xs : Str) → has ampersand xs ≡ false → items item xs ≡ push (item ++ xs) []
items_last item [] h = rw (append-nil item) refl
items_last item (x ∷ xs) h =
    let e : (x == ampersand) ≡ false = ground (arith, h) in
    rw e (
      items_last (item ++ (x ∷ [])) xs (ground (arith, h))
      ∙ ap (λ l. push l []) (append_assoc item (x ∷ []) xs))

items_next :
    (item xs ys : Str)
    → has ampersand xs ≡ false
    → items item (xs ++ (ampersand ∷ ys)) ≡ push (item ++ xs) (items [] ys)
items_next item [] ys h = rw (append-nil item) refl
items_next item (x ∷ xs) ys h =
    let e : (x == ampersand) ≡ false = ground (arith, h) in
    rw e (
      items_next (item ++ (x ∷ [])) xs ys (ground (arith, h))
      ∙ ap (λ l. push l (items [] ys)) (append_assoc item (x ∷ []) xs))

push-pair : (k v : Str) (l : List Str) → push (pair_text k v) l ≡ pair_text k v ∷ l
push-pair [] v l = refl
push-pair (c ∷ k) v l = refl

pair-has :
    (k v : Str)
    → has ampersand k ≡ false
    → has ampersand v ≡ false
    → has ampersand (pair_text k v) ≡ false
pair-has k v h g = ground (arith, has-append ampersand k (equals ∷ v))

insert_all-pair :
    (k v : Str) (l : List Str) (m : Map)
    → has equals k ≡ false
    → find k m ≡ none
    → insert_all (pair_text k v ∷ l) m ≡ insert_all l (m ++ ((k, v) ∷ []))
insert_all-pair k v l m h new =
    ap (λ (p : Str × Str). insert_all l (insert p.0 p.1 m)) (key_value_lem k v h)
    ∙ ap (insert_all l) (insert_new k v m new)

-- The items of a query go into the map in their order.
query_lem :
    (k v : Str) (ps : List (Str × Str)) (m : Map)
    → IsQuery ((k, v) ∷ ps) m
    → insert_all (items [] (query_text ((k, v) ∷ ps))) m ≡ m ++ ((k, v) ∷ ps)
query_lem k v [] m (ha, he, hv, new, rest) = rw (append-nil (pair_text k v)) (
    ap (λ l. insert_all l m) (items_last [] (pair_text k v) (pair-has k v ha hv) ∙ push-pair k v [])
    ∙ insert_all-pair k v [] m he new)
query_lem k v ((k', v') ∷ ps) m (ha, he, hv, new, rest) =
    ap (λ l. insert_all l m)
      (items_next [] (pair_text k v) (query_text ((k', v') ∷ ps)) (pair-has k v ha hv)
        ∙ push-pair k v (items [] (query_text ((k', v') ∷ ps))))
    ∙ insert_all-pair k v (items [] (query_text ((k', v') ∷ ps))) m he new
    ∙ query_lem k' v' ps (m ++ ((k, v) ∷ [])) rest
    ∙ append_assoc m ((k, v) ∷ []) ((k', v') ∷ ps)

-- A path without `?`, a `?`, and the text of one or more parameters are read back: the path, and the
-- parameters behind those of the requests before. Their names are new and hold neither `&` nor `=`, and
-- their values no `&`.
pub url_round_trip :
    (path k v : Str) (ps : List (Str × Str)) (ctx : Context)
    → has question path ≡ false
    → IsQuery ((k, v) ∷ ps) ctx.query_params
    → let url = path ++ (question ∷ query_text ((k, v) ∷ ps)) in
      request_url_cb url ctx ≡ record ctx {
        request_url = url;
        path = path;
        query_params = ctx.query_params ++ ((k, v) ∷ ps);
      }
unfolding request_url_cb
url_round_trip path k v ps ctx h q =
    let text = query_text ((k, v) ∷ ps) in
    let at = index_of-append question path text h in
    let inside : ltb (length path) (length (path ++ (question ∷ text))) ≡ true =
      ground (arith, length-append path (question ∷ text)) in
    let q' = query_lem k v ps ctx.query_params q in
    rw (at, inside, take-length path (question ∷ text), drop-length_suc question path text, q') refl

insert_all-keep :
    (k v : Str) (elems : List Str) (m : Map)
    → find k m ≡ some v
    → find k (insert_all elems m) ≡ some v
insert_all-keep k v [] m e = e
insert_all-keep k v (x ∷ elems) m e =
    let (k', w) = key_value x in
    insert_all-keep k v elems (insert k' w m) (find-insert_keep k v k' w m e)

-- Whatever URL comes, a parameter that a request of the connection has set keeps its value.
pub request_url-keeps_old :
    (url k v : Str) (ctx : Context)
    → find k ctx.query_params ≡ some v
    → find k (request_url_cb url ctx).query_params ≡ some v
unfolding request_url_cb
request_url-keeps_old url k v ctx e = elim (Bool-cases (ltb (index_of question url) (length url))) [
  | inl y ↦
      rw y
        (insert_all-keep k v (items [] (drop (index_of question url + 1) url)) ctx.query_params e)
  | inr z ↦ rw z e
]
