-- ===== src/Ingress/Outbound.antt =====
-- `registry.py`: the outbound handlers, of which the webhook may fail in several ways.
use deepticket.Prelude.{
  ℕ, suc, String, Bool, true, false, not, ◌&&◌, leb, eqb, Option, none, some, if◌then◌else◌, ◌==◌,
}
use deepticket.Prelude.Text.{◌<>◌, nonempty, strip, clip}
use deepticket.Json.{Value, null, bool, num, str, list, dict, Items, nil, cons, Fields, end, field}
use deepticket.Env.{Env, str_of}
use deepticket.Exec.{Error, value_error, type_error, Result, ok, err}

pub record OutboundResult : Type 0 where
  pub ok : Bool
  pub detail : String

-- How an HTTP request ends: an `httpx.HTTPError` with its text, another exception, or a response
pub data Response : Type 0 where
  http_failure : String → Response
  http_raised : Error → Response
  responded : ℕ → String → Response

-- What a webhook's delivery reads and gets from outside: the URL that the route or the environment names,
-- the name of the variable with more headers and its text, the text of the `JSONDecodeError` that reading
-- it may raise, and the end of the request.
pub record Webhook : Type 0 where
  pub url : String
  pub url_env : String
  pub extra_env : String
  pub extra_headers : String
  pub json_error : String
  pub response : Response

abbrev pub failed_to : String → OutboundResult
failed_to detail = record { ok = false; detail = detail }

abbrev pub store_only : OutboundResult
store_only = record { ok = true; detail = "结果已写入 DeepTicket 存储" }

abbrev pub post : Response → Result OutboundResult
post (http_failure message) = ok (failed_to message)
post (http_raised e) = err e
post (responded status body) =
    ok (
      if leb 400 status
      then failed_to (clip 500 body)
      else record { ok = true; detail = "已回调外部系统" })

-- `len(v)` of what can be iterated over
abbrev items_count : Items → ℕ
items_count nil = 0
items_count (cons v vs) = suc (items_count vs)

abbrev fields_count : Fields → ℕ
fields_count end = 0
fields_count (field k v d) = suc (fields_count d)

abbrev chars_count : String → ℕ
chars_count String.[] = 0
chars_count (String.◌∷◌ c s) = suc (chars_count s)

abbrev type_name : Value → String
type_name null = "NoneType"
type_name (bool b) = "bool"
type_name (num n) = "int"
type_name (str s) = "str"
type_name (list vs) = "list"
type_name (dict d) = "dict"

-- A key is hashed when it is stored: the first of a list's two items, the others' keys are texts.
abbrev hashed : Value → Result (Unit {0})
hashed (list vs) = err (type_error "unhashable type: 'list'")
hashed (dict d) = err (type_error "unhashable type: 'dict'")
hashed v = ok tt

abbrev first_hashed : Items → Result (Unit {0})
first_hashed nil = ok tt
first_hashed (cons v vs) = hashed v

abbrev and_then : Result (Unit {0}) → Result (Unit {0}) → Result (Unit {0})
and_then (ok u) r = r
and_then (err e) r = err e

module _ ⦃env : Env⦄ where
  abbrev of_two : ℕ → ℕ → Result (Unit {0}) → Result (Unit {0})
  of_two i n r =
      if eqb n 2
      then r
      else err (
          value_error (
            "dictionary update sequence element #"
            <> str_of (num i)
            <> " has length "
            <> str_of (num n)
            <> "; 2 is required"))

  -- The item `i` of the sequence as a key and a value
  abbrev as_pair : ℕ → Value → Result (Unit {0})
  as_pair i (list vs) = of_two i (items_count vs) (first_hashed vs)
  as_pair i (dict d) = of_two i (fields_count d) (ok tt)
  as_pair i (str s) = of_two i (chars_count s) (ok tt)
  as_pair i v = err (
      type_error (
        "cannot convert dictionary update sequence element #"
        <> str_of (num i)
        <> " to a sequence"))

  unfoldable pub as_pairs : ℕ → Items → Result (Unit {0})
  as_pairs i nil = ok tt
  as_pairs i (cons v vs) = and_then (as_pair i v) (as_pairs (suc i) vs)

  -- `headers.update(...)`: a dictionary or an iterable of pairs; the characters of a text are no pairs.
  unfoldable pub update_headers : Value → Result (Unit {0})
  update_headers (dict d) = ok tt
  update_headers (list vs) = as_pairs 0 vs
  update_headers (str s) = if s == "" then ok tt else of_two 0 1 (ok tt)
  update_headers v = err (type_error ("'" <> type_name v <> "' object is not iterable"))

  abbrev posted : Result (Unit {0}) → Response → Result OutboundResult
  posted (ok u) response = post response
  posted (err e) response = err e

  -- The further headers: a text that is no JSON is reported, and what is no dictionary may raise.
  abbrev pub with_headers : Webhook → Option Value → Result OutboundResult
  with_headers w none =
      ok (failed_to ("Webhook 头配置 JSON 无效 (" <> strip w.extra_env <> "): " <> w.json_error))
  with_headers w (some v) = posted (update_headers v) w.response

  -- `WebhookOutbound.deliver`
  unfoldable pub webhook : Webhook → Result OutboundResult
  webhook w =
      if not (nonempty w.url)
      then ok (
          failed_to (
            "Webhook URL 未配置: "
            <> (if nonempty w.url_env then w.url_env else "(未配置 url / url_env)")))
      else if nonempty (strip w.extra_env) && nonempty (strip w.extra_headers)
      then with_headers w (env.json_loads (strip w.extra_headers))
      else post w.response
