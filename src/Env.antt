-- ===== src/Env.antt =====
-- What the program takes from Python's runtime: names, clocks and text conversions. Every module that
-- draws an identifier or reads a clock takes one `Env` as an instance argument. The n-th call of
-- `uuid.uuid4` and of a clock is the n-th value of a sequence, so nothing is said of what they return.
use deepticket.Prelude.{ℕ, String, true, false, Option, none, some}
use deepticket.Json.{Value, null, bool, num, str, list, dict}

pub record Env : Type 0 where
  -- `repr(v)`: also `str(v)` of a number or of a container
  pub repr : Value → String
  -- `int(s)` of a string; `none` for a ValueError
  pub int_of_str : String → Option ℕ
  -- `uuid.uuid4().hex`
  pub uuid4_hex : ℕ → String
  -- `utc_now_iso()` of utils/time.py
  pub utc_now_iso : ℕ → String
  -- `time.time() * 1000.0`
  pub time_ms : ℕ → ℕ
  -- `datetime.fromisoformat(s).timestamp() * 1000.0`; `none` for a ValueError
  pub iso_ms : String → Option ℕ
  -- `datetime.fromtimestamp(ms / 1000).isoformat()` in UTC
  pub iso_of_ms : ℕ → String
  -- `time.mktime(time.strptime(s, "%Y-%m-%dT%H:%M:%S")) * 1000`; `none` for a ValueError
  pub local_ms : String → Option ℕ
  -- `s.lower()`
  pub lower : String → String
  -- `secrets.token_hex(16)` and `secrets.token_urlsafe(32)`
  pub token_hex : ℕ → String
  pub token_urlsafe : ℕ → String
  -- the hexadecimal digest of `hashlib.pbkdf2_hmac("sha256", password, salt, 120_000)`
  pub pbkdf2 : String → String → String
  -- `json.dumps(v, ensure_ascii=False)`
  pub json_dumps : Value → String
  -- `json.loads(s)`; `none` for a JSONDecodeError
  pub json_loads : String → Option Value

module _ ⦃env : Env⦄ where
  -- `str(v)`
  abbrev pub str_of : Value → String
  str_of null = "None"
  str_of (bool true) = "True"
  str_of (bool false) = "False"
  str_of (num n) = env.repr (num n)
  str_of (str s) = s
  str_of (list vs) = env.repr (list vs)
  str_of (dict d) = env.repr (dict d)

  -- `int(v)`; `none` for a ValueError or a TypeError
  abbrev pub int_of : Value → Option ℕ
  int_of null = none
  int_of (bool true) = some 1
  int_of (bool false) = some 0
  int_of (num n) = some n
  int_of (str s) = env.int_of_str s
  int_of (list vs) = none
  int_of (dict d) = none
