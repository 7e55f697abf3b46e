-- ===== src/Times.antt =====
-- scripts/protocol_time.py, and `_parse_time` and `_epoch_microseconds` of
-- scripts/validate_messages.py. Instants are microseconds, on one line of integers.
pub mod Laws
use Prim.Native.Char.{code}
use Prim.Native.String
use private_match_protocol.Prelude.{
  ℕ, String, Bool, true, false, ◌&&◌, Option, none, some, List, [], ◌∷◌, ◌++◌, ℤ, pos, ◌+ℤ◌, ◌*ℤ◌,
  leb_ℤ, ltb_ℤ, leb, ◌==◌, if◌then◌else◌, str_eq,
}
use private_match_protocol.Json.{Json, text_of, integer_of}
use private_match_protocol.Findings.{Finding, finding}

pub data IsoTime : Type 0 where
  no_time naive_time : IsoTime
  instant : ℤ → IsoTime

-- Python's `datetime`: the instant of an ISO text (with `astimezone(timezone.utc)`),
-- `int(t.timestamp() * 1_000_000)`, which goes through a float, the two directions of the format
-- `%Y-%m-%dT%H:%M:%SZ`, and `datetime.max`.
pub record Calendar : Type 0 where
  pub fromisoformat : String → IsoTime
  pub timestamp_microseconds : ℤ → ℤ
  pub strptime : String → Option ℤ
  pub strftime : ℤ → String
  pub last_instant : ℤ

-- `value.replace("Z", "+00:00")`
unfoldable pub replace_zulu : String → String
replace_zulu String.[] = ""
replace_zulu (String.◌∷◌ c s) =
    let rest = replace_zulu s in
    if code c == b'Z' then String.◌++◌ "+00:00" rest else String.◌∷◌ c rest

-- One place of a regular expression: a fixed character, or `[0-9]`.
abbrev places : List ℕ → List ℕ → Bool
places [] [] = true
places (p ∷ ps) (c ∷ cs) = (if p == b'0' then leb b'0' c && leb c b'9' else p == c) && places ps cs
places _ _ = false

abbrev codes : String → List ℕ
codes String.[] = []
codes (String.◌∷◌ c s) = code c ∷ codes s

-- `CANONICAL_UTC_TIMESTAMP.fullmatch(value)`, where a `0` of the pattern stands for any digit.
unfoldable pub is_canonical_text : String → Bool
is_canonical_text s = places (codes "0000-00-00T00:00:00Z") (codes s)

pub data TimeError : Type 0 where
  noncanonical_timestamp invalid_timestamp invalid_evaluation_timeout : TimeError
  session_not_live evaluation_deadline_overflow : TimeError

pub data Timed {ℓ} (A : Type ℓ) : Type ℓ where
  timed : A → Timed A
  mistimed : TimeError → Timed A

infixl 5 ◌>>=◌ ◌>>◌
abbrev pub ◌>>=◌ {ℓ κ} : {A : Type ℓ} {B : Type κ} → Timed A → (A → Timed B) → Timed B
timed a >>= f = f a
mistimed e >>= f = mistimed e

abbrev pub ◌>>◌ {ℓ} : {B : Type ℓ} → Timed (Unit {0}) → Timed B → Timed B
m >> k = m >>= λ _. k

abbrev pub refuse_if : Bool → TimeError → Timed (Unit {0})
refuse_if true e = mistimed e
refuse_if false e = timed tt

abbrev known {ℓ} : {A : Type ℓ} → Option A → TimeError → Timed A
known none e = mistimed e
known (some a) e = timed a

abbrev pub earlier : ℤ → ℤ → ℤ
earlier a b = if ltb_ℤ b a then b else a

module _ (cal : Calendar) where
  open cal use {fromisoformat, timestamp_microseconds, strptime, strftime, last_instant}

  abbrev pub read_iso : IsoTime → String → List Finding → Option ℤ × List Finding
  read_iso no_time place fs =
      (none, fs ++ finding "message-time" place "invalid RFC 3339 timestamp" ∷ [])
  read_iso naive_time place fs =
      (none, fs ++ finding "message-time" place "timestamp requires a timezone" ∷ [])
  read_iso (instant t) place fs = (some t, fs)

  abbrev pub read_time : Option String → String → List Finding → Option ℤ × List Finding
  read_time none place fs =
      (none, fs ++ finding "message-time" place "timestamp must be a string" ∷ [])
  read_time (some s) place fs = read_iso (fromisoformat (replace_zulu s)) place fs

  -- _parse_time: the instant, and the findings with those it adds.
  unfoldable pub parse_time : Json → String → List Finding → Option ℤ × List Finding
  unfolding finding
  parse_time value place fs = read_time (text_of value) place fs

  abbrev pub in_microseconds : Option ℤ × List Finding → Option ℤ × List Finding
  in_microseconds (none, fs) = (none, fs)
  in_microseconds (some t, fs) = (some (timestamp_microseconds t), fs)

  -- _epoch_microseconds
  unfoldable pub epoch_microseconds : Json → String → List Finding → Option ℤ × List Finding
  unfolding parse_time
  epoch_microseconds value place fs = in_microseconds (parse_time value place fs)

  -- parse_canonical_utc_timestamp
  unfoldable pub parse_canonical_utc_timestamp : Json → Timed ℤ
  unfolding is_canonical_text
  parse_canonical_utc_timestamp value = do
    s ← known (text_of value) noncanonical_timestamp
    refuse_if (if is_canonical_text s then false else true) noncanonical_timestamp
    t ← known (strptime s) invalid_timestamp
    refuse_if (if str_eq (strftime t) s then false else true) noncanonical_timestamp
    timed t

  -- derive_evaluation_deadline
  unfoldable pub derive_evaluation_deadline : Json → Json → Json → Timed String
  unfolding parse_canonical_utc_timestamp
  derive_evaluation_deadline authoritative_time timeout session_expires_at = do
    seconds ← known (integer_of timeout) invalid_evaluation_timeout
    refuse_if (leb_ℤ seconds (pos 0)) invalid_evaluation_timeout
    current ← parse_canonical_utc_timestamp authoritative_time
    expiry ← parse_canonical_utc_timestamp session_expires_at
    refuse_if (leb_ℤ expiry current) session_not_live
    let deadline = current +ℤ seconds *ℤ pos 1000000
    refuse_if (ltb_ℤ last_instant deadline) evaluation_deadline_overflow
    timed (strftime (earlier deadline expiry))
