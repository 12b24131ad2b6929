-- ===== src/Api/Filter.antt =====
-- src/common/filters/all-exceptions.filter.js: the error answer for an exception. The time stamp and
-- the log line are left out, and `details` is a text. An empty text counts as missing where the code
-- writes `||`, and is `none` here.
use leave_ledger.Common.{
  ℕ, zero, suc, ◌/◌, ◌%◌, String, Option, none, some, List, [], ◌∷◌, ltb, get_elem?, if◌then◌else◌,
}
use Prim.Native.String.{◌++◌ as append}

-- `message` of an exception's payload.
pub data Message : Type 0 where
  missing : Message
  text : String → Message
  several : List String → Message

-- `exception.getResponse()`
pub data Payload : Type 0 where
  plain : String → Payload
  object : Option String → Message → Option String → Payload

-- An HttpException with its status, or any other error with its message.
pub data Exception : Type 0 where
  http : ℕ → Payload → Exception
  unexpected : String → Exception

pub record ErrorBody : Type 0 where
  pub status_code : ℕ
  pub error : String
  pub message : String
  pub request_id : String
  pub path : String
  pub details : Option String

abbrev digits : List String
digits = "0" ∷ "1" ∷ "2" ∷ "3" ∷ "4" ∷ "5" ∷ "6" ∷ "7" ∷ "8" ∷ "9" ∷ []

abbrev digit : ℕ → String
digit n = elim (get_elem? digits n) [ some d ↦ d | none ↦ "" ]

-- `String(status)`, of a number with at most `places` digits.
unfoldable pub decimal : ℕ → ℕ → String
decimal zero n = digit (n % 10)
decimal (suc places) n =
    let front = decimal places (n / 10) in
    if ltb n 10 then digit n else append front (digit (n % 10))

-- `join('; ')`
unfoldable pub join_messages : List String → String
join_messages [] = ""
join_messages (m ∷ []) = m
join_messages (m ∷ n ∷ ms) = append m (append "; " (join_messages (n ∷ ms)))

unfoldable pub payload_error : ℕ → Payload → String
unfolding decimal
payload_error status (plain m) = decimal 9 status
payload_error status (object none m details) = decimal 9 status
payload_error status (object (some code) m details) = code

abbrev unexpected_message : String
unexpected_message = "An unexpected error occurred"

unfoldable pub payload_message : Payload → String
unfolding join_messages
payload_message (plain m) = m
payload_message (object code missing details) = unexpected_message
payload_message (object code (text m) details) = m
payload_message (object code (several ms) details) = join_messages ms

unfoldable payload_details : Payload → Option String
payload_details (plain m) = none
payload_details (object code m details) = details

-- AllExceptionsFilter.catch
unfoldable pub catch_exception : Option String → String → Exception → ErrorBody
unfolding payload_error payload_message payload_details
catch_exception request_id url (http status payload) = record {
  status_code = status;
  error = payload_error status payload;
  message = payload_message payload;
  request_id = elim request_id [ some id ↦ id | none ↦ "unknown" ];
  path = url;
  details = payload_details payload;
}
catch_exception request_id url (unexpected m) = record {
  status_code = 500;
  error = "INTERNAL_SERVER_ERROR";
  message = unexpected_message;
  request_id = elim request_id [ some id ↦ id | none ↦ "unknown" ];
  path = url;
  details = none;
}
