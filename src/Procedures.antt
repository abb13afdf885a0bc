-- ===== src/Procedures.antt =====
-- internal/sessiondb/db.go and internal/registrydb/db.go: the call of a stored procedure and its
-- envelope, with the parts of both repo.go that a reply goes through. The driver is an argument: it
-- gives the text of the reply, the message of a raised P0001, or any other error.
pub mod Protocol
pub mod Replies
use eudi_api_management.Base.{String, Bool, Option, none, some, List, ◌==◌, if◌then◌else◌}
use eudi_api_management.Base.Results.{Result, ok, err, ◌>>=◌, or_fail}
use eudi_api_management.Errors.{Error, fault, Kit, result_error}

-- `content` is the `data` member, the empty text where the member is absent.
pub record Envelope : Type 0 where
  pub result : String
  pub code : String
  pub content : String

pub data Driver : Type 0 where
  scanned : String → Driver
  raised : String → Driver
  broken : Driver

-- encoding/json at the type `envelope`; `none` is its error
abbrev pub Decoder : Type 0
Decoder = String → Option Envelope

-- the data and the code of an envelope
unfoldable pub classify : Envelope → Result Error (String × String)
classify e =
    if e.result == "success"
    then ok (e.content, "")
    else if e.result == "error"
    then ok ("", e.code)
    else err (fault "unknown envelope result")

unfoldable pub parse_envelope : Decoder → String → Result Error (String × String)
unfolding classify
parse_envelope decode raw = do e ← or_fail (decode raw) (fault "malformed envelope"); classify e

-- `return nil, resultError(code)`
abbrev refused : Option Error → Result Error String
refused none = ok ""
refused (some e) = err e

abbrev of_raised : Kit → String × String → Result Error String
of_raised kit (content, code) = refused (result_error kit code)

abbrev of_scanned : Kit → String × String → Result Error String
of_scanned kit (content, code) = if code == "" then ok content else refused (result_error kit code)

-- call, of arguments that marshal
unfoldable pub call : Kit → Decoder → Driver → Result Error String
unfolding parse_envelope result_error
call kit decode broken = err (fault "query failed")
call kit decode (raised message) = parse_envelope decode message >>= of_raised kit
call kit decode (scanned out) = parse_envelope decode out >>= of_scanned kit

-- A method that only reports an error: Cancel, MarkCodeRedeemed, SetWebhookState, DeleteTemplate,
-- RevokeAPIKey and SetIntendedUses.
unfoldable pub command : Kit → Decoder → Driver → Result Error Unit
unfolding call
command kit decode reply = do data' ← call kit decode reply; ok tt

-- A method that decodes the data of the reply: the other methods of both stores.
unfoldable pub query : {A : Type 0} → (String → Option A) → Kit → Decoder → Driver → Result Error A
unfolding call
query decode_row kit decode reply = do
  data' ← call kit decode reply
  or_fail (decode_row data') (fault "malformed data")

-- The database as `call` sees it: json.Marshal of the arguments, whose error is `none`, and
-- `QueryRow("call proc($1, $2)").Scan(&out)` with the state of the database after it. `A` is the type
-- of the arguments.
pub record Database (A S : Type 0) : Type 0 where
  pub marshal : A → Option String
  pub perform : String → String → S → Driver × S

abbrev read_reply : {R S : Type 0} → (Driver → R) → Driver × S → R × S
read_reply read (reply, s) = (read reply, s)

-- A method of PG: the arguments are marshalled, the procedure is called, and the reply is read.
unfoldable pub invoke :
    {R A S : Type 0}
    → (Driver → Result Error R)
    → Database A S
    → String
    → A
    → S
    → Result Error R × S
invoke read db procedure arguments s = elim (db.marshal arguments) [
  | none ↦ (err (fault "marshal pi_data"), s)
  | some pi ↦ read_reply read (db.perform procedure pi s)
]
