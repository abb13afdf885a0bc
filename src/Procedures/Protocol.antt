-- ===== src/Procedures/Protocol.antt =====
-- The envelope protocol: which reply of a procedure carries an outcome, and that a method reads that
-- outcome back.
use Prim.Native.String.{◌++◌}
use eudi_api_management.Base.{
  String, ◌≡◌, ◌≢◌, refl, ◌⊎◌, inl, inr, Option, some, ==-eq-false_of_ne,
}
use eudi_api_management.Base.Results.{Result, ok, err}
use eudi_api_management.Errors.{Error, Kit, result_error}
use eudi_api_management.Procedures.{
  Envelope, Driver, scanned, raised, Decoder, Database, classify, parse_envelope, call, command,
  query, invoke,
}

module _ (kit : Kit) (decode : Decoder) {R : Type 0} (IsRow : String → R → Type 0) where
  -- A reply that carries the outcome: a value as the data of a success envelope, an error as an
  -- error envelope with a code, which is the reply or the message of a raised P0001.
  abbrev pub Answers : Driver → Result Error R → Type 0
  Answers reply (ok a) =
      (raw : String) × (e : Envelope) × (reply ≡ scanned raw)
      × (decode raw ≡ some e)
      × (e.result ≡ "success")
      × IsRow e.content a
  Answers reply (err f) =
      (raw : String) × (e : Envelope) × ((reply ≡ scanned raw) ⊎ (reply ≡ raised raw))
      × (decode raw ≡ some e)
      × (e.result ≡ "error")
      × (e.code ≢ "")
      × (f ≡ kit.from_result_code ("err:" ++ e.code))

  -- The procedure answers these arguments in this state with the outcome, and leaves a state that
  -- is seen as the state after it.
  abbrev pub Conforms :
      {A S F : Type 0} → Database A S → (S → F) → String → A → S → Result Error R × F → Type 0
  Conforms db view procedure arguments s outcome =
      (pi : String) × (db.marshal arguments ≡ some pi)
      × Answers (db.perform procedure pi s).0 outcome.0
      × (view (db.perform procedure pi s).1 ≡ outcome.1)

-- any data will do
abbrev pub IsAnything : String → Unit {0} → Type 0
IsAnything content a = Unit

-- the data decodes to the row
abbrev pub IsRowOf : {R : Type 0} → (String → Option R) → String → R → Type 0
IsRowOf decode_row content a = decode_row content ≡ some a

module _ (kit : Kit) (decode : Decoder) where
  call-success :
      (raw : String) (e : Envelope)
      → decode raw ≡ some e
      → e.result ≡ "success"
      → call kit decode (scanned raw) ≡ ok e.content
  unfolding call parse_envelope classify
  call-success raw e decoded good = rw (decoded, good) refl

  call-error :
      (raw : String) (e : Envelope) (reply : Driver)
      → (reply ≡ scanned raw) ⊎ (reply ≡ raised raw)
      → decode raw ≡ some e
      → e.result ≡ "error"
      → e.code ≢ ""
      → call kit decode reply ≡ err (kit.from_result_code ("err:" ++ e.code))
  unfolding call parse_envelope classify result_error
  call-error raw e reply (inl sent) decoded bad full =
      rw (sent, decoded, bad, ==-eq-false_of_ne e.code "" full) refl
  call-error raw e reply (inr sent) decoded bad full =
      rw (sent, decoded, bad, ==-eq-false_of_ne e.code "" full) refl

  pub command-Answers :
      (reply : Driver) (outcome : Result Error Unit)
      → Answers kit decode IsAnything reply outcome
      → command kit decode reply ≡ outcome
  unfolding command
  command-Answers reply (ok tt) (raw, e, sent, decoded, good, row) =
      rw (sent, call-success raw e decoded good) refl
  command-Answers reply (err f) (raw, e, sent, decoded, bad, full, same) =
      rw (call-error raw e reply sent decoded bad full, same) refl

  pub query-Answers :
      {R : Type 0} (decode_row : String → Option R) (reply : Driver) (outcome : Result Error R)
      → Answers kit decode (IsRowOf decode_row) reply outcome
      → query decode_row kit decode reply ≡ outcome
  unfolding query
  query-Answers decode_row reply (ok a) (raw, e, sent, decoded, good, row) =
      rw (sent, call-success raw e decoded good, row) refl
  query-Answers decode_row reply (err f) (raw, e, sent, decoded, bad, full, same) =
      rw (call-error raw e reply sent decoded bad full, same) refl

  -- A method reads the outcome that its procedure answers with.
  pub invoke-Conforms :
      {R A S F : Type 0} (IsRow : String → R → Type 0) (read : Driver → Result Error R)
      → ((reply : Driver) (outcome : Result Error R)
          → Answers kit decode IsRow reply outcome
          → read reply ≡ outcome)
      → (db : Database A S) (view : S → F) (procedure : String) (arguments : A) (s : S)
        (outcome : Result Error R × F)
      → Conforms kit decode IsRow db view procedure arguments s outcome
      → ((invoke read db procedure arguments s).0 ≡ outcome.0)
        × (view (invoke read db procedure arguments s).1 ≡ outcome.1)
  unfolding invoke
  invoke-Conforms IsRow read reads db view procedure arguments s outcome
        (pi, marshalled, answers, after) =
      rw (marshalled, invoke) (reads (db.perform procedure pi s).0 outcome.0 answers, after)
