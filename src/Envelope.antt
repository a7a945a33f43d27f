-- ===== src/Envelope.antt =====
-- core/mission/transports/envelope.py: EnvelopeV1. msgpack, zstd, pydantic's model_validate and the
-- text of a UUID are parameters.
pub mod RoundTrip
use jarvis.Prelude.{
  string_eq, nat_eq, ℕ, String, Bool, true, false, Option, none, some, List, [], ◌∷◌, ◌==◌,
  if◌then◌else◌, Result, ok, raise,
}
use jarvis.Prelude.Dict.{Dict, get}

-- The values of a dictionary that msgpack packs.
pub data Value : Type 0 where
  int : ℕ → Value
  text : String → Value
  bin : List ℕ → Value
  nil : Value

abbrev pub Fields : Type 0
Fields = Dict String Value

-- What msgpack unpacks.
pub data Unpacked : Type 0 where
  dict : Fields → Unpacked
  other : Unpacked

-- EnvelopeV1Dto, which an EnvelopeV1 wraps.
pub record EnvelopeV1 : Type 0 where
  pub envelope_version : ℕ
  pub payload_type : String
  pub payload_bytes : List ℕ
  pub idempotency_key : ℕ
  pub producer_id : String
  pub created_at : String

-- The third-party code; none where it raises.
pub record Codec : Type 0 where
  pub packb : Fields → List ℕ
  pub unpackb : List ℕ → Option Unpacked
  pub compress : List ℕ → List ℕ
  pub decompress : List ℕ → Option (List ℕ)
  pub uuid_text : ℕ → String
  pub model_validate : Fields → Option EnvelopeV1

pub data EnvelopeError : Type 0 where
  type_error : EnvelopeError
  unsupported_version : EnvelopeError
  validation_error : EnvelopeError
  not_a_dict : EnvelopeError
  corrupt : EnvelopeError

abbrev pub payload_type_task_assignment : String
payload_type_task_assignment = "mission.task.assignment"

unfoldable pub make_envelope :
    (payload_type : String) (payload_bytes : List ℕ) (producer_id : String) (idempotency_key : ℕ)
    → (created_at : String) → Result EnvelopeError EnvelopeV1
make_envelope payload_type payload_bytes producer_id idempotency_key created_at =
    if payload_type == ""
    then raise type_error
    else if producer_id == ""
    then raise type_error
    else ok (record {
      envelope_version = 1;
      payload_type = payload_type;
      payload_bytes = payload_bytes;
      idempotency_key = idempotency_key;
      producer_id = producer_id;
      created_at = created_at;
    })

-- as_dict.get("envelope_version") == 1
abbrev pub is_version_1 : Option Value → Bool
is_version_1 (some (int v)) = v == 1
is_version_1 _ = false

unfoldable pub rebuilt : EnvelopeV1 → Result EnvelopeError EnvelopeV1
unfolding make_envelope
rebuilt dto =
    make_envelope dto.payload_type dto.payload_bytes dto.producer_id dto.idempotency_key
      dto.created_at

unfoldable pub validated : Option EnvelopeV1 → Result EnvelopeError EnvelopeV1
unfolding rebuilt
validated none = raise validation_error
validated (some dto) = rebuilt dto

module _ (c : Codec) where
  -- model_dump(), with the UUID as text
  unfoldable pub dump : EnvelopeV1 → Fields
  dump e =
      ("envelope_version", int e.envelope_version)
      ∷ ("payload_type", text e.payload_type)
      ∷ ("payload_bytes", bin e.payload_bytes)
      ∷ ("idempotency_key", text (c.uuid_text e.idempotency_key))
      ∷ ("producer_id", text e.producer_id)
      ∷ ("created_at", text e.created_at)
      ∷ []

  unfoldable pub pack : EnvelopeV1 → List ℕ
  pack e = c.compress (c.packb (dump e))

  unfoldable pub read_dict : Option Unpacked → Result EnvelopeError EnvelopeV1
  unfolding validated
  read_dict none = raise corrupt
  read_dict (some other) = raise not_a_dict
  read_dict (some (dict fields)) =
      if is_version_1 (get fields "envelope_version")
      then validated (c.model_validate fields)
      else raise unsupported_version

  unfoldable pub read_packed : Option (List ℕ) → Result EnvelopeError EnvelopeV1
  unfolding read_dict
  read_packed none = raise corrupt
  read_packed (some packed) = read_dict (c.unpackb packed)

  unfoldable pub unpack : List ℕ → Result EnvelopeError EnvelopeV1
  unfolding read_packed
  unpack raw = read_packed (c.decompress raw)
