-- ===== src/Envelope/RoundTrip.antt =====
-- What core/mission/transports/envelope.py reads back.
use jarvis.Prelude.{
  string_eq, nat_eq, ℕ, String, true, Option, none, some, List, ◌≡◌, ◌≢◌, ap, sym, ◌∙◌, refl, ok,
  arith, eq_iff, Option-cases, Bool-cases, inl, inr,
}
use jarvis.Prelude.Dict.{get}
use jarvis.Envelope.{
  text, bin, Value, int, Fields, Unpacked, dict, other, EnvelopeV1, Codec, make_envelope, dump,
  pack, is_version_1, rebuilt, validated, read_dict, read_packed, unpack,
}

-- The bytes of this envelope are read back as it: what the whole codec does for it.
pub record Carries (c : Codec) (e : EnvelopeV1) : Type 0 where
  pub decompresses : c.decompress (pack c e) ≡ some (c.packb (dump c e))
  pub unpacks : c.unpackb (c.packb (dump c e)) ≡ some (dict (dump c e))
  pub validates : c.model_validate (dump c e) ≡ some e

make_envelope-rebuilt :
    (t : String) (b : List ℕ) (p : String) (k : ℕ) (at : String) (e : EnvelopeV1)
    → make_envelope t b p k at ≡ ok e
    → (rebuilt e ≡ ok e) × (e.envelope_version ≡ 1)
unfolding rebuilt
make_envelope-rebuilt t b p k at e h = ground (arith, h)

-- Then unpacking what was packed gives the envelope.
pub unpack-carried :
    (c : Codec) (t : String) (b : List ℕ) (p : String) (k : ℕ) (at : String) (e : EnvelopeV1)
    → make_envelope t b p k at ≡ ok e
    → Carries c e
    → unpack c (pack c e) ≡ ok e
unfolding unpack dump get
unpack-carried c t b p k at e h carried =
    let (again, version) = make_envelope-rebuilt t b p k at e h in
    rw
      (
        carried.decompresses,
        read_packed,
        carried.unpacks,
        read_dict,
        (nat_eq.same_iff e.envelope_version 1).1 version,
        validated,
        carried.validates,
        again,
      )
      refl

-- What the documentation of the libraries says. zstd gives back what it compressed, msgpack the
-- dictionary of this envelope, and the text of this envelope's UUID is read as it. pydantic makes of any
-- dictionary that has every field of the schema, each of its type (a UUID as text), the envelope with
-- these fields.
pub record Lawful (c : Codec) (uuid_of : String → Option ℕ) (e : EnvelopeV1) : Type 0 where
  pub decompresses : (bytes : List ℕ) → c.decompress (c.compress bytes) ≡ some bytes
  pub reads_uuid : uuid_of (c.uuid_text e.idempotency_key) ≡ some e.idempotency_key
  pub unpacks : c.unpackb (c.packb (dump c e)) ≡ some (dict (dump c e))
  pub validates :
      (fields : Fields) (version : ℕ) (type : String) (bytes : List ℕ) (key : String) (id : ℕ)
      (producer at : String)
      → get fields "envelope_version" ≡ some (int version)
      → get fields "payload_type" ≡ some (text type)
      → get fields "payload_bytes" ≡ some (bin bytes)
      → get fields "idempotency_key" ≡ some (text key)
      → uuid_of key ≡ some id
      → get fields "producer_id" ≡ some (text producer)
      → get fields "created_at" ≡ some (text at)
      → c.model_validate fields
        ≡ some (record {
          envelope_version = version;
          payload_type = type;
          payload_bytes = bytes;
          idempotency_key = id;
          producer_id = producer;
          created_at = at;
        })

Lawful-Carries :
    (c : Codec) (uuid_of : String → Option ℕ) (e : EnvelopeV1) → Lawful c uuid_of e → Carries c e
unfolding pack dump get
Lawful-Carries c uuid_of e laws = record {
  decompresses = laws.decompresses (c.packb (dump c e));
  unpacks = laws.unpacks;
  validates =
      laws.validates (dump c e) e.envelope_version e.payload_type e.payload_bytes
        (c.uuid_text e.idempotency_key) e.idempotency_key e.producer_id e.created_at refl refl refl
        refl laws.reads_uuid refl refl;
}

-- Packing and unpacking: what the constructor built arrives as it was, field by field, if zstd, msgpack,
-- pydantic and the text of a UUID do what they document (zstd and pydantic for any input, msgpack for
-- the dictionary and UUID for the key of this envelope).
pub unpack-pack :
    (c : Codec) (uuid_of : String → Option ℕ) (t : String) (b : List ℕ) (p : String) (k : ℕ)
    (at : String) (e : EnvelopeV1)
    → make_envelope t b p k at ≡ ok e
    → Lawful c uuid_of e
    → unpack c (pack c e) ≡ ok e
unpack-pack c uuid_of t b p k at e h laws =
    unpack-carried c t b p k at e h (Lawful-Carries c uuid_of e laws)

-- What an envelope that was read is: its constructor has accepted it.
abbrev pub IsSound : EnvelopeV1 → Type 0
IsSound e = (e.envelope_version ≡ 1) × (e.payload_type ≢ "") × (e.producer_id ≢ "")

rebuilt-IsSound : (dto e : EnvelopeV1) → rebuilt dto ≡ ok e → IsSound e
unfolding rebuilt make_envelope
rebuilt-IsSound dto e h = ground (arith, h, eq_iff dto.payload_type "", eq_iff dto.producer_id "")

is_version_1_lem : (v : Option Value) → is_version_1 v ≡ true → v ≡ some (int 1)
is_version_1_lem none h = cc
is_version_1_lem (some (int v)) h = rw ((nat_eq.same_iff v 1).0 h) refl
is_version_1_lem (some (Value.text s)) h = cc
is_version_1_lem (some (Value.bin s)) h = cc
is_version_1_lem (some Value.nil) h = cc

-- The dictionary that the bytes hold.
abbrev pub Holds : Codec → List ℕ → Fields → Type 0
Holds c raw fields =
    (packed : List ℕ) × (c.decompress raw ≡ some packed) × (c.unpackb packed ≡ some (dict fields))

validated-IsSound : (dto : Option EnvelopeV1) (e : EnvelopeV1) → validated dto ≡ ok e → IsSound e
unfolding validated
validated-IsSound none e h = cc
validated-IsSound (some dto) e h = rebuilt-IsSound dto e h

read_dict-IsSound :
    (c : Codec) (u : Option Unpacked) (e : EnvelopeV1)
    → read_dict c u ≡ ok e
    → ((fields : Fields) × (u ≡ some (dict fields))
        × (get fields "envelope_version" ≡ some (int 1)))
      × IsSound e
unfolding read_dict
read_dict-IsSound c none e h = cc
read_dict-IsSound c (some other) e h = cc
read_dict-IsSound c (some (dict fields)) e h =
    elim (Bool-cases (is_version_1 (get fields "envelope_version"))) [
      | inl v ↦ (
        (fields, refl, is_version_1_lem (get fields "envelope_version") v),
        validated-IsSound (c.model_validate fields) e (rw v at h),
      )
      | inr v ↦ absurd (ground (arith, v, h))
    ]

-- The version gate: bytes are only ever read if they hold a dictionary whose version is 1, and then
-- the envelope is of version 1 and its payload type and producer are not empty.
pub unpack-IsSound :
    (c : Codec) (raw : List ℕ) (e : EnvelopeV1)
    → unpack c raw ≡ ok e
    → ((fields : Fields) × Holds c raw fields × (get fields "envelope_version" ≡ some (int 1)))
      × IsSound e
unfolding unpack
unpack-IsSound c raw e h = elim (Option-cases (c.decompress raw)) [
  | inl fails ↦ cc
  | inr (packed, found) ↦
      let ((fields, unpacked, version), sound) =
        read_dict-IsSound c (c.unpackb packed) e (ap (read_packed c) (sym found) ∙ h) in
      ((fields, (packed, found, unpacked), version), sound)
]
