-- ===== src/Replication/Operation.antt =====
-- The replicated operation, its canonical encoding and its digest (replication/operation.go).
pub mod Roundtrip
use gantry_core.Base.{◌≡◌, Bool, ◌&&◌, not, String, Option, none, some, str_eq}
use gantry_core.Base.Int.{ℤ, pos, leb_ℤ}
use gantry_core.Base.Text.{trim_space}
use gantry_core.Base.Result.{Result, ok, err, ◌>>=◌, ◌>>◌, guard}
use gantry_core.Replication.Error.{
  Error, missing_id, missing_product, missing_kind, missing_object, missing_payload,
  unsupported_version, malformed_operation, malformed_payload,
}

-- `Version`
abbrev pub version : ℤ
version = pos 2

unfoldable pub supported_version : ℤ → Bool
supported_version v = leb_ℤ (pos 1) v && leb_ℤ v version

pub record CommittedMeta : Type 0 where
  pub timestamp : String

pub record Operation : Type 0 where
  pub id : String
  pub product : String
  pub version : ℤ
  pub kind : String
  pub object_kind : String
  pub object_id : String
  pub revision : ℤ
  pub domain_revision : ℤ
  pub payload : String
  pub origin_node : String
  pub actor : String
  pub committed : CommittedMeta

-- What the package takes from encoding/json and crypto/sha256: `json.Unmarshal` into `any` and
-- `json.Marshal` of the result, the hexadecimal SHA-256, `json.Marshal` and `json.Unmarshal` of an
-- operation, and `json.Unmarshal` into the value of a set.
pub record Codec (Bytes : Type 0) : Type 0 where
  pub normalize : String → Option String
  pub sha256_hex : String → String
  pub marshal : Operation → Bytes
  pub unmarshal : Bytes → Option Operation
  pub value_of : String → Option String

-- A payload that is its own canonical form.
abbrev pub IsCanonical : {Bytes : Type 0} → Codec Bytes → String → Type 0
IsCanonical c p = c.normalize p ≡ some p

-- What encoding/json documents: canonical text is a fixed point and is not blank, and an operation
-- whose payload is canonical is read back as it was written.
pub record IsLawful {Bytes : Type 0} (c : Codec Bytes) : Type 0 where
  pub normalize_canonical : (p q : String) → c.normalize p ≡ some q → IsCanonical c q
  pub normalize_visible :
      (p q : String) → c.normalize p ≡ some q → str_eq (trim_space q) "" ≡ Bool.false
  pub unmarshal_marshal :
      (o : Operation) → IsCanonical c o.payload → c.unmarshal (c.marshal o) ≡ some o

abbrev is_blank : String → Bool
is_blank s = str_eq (trim_space s) ""

-- The method `validate`.
unfoldable pub validate : Operation → Result Error (Unit {0})
unfolding supported_version
validate o = do
  guard (not (is_blank o.id)) missing_id
  guard (not (is_blank o.product)) missing_product
  guard (supported_version o.version) (unsupported_version o.version)
  guard (not (is_blank o.kind)) missing_kind
  guard (not (is_blank o.object_id)) missing_object
  guard (not (is_blank o.payload)) missing_payload

-- The committed metadata that `Encode` leaves: the clock is read only where no time is set.
unfoldable pub stamp : String → CommittedMeta → CommittedMeta
stamp now m = elim (str_eq m.timestamp "") [
  | Bool.true ↦ record { timestamp = now }
  | Bool.false ↦ m
]

module _ {Bytes : Type 0} (c : Codec Bytes) where
  unfoldable pub normalize_json : String → Result Error String
  normalize_json raw = elim (c.normalize raw) [ none ↦ err malformed_payload | some p ↦ ok p ]

  -- The method `Digest`.
  unfoldable pub digest : Operation → Result Error String
  unfolding normalize_json
  digest o = do p ← normalize_json o.payload; ok (c.sha256_hex p)

  -- The method `Encode`, with the receiver that it leaves behind. `now` is the clock's text.
  unfoldable pub encode : String → Operation → Result Error (Operation × Bytes)
  unfolding validate normalize_json stamp
  encode now o = do
    validate o
    p ← normalize_json o.payload
    let o' = record o { payload = p; committed = stamp now o.committed }
    ok (o', c.marshal o')

  unfoldable pub decode_operation : Bytes → Result Error Operation
  unfolding validate
  decode_operation b = elim (c.unmarshal b) [
    | none ↦ err malformed_operation
    | some o ↦ do validate o; ok o
  ]
