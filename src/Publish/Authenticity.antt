-- ===== src/Publish/Authenticity.antt =====
-- utils/publish/publish-authenticity.ts: the signature of publish metadata.
pub mod Laws
use Prim.Native.String.{[] as empty, ◌∷◌ as ◌‚◌}
use governance_seatbelt.Prelude.{
  String, Option, none, some, List, [], ◌∷◌, Bool, true, false, ◌&&◌, not, if◌then◌else◌, ◌==◌,
  string_eq, from_option, Result, ok, throw, ◌>>=◌, or_throw, external, map,
}
use governance_seatbelt.Text.{concat}
use governance_seatbelt.Json.{Json, Items, Fields, null, str, arr, obj, nil, cons, end, field}
use governance_seatbelt.Json.Read.{member, as_string}
use governance_seatbelt.Relay.Env.{Env, read_non_empty_env}

pub record PublishAuthenticityEnvelope : Type 0 where
  pub algorithm : String
  pub key_id : String
  pub signature : String
  pub signed_fields : List String

abbrev pub signed_fields : List String
signed_fields = "publish_id" ∷ "published_at" ∷ "artifact_hash" ∷ "relay_version" ∷ []

-- What the code uses of node:crypto, viem and the language, with signatures as hex digits: `none` where
-- a call throws.
pub record Crypto : Type 1 where
  pub PrivateKey : Type 0
  pub PublicKey : Type 0
  pub create_private_key : String → Option PrivateKey
  pub create_public_key : String → Option PublicKey
  pub sign : String → PrivateKey → String
  pub verify : String → PublicKey → String → Option Bool
  -- viem's `isHex`, in its strict form
  pub is_hex : String → Bool
  -- `String(value)`
  pub to_string : Json → String

pub data Status : Type 0 where
  verified unsigned invalid unconfigured : Status

pub record Verification : Type 0 where
  pub status : Status
  pub key_id : Option String
  pub algorithm : Option String
  pub reason : Option String

abbrev plain : Status → String → Verification
plain status reason = record {
  status = status;
  key_id = none;
  algorithm = none;
  reason = some reason;
}

abbrev invalid_signature : String → String → String → Verification
invalid_signature key_id algorithm reason = record {
  status = invalid;
  key_id = some key_id;
  algorithm = some algorithm;
  reason = some reason;
}

-- `signedFields[index] === field` for every index, and one length.
pub are_texts : Items → List String → Bool
are_texts nil [] = true
are_texts (cons (str s) items) (text ∷ texts) = s == text && are_texts items texts
are_texts _ _ = false

-- `Reflect.get` of an object or of an array, which has no such member.
abbrev pub members : Json → Option Fields
members (obj fields) = some fields
members (arr items) = some end
members _ = none

abbrev pub given : Option Json → Option Fields
given none = none
given (some value) = members value

-- `signatureValue.slice(2)`
pub after_0x : String → String
after_0x empty = ""
after_0x (c ‚ empty) = ""
after_0x (c ‚ (d ‚ s)) = s

module _ (crypto : Crypto) where
  -- `${field}=${String(value ?? '')}`
  abbrev payload_line : String → Option Json → String
  payload_line name none = concat name "="
  payload_line name (some null) = concat name "="
  payload_line name (some value) = concat name (concat "=" (crypto.to_string value))

  -- `lines.join('\n')`
  abbrev join_lines : List String → String
  join_lines [] = ""
  join_lines (line ∷ []) = line
  join_lines (line ∷ next ∷ lines) = concat line (concat "\n" (join_lines (next ∷ lines)))

  pub build_signed_payload : Fields → String
  build_signed_payload metadata =
      join_lines (map (λ name. payload_line name (member name metadata)) signed_fields)

  abbrev pub envelope : Env → Fields → crypto.PrivateKey → PublishAuthenticityEnvelope
  envelope env metadata private_key = record {
    algorithm = "ed25519";
    key_id = from_option "default" (read_non_empty_env env "SEATBELT_PUBLISH_ED25519_KEY_ID");
    signature = concat "0x" (crypto.sign (build_signed_payload metadata) private_key);
    signed_fields = signed_fields;
  }

  pub sign_publish_metadata : Fields → Env → Result (Option PublishAuthenticityEnvelope)
  sign_publish_metadata metadata env =
      elim (read_non_empty_env env "SEATBELT_PUBLISH_ED25519_PRIVATE_KEY") [
        | none ↦ ok none
        | some ed25519_private_key ↦ do
          private_key ←
              or_throw (external "createPrivateKey") (crypto.create_private_key ed25519_private_key)
          ok (some (envelope env metadata private_key))
      ]

  -- From the reading of the public key on.
  pub verify_signature : Fields → Env → String → String → String → Verification
  verify_signature metadata env key_id algorithm signature_value =
      elim (read_non_empty_env env "SEATBELT_PUBLISH_ED25519_PUBLIC_KEY") [
        | none ↦ plain unconfigured "Viewer authenticity verification is not configured."
        | some public_key_pem ↦ elim (crypto.create_public_key public_key_pem) [
          | none ↦ invalid_signature key_id algorithm "Publish signature verification failed."
          | some public_key ↦
              elim (crypto.verify (build_signed_payload metadata) public_key
                (after_0x signature_value)) [
                  | some true ↦ record {
                    status = verified;
                    key_id = some key_id;
                    algorithm = some algorithm;
                    reason = none;
                  }
                  | _ ↦ invalid_signature key_id algorithm "Publish signature verification failed."
                ]
        ]
      ]

  -- From the three texts on.
  pub verify_envelope : Fields → Env → Fields → String → String → String → Verification
  unfolding are_texts
  verify_envelope metadata env authenticity signature_value key_id algorithm =
      if not (algorithm == "ed25519")
      then invalid_signature key_id algorithm "Unsupported authenticity algorithm."
      else elim (member "signed_fields" authenticity) [
        | none ↦ invalid_signature key_id algorithm "Publish signed_fields payload is missing."
        | some (arr items) ↦
            if not (are_texts items signed_fields)
            then invalid_signature key_id algorithm
                "Unsupported signed_fields in authenticity payload."
            else if not (crypto.is_hex signature_value)
            then invalid_signature key_id algorithm "Publish signature is not valid hex."
            else verify_signature metadata env key_id algorithm signature_value
        | some _ ↦ invalid_signature key_id algorithm "Publish signed_fields payload is malformed."
      ]

  abbrev pub verify_texts :
      Fields → Env → Fields → Option String → Option String → Option String → Verification
  verify_texts metadata env authenticity (some signature_value) (some key_id) (some algorithm) =
      verify_envelope metadata env authenticity signature_value key_id algorithm
  verify_texts metadata env authenticity _ _ _ =
      plain invalid "Publish authenticity payload is malformed."

  -- By `metadata.authenticity`, if that is an object.
  abbrev pub verify_given : Fields → Env → Option Fields → Verification
  verify_given metadata env none = plain unsigned "Publish metadata is not signed."
  verify_given metadata env (some authenticity) =
      verify_texts metadata env authenticity (as_string (member "signature" authenticity))
        (as_string (member "key_id" authenticity)) (as_string (member "algorithm" authenticity))

  pub verify_publish_metadata_signature : Fields → Env → Verification
  verify_publish_metadata_signature metadata env =
      verify_given metadata env (given (member "authenticity" metadata))
