-- ===== src/Publish/Authenticity/Laws.antt =====
-- utils/publish/publish-authenticity.ts: what a verified status means, and that a signature is verified.
use Prim.Native.String.{◌∷◌ as ◌‚◌}
use Prim.Native.String.append
use governance_seatbelt.Prelude.{
  String, none, some, List, [], ◌∷◌, true, false, ◌==◌, string_eq, ok, ◌≡◌, refl, ap, ◌∙◌,
}
use governance_seatbelt.Text.{concat}
use governance_seatbelt.Json.{Json, Items, Fields, str, arr, obj, nil, cons, end, field}
use governance_seatbelt.Json.Read.{member, set_member, member-set_member}
use governance_seatbelt.Relay.Env.{Env, read_non_empty_env}
use governance_seatbelt.Publish.Authenticity.{
  PublishAuthenticityEnvelope, Crypto, verified, are_texts, given, build_signed_payload,
  sign_publish_metadata, verify_signature, verify_envelope, verify_texts, after_0x,
  verify_publish_metadata_signature, verify_given, signed_fields, envelope,
}

-- The envelope as a member of the metadata.
abbrev text_items : List String → Items
text_items [] = nil
text_items (text ∷ texts) = cons (str text) (text_items texts)

abbrev pub envelope_json : PublishAuthenticityEnvelope → Json
envelope_json e = obj (
    field "algorithm" (str e.algorithm) (
      field "key_id" (str e.key_id) (
        field "signature" (str e.signature)
          (field "signed_fields" (arr (text_items e.signed_fields)) end))))

abbrev pub attach : PublishAuthenticityEnvelope → Fields → Fields
attach e metadata = set_member "authenticity" (envelope_json e) metadata

after_0x-concat : (s : String) → after_0x (concat "0x" s) ≡ s
unfolding after_0x
after_0x-concat s = ap after_0x (
    append.cons "0" "x" s
    ∙ ap (λ t. "0" ‚ t) (append.cons "x" "" s ∙ ap (λ t. "x" ‚ t) (append.nil s)))

module _ (crypto : Crypto) where
  attach-payload :
      (e : PublishAuthenticityEnvelope) (metadata : Fields)
      → build_signed_payload crypto (attach e metadata) ≡ build_signed_payload crypto metadata
  unfolding build_signed_payload
  attach-payload e metadata =
      rw
        (
          other "publish_id" refl,
          other "published_at" refl,
          other "artifact_hash" refl,
          other "relay_version" refl,
        )
        refl
    where
      other :
          (name : String)
          → ("authenticity" == name) ≡ false
          → member name (attach e metadata) ≡ member name metadata
      other name differs =
          member-set_member "authenticity" name (envelope_json e) metadata ∙ rw differs refl

  -- Keys that belong together.
  pub record IsPair (secret : crypto.PrivateKey) (public : crypto.PublicKey) : Type 0 where
    pub checked : (text : String) → crypto.verify text public (crypto.sign text secret) ≡ some true
    pub hexadecimal : (text : String) → crypto.is_hex (concat "0x" (crypto.sign text secret)) ≡ true

  -- What verification reads back from an attached envelope.
  verify_attached :
      (e : PublishAuthenticityEnvelope) (metadata : Fields) (env : Env)
      → verify_publish_metadata_signature crypto (attach e metadata) env
        ≡ verify_texts crypto
            (attach e metadata)
            env
            (field "algorithm" (str e.algorithm) (
              field "key_id" (str e.key_id) (
                field "signature"
                  (str e.signature)
                  (field "signed_fields" (arr (text_items e.signed_fields)) end))))
            (some e.signature)
            (some e.key_id)
            (some e.algorithm)
  unfolding verify_publish_metadata_signature member
  verify_attached e metadata env =
      ap (λ m. verify_given crypto (attach e metadata) env (given m))
        (member-set_member "authenticity" "authenticity" (envelope_json e) metadata)

  read_attached :
      (e : PublishAuthenticityEnvelope) (metadata : Fields) (viewer : Env)
      → crypto.is_hex e.signature ≡ true
      → verify_envelope crypto metadata viewer
          (field "algorithm" (str e.algorithm) (
            field "key_id" (str e.key_id) (
              field "signature"
                (str e.signature)
                (field "signed_fields" (arr (text_items signed_fields)) end))))
          e.signature
          e.key_id
          "ed25519"
        ≡ verify_signature crypto metadata viewer e.key_id "ed25519" e.signature
  unfolding verify_envelope member are_texts
  read_attached e metadata viewer hex = rw hex refl

  verify_pair :
      (metadata : Fields) (viewer : Env) (key_id text public_pem : String)
      (secret : crypto.PrivateKey) (public : crypto.PublicKey)
      → IsPair secret public
      → build_signed_payload crypto metadata ≡ text
      → read_non_empty_env viewer "SEATBELT_PUBLISH_ED25519_PUBLIC_KEY" ≡ some public_pem
      → crypto.create_public_key public_pem ≡ some public
      → verify_signature crypto metadata viewer key_id "ed25519"
          (concat "0x" (crypto.sign text secret))
        ≡ record {
          status = verified;
          key_id = some key_id;
          algorithm = some "ed25519";
          reason = none;
        }
  unfolding verify_signature
  verify_pair metadata viewer key_id text public_pem secret public pair same views opened =
      rw (views, verify_signature)
        (rw opened (rw (after_0x-concat (crypto.sign text secret), same, pair.checked text) refl))

  -- What a relay signs, a viewer verifies: metadata that is signed with a private key is verified, under
  -- the same key id, wherever the public key of that pair is configured.
  pub verify_publish_metadata_signature-sign_publish_metadata :
      (metadata : Fields) (env viewer : Env) (secret_pem public_pem : String)
      (secret : crypto.PrivateKey) (public : crypto.PublicKey)
      → IsPair secret public
      → read_non_empty_env env "SEATBELT_PUBLISH_ED25519_PRIVATE_KEY" ≡ some secret_pem
      → crypto.create_private_key secret_pem ≡ some secret
      → read_non_empty_env viewer "SEATBELT_PUBLISH_ED25519_PUBLIC_KEY" ≡ some public_pem
      → crypto.create_public_key public_pem ≡ some public
      → (e : PublishAuthenticityEnvelope) × (sign_publish_metadata crypto metadata env
          ≡ ok (some e))
        × (verify_publish_metadata_signature crypto (attach e metadata) viewer ≡ record {
          status = verified;
          key_id = some e.key_id;
          algorithm = some "ed25519";
          reason = none;
        })
  unfolding sign_publish_metadata
  verify_publish_metadata_signature-sign_publish_metadata metadata env viewer secret_pem public_pem
        secret public pair signs made views opened =
      (
        envelope crypto env metadata secret,
        rw (signs, sign_publish_metadata) (rw made refl),
        verify_attached (envelope crypto env metadata secret) metadata viewer
            ∙ read_attached (envelope crypto env metadata secret)
                (attach (envelope crypto env metadata secret) metadata) viewer
                (pair.hexadecimal (build_signed_payload crypto metadata))
            ∙ verify_pair (attach (envelope crypto env metadata secret) metadata) viewer _
                (build_signed_payload crypto metadata) public_pem secret public pair
                (attach-payload (envelope crypto env metadata secret) metadata) views opened,
      )
