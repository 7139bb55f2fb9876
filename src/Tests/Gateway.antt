-- ===== src/Tests/Gateway.antt =====
-- The simulation gateway and the signatures of publications, on concrete inputs.
use governance_seatbelt.Prelude.{
  ℕ, suc, String, none, some, List, [], ◌∷◌, true, false, ◌≡◌, refl, arith, ok, nat_eq, string_eq,
  ◌==◌, if◌then◌else◌, eq_refl, ap, from_option,
}
use governance_seatbelt.Text.{concat, trim}
use governance_seatbelt.Dict.{Dict, lookup, put}
use governance_seatbelt.Dict.Laws.{lookup-put_same, lookup-put_other}
use governance_seatbelt.Json.{Json, Fields, str, num, arr, obj, nil, cons, end, field}
use governance_seatbelt.Relay.Env.{Env, read_non_empty_env}
use governance_seatbelt.Publish.Authenticity.{
  Crypto, PublishAuthenticityEnvelope, verified, sign_publish_metadata,
  verify_publish_metadata_signature,
}
use governance_seatbelt.Publish.Authenticity.Laws.{
  IsPair, attach, verify_publish_metadata_signature-sign_publish_metadata,
}
use governance_seatbelt.Relay.Quota.{Limit, Redis, quota_script}
use governance_seatbelt.Relay.Quota.Laws.{IsRedis, IsQuota, quota_script-IsQuota}
use governance_seatbelt.Json.Read.{member, only_members, count_items, item_at}
use governance_seatbelt.Relay.Gateway.Planning.{present, configured_rpc, Numbers, plan_of}
use governance_seatbelt.Relay.Gateway.Planning.Laws.{AreLimited, plan_of-AreLimited}
use governance_seatbelt.Relay.Gateway.{Machine, Request, World, gateway}
use governance_seatbelt.Relay.Gateway.Laws.{IsGuarded, gateway-IsGuarded}

-- Redis as a map of counters that do not expire.
abbrev counter : String → Dict String ℕ → ℕ
counter key s = from_option 0 (lookup key s)

abbrev redis : Redis (Dict String ℕ)
redis = record {
  get = counter;
  ttl = λ key s. 60;
  incr = λ key s. (suc (counter key s), put key (suc (counter key s)) s);
  expire = λ key seconds s. s;
}

redis-IsRedis : IsRedis redis
redis-IsRedis = record {
  get_incr = λ key s. ap (from_option 0) (lookup-put_same key (suc (counter key s)) s);
  get_incr_other = λ key other s differ.
      ap (from_option 0) (lookup-put_other key other (suc (counter key s)) s differ);
  get_expire = λ key other seconds s later. refl;
}

abbrev limits : List Limit
limits =
    record { key = "seatbelt:gateway:day"; seconds = 86400; count = 100 }
    ∷ record { key = "seatbelt:gateway:minute"; seconds = 60; count = 10 }
    ∷ []

abbrev counters : Dict String ℕ
counters = ("seatbelt:gateway:day", 20) ∷ ("seatbelt:gateway:minute", 9) ∷ []

quota_script-IsQuota_example : IsQuota redis limits counters (quota_script redis limits counters)
quota_script-IsQuota_example =
    quota_script-IsQuota redis redis-IsRedis limits counters (omega arith, (omega arith, tt))
      (refl, (refl, tt))

abbrev env : Env
env =
    (
      "SEATBELT_ACCESS_CODE_SHA256",
      "aaaaaaaaaaaaaaaaaaaaaaaaaaaaaaaaaaaaaaaaaaaaaaaaaaaaaaaaaaaaaaaa",
    )
    ∷ ("UPSTASH_REDIS_REST_URL", "https://redis")
    ∷ ("UPSTASH_REDIS_REST_TOKEN", "token")
    ∷ ("QUICKNODE_RPC_URL", "https://node")
    ∷ []

abbrev numbers : Numbers
numbers = record {
  natural = λ text. if text == "1" then some 1 else none;
  safe_integer = λ text. none;
}

abbrev payload : Json
payload = obj (
    field "chainId" (num "1") (
      field "method" (str "eth_call") (
        field "params" (arr (cons (obj (field "to" (str "0x") end)) (cons (str "latest") nil)))
          end)))

plan_of-AreLimited_example : AreLimited numbers env (plan_of numbers env true payload)
plan_of-AreLimited_example = plan_of-AreLimited numbers env payload

abbrev machine : Machine
machine = record {
  sha256 = λ text. "aaaaaaaaaaaaaaaaaaaaaaaaaaaaaaaaaaaaaaaaaaaaaaaaaaaaaaaaaaaaaaaa";
  gzip_size = λ value. 100;
  error_code = λ code. num "-32603";
}

-- A world that counts how often it is asked.
abbrev world : World ℕ
world = record {
  run_quota_script = λ asked s. (ok 0, suc s);
  fetch =
      λ upstream s. (some (record { status = 200; is_ok = true; data_ = some (obj end) }), suc s);
}

abbrev call : Request
call = record {
  method = "POST";
  authorization = some "Bearer 0123456789abcdef0123456789";
  route = "/api/v1/rpc";
  payload = (false, some payload);
}

gateway-IsGuarded_example :
    IsGuarded machine numbers env world call 0 (gateway machine numbers env world call 0)
gateway-IsGuarded_example = gateway-IsGuarded machine numbers env world call 0

-- The request is authorized, and both the quotas and the provider are asked.
gateway_asks_test : (gateway machine numbers env world call 0).1 ≡ 2
unfolding gateway present lookup member only_members count_items item_at trim plan_of configured_rpc
gateway_asks_test = refl

-- Keys that are their own texts, and signatures that name the key.
abbrev crypto : Crypto
crypto = record {
  PrivateKey = String;
  PublicKey = String;
  create_private_key = λ pem. some pem;
  create_public_key = λ pem. some pem;
  sign = λ text key. concat key text;
  verify = λ text key signature. some (signature == concat key text);
  is_hex = λ text. true;
  to_string = λ value. "";
}

abbrev signing_env : Env
signing_env = ("SEATBELT_PUBLISH_ED25519_PRIVATE_KEY", "key") ∷ []

abbrev viewer_env : Env
viewer_env = ("SEATBELT_PUBLISH_ED25519_PUBLIC_KEY", "key") ∷ []

abbrev metadata : Fields
metadata = field "publish_id" (str "1") (
    field "published_at" (str "2")
      (field "artifact_hash" (str "3") (field "relay_version" (str "4") end)))

same_key : IsPair crypto "key" "key"
same_key = record {
  checked = λ text. ap some (eq_refl (concat "key" text));
  hexadecimal = λ text. refl;
}

verify_publish_metadata_signature-sign_publish_metadata_example :
    (e : PublishAuthenticityEnvelope) × (sign_publish_metadata crypto metadata signing_env
      ≡ ok (some e))
    × (verify_publish_metadata_signature crypto (attach e metadata) viewer_env ≡ record {
      status = verified;
      key_id = some e.key_id;
      algorithm = some "ed25519";
      reason = none;
    })
unfolding read_non_empty_env lookup trim
verify_publish_metadata_signature-sign_publish_metadata_example =
    verify_publish_metadata_signature-sign_publish_metadata crypto metadata signing_env viewer_env
      "key" "key" "key" "key" same_key refl refl refl refl
