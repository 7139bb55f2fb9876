-- ===== src/Prelude/Results.antt =====
-- Code that may throw returns a `Result`; each exception of the source is a constructor.
use Prim.Native.Nat.{ℕ}
use Prim.Native.String.{String}
use mathlib.Core.Path.{◌≡◌, refl}
use mathlib.Core.Option.{Option, none, some}

pub data Exception : Type 0 where
  -- thrown by viem's `getAddress`
  invalid_address : String → Exception
  -- utils/cross-chain/tenderly-execution-engine.ts: "Nonzero receiver message value is unsupported …"
  nonzero_receiver_value : ℕ → Exception
  -- utils/bridges/wormhole.ts: "Unsupported Wormhole chain id …"
  unsupported_wormhole_chain : ℕ → Exception
  -- "Unsupported Wormhole chain id … in proposal calldata index …"
  unsupported_wormhole_call : ℕ → ℕ → Exception
  -- a lane's receiver or legacy fields that are missing or of the wrong form
  invalid_wormhole_lane : Option ℕ → Exception
  -- utils/bridges/wormhole-execution.ts: "Missing …", "Invalid legacy Wormhole receiver sequence …"
  missing_sequence invalid_sequence : Exception
  -- utils/cross-chain/wormhole-receiver-sim.ts: "Invalid Wormhole message timestamp …"
  invalid_message_timestamp : ℕ → Exception
  -- utils/bridges/layerzero.ts, each with the index of the proposal's call
  bad_remote_address malformed_set_trusted_remote malformed_execute : ℕ → Exception
  unsupported_remote_chain undecodable_payload empty_payload : ℕ → ℕ → Exception
  malformed_payload_call : ℕ → Exception
  -- utils/bridges/layerzero-execution.ts
  missing_trusted_remote ambiguous_trusted_remote : Exception
  trusted_remote_read_failed trusted_remote_mismatch : Exception
  -- relay/server.ts: "… must be a positive integer when set"
  invalid_setting : String → String → Exception
  -- relay/redis.ts: "Relay storage request failed"
  storage_failed : Exception
  -- relay/http.ts: "PAYLOAD_TOO_LARGE"
  payload_too_large : Exception
  -- relay/vercel-runtime-publisher.ts: "Relay publish is missing required environment variables …"
  missing_vercel_env : Exception
  -- thrown by any other code outside the repository
  external : String → Exception

pub data Result (A : Type 0) : Type 0 where
  throw : Exception → Result A
  ok : A → Result A

module _ {A B : Type 0} where
  -- An exception ends the code that follows.
  infixl 5 ◌>>=◌
  abbrev pub ◌>>=◌ : Result A → (A → Result B) → Result B
  throw e >>= go_on = throw e
  ok a >>= go_on = go_on a

  pub >>=-eq-ok :
      (m : Result A) (go_on : A → Result B) {b : B}
      → (m >>= go_on) ≡ ok b
      → (a : A) × (m ≡ ok a) × (go_on a ≡ ok b)
  >>=-eq-ok (throw e) go_on h = cc
  >>=-eq-ok (ok a) go_on h = (a, refl, h)

-- The value of a call that throws on `none`.
abbrev pub or_throw : {A : Type 0} → Exception → Option A → Result A
or_throw e (some a) = ok a
or_throw e none = throw e

pub ok-injective : {A : Type 0} {a b : A} → ok a ≡ ok b → a ≡ b
ok-injective h = cc
