-- ===== src/Lib.antt =====
-- The verification library of the governance seatbelt, which simulates governance proposals on
-- their source chain and on the destination chains that they send messages to, runs checks on what
-- the simulations report, gates proposals that depend on others, and publishes the reports through
-- a relay.
--
-- How the parts interact. A bridge's parser extracts destination jobs from the calls of a proposal.
-- The execution engine orders the jobs, finds a block of each destination chain, and runs the calls
-- of each job on the state that the jobs before have left; after each call it extracts the
-- overrides of the simulation and merges them into that state. The checks run on each simulation
-- under time limits, their results are merged, and the gate decides from them whether a dependent
-- proposal may go on. A report is an artifact that is sent to the relay, which limits the requests
-- of a client, reads and validates the artifact, publishes each key and artifact once, and keeps
-- where it was published. Beside this, the relay's simulation gateway hands the requests of users
-- with an access code on to the RPC endpoints and the explorer, within quotas.
--
-- Which file models which part:
--   State                 utils/derived-state.ts: normalizeStateObjects, mergeStateObjects
--   Derived/Extract       utils/derived-state.ts: extractStateOverridesFromSimulation
--   Derived/Gate          utils/derived-state.ts: evaluateDependencyOutcome
--   Simulation, Checks, CrossChain   types.d.ts: the data that the parts exchange
--   Chains                utils/chains/capabilities.ts
--   Engine                utils/cross-chain/tenderly-execution-engine.ts: handleCrossChainSimulations
--                         (Run), executeDestinationJob (Job) and the order of the jobs (Sorting)
--   Engine/Env            utils/bridges/adapter.ts, and the engine's collaborators as parameters
--   Retry, BlockSearch    utils/bridges/wormhole-execution.ts: withDestinationSetupRetry and
--                         findBlockNumberAtOrBeforeTimestamp
--   Wormhole/Lane, Wormhole/Matrix   utils/bridges/wormhole-support.ts
--   Wormhole/Capabilities, Wormhole/Parser   utils/bridges/wormhole.ts
--   Wormhole/Receiver     utils/cross-chain/wormhole-receiver-sim.ts
--   Wormhole/Execution    utils/bridges/wormhole-execution.ts: prepareWormholeExecution
--   LayerZero             utils/bridges/layerzero.ts
--   LayerZero/Execution   utils/bridges/layerzero-execution.ts
--   Arbitrum              utils/bridges/arbitrum.ts
--   PolygonFx             utils/bridges/polygon-fx.ts
--   CheckRunner           utils/check-runner.ts
--   CheckResults, Json    utils/check-results.ts
--   Publish/Authenticity, Publish/Artifact   utils/publish/publish-authenticity.ts and
--                         utils/publish/artifact-validator.ts
--   Relay/Env, Relay/Config   utils/env.ts, and relay/server.ts: the configuration of the relay
--   Relay/RateLimit, Relay/Bounded, Relay/Idempotency, Relay/Lookup   relay/server.ts: the rate
--                         limit of a client, bounded maps, publications under way and complete,
--                         and their stores, over the commands of Relay/Redis (relay/redis.ts)
--   Relay/Body            relay/http.ts: the reading of a request's body
--   Relay/Payload, Relay/Execution   relay/server.ts: what a request asks for, and the outcome of a
--                         publication
--   Relay/Handler         relay/server.ts: createRelayFetchHandler, with its routes in Handler/Routing
--   Relay/Quota, Relay/Gateway   relay/simulation-gateway.ts: the quotas' script, and
--                         createSimulationGateway, with what is asked of the provider in
--                         Gateway/Planning
--   Relay/Vercel          relay/vercel-runtime-publisher.ts: from the created deployment to its
--                         addresses
--   Json/Read             reading members of JSON values
--   Dict, Dedupe, Text, Exec, Viem   what the code uses of JavaScript and of viem
--   Tests                 concrete inputs
--
-- How state is modelled. JavaScript objects and maps are lists of keys and values in insertion
-- order; a missing key or an absent field is `none`. Code that throws returns a `Result`, code that
-- also reads and writes what lies outside it (the runtime store of the adapters, the chains behind
-- the RPC endpoints) is a function of `Exec`, from a state to a result and a state. Numbers are
-- natural numbers; the code's bigints that are modelled never become negative, but for the upper
-- bound of the block search, which the model keeps one higher. The relay's handler is cut where it
-- awaits a publication: a request and the end of a publication are events, and the relay is a step
-- function on its state, so that theorems on runs are about every interleaving.
--
-- Fuel. The block search recurses on the length of the interval that is left, which shrinks in
-- every round. The retries for an alias have one round for each millisecond of their budget and one
-- more, which is enough if each round but the last sleeps for a millisecond or longer. All other
-- loops are structural.
--
-- Parameters. viem's getAddress, isHex, encoders and decoders, the simulation client, the RPC
-- client, the treasury configuration, the clock and the timers are arguments; so are, for the
-- relay, the publisher, the database, fetch, node's crypto, and the reading and printing of JSON
-- and of numbers. What a theorem assumes of them is among its hypotheses.
--
-- Not modelled: logging, report texts, command line and files, the network clients, the parser for
-- Optimism, the request for a deployment and its landing page, the single checks and the frontend.
pub mod Arbitrum
pub mod BlockSearch
pub mod Chains
pub mod CheckResults
pub mod CheckRunner
pub mod Checks
pub mod CrossChain
pub mod Dedupe
pub mod Derived
pub mod Dict
pub mod Engine
pub mod Exec
pub mod Json
pub mod LayerZero
pub mod PolygonFx
pub mod Prelude
pub mod Publish
pub mod Relay
pub mod Retry
pub mod Simulation
pub mod State
pub mod Tests
pub mod Text
pub mod Viem
pub mod Wormhole
