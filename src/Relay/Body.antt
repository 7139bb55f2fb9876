-- ===== src/Relay/Body.antt =====
-- relay/http.ts: the reading of a body, up to a limit.
pub mod Laws
use governance_seatbelt.Prelude.{
  ℕ, zero, suc, String, Option, none, some, List, [], ◌∷◌, ◌++◌, Bool, true, false, ◌+◌, ltb,
  if◌then◌else◌, Result, ok, throw, ◌>>=◌, payload_too_large, length, external,
}

-- `reader.read()`: some bytes, no value, an error, or (at the end of the list) done.
pub data Read : Type 0 where
  chunk : List ℕ → Read
  no_value : Read
  broken : Read

-- A request or a response: `Math.ceil(Number(…))` of its `content-length`, where that is a finite and
-- positive number, and its body.
pub record Message : Type 0 where
  pub content_length : Option ℕ
  pub body : Option (List Read)

-- The loop: the chunks that are kept.
pub read_chunks : ℕ → ℕ → List Read → Result (List (List ℕ))
read_chunks max_body_bytes total_bytes [] = ok []
read_chunks max_body_bytes total_bytes (broken ∷ reads) = throw (external "reader.read")
read_chunks max_body_bytes total_bytes (no_value ∷ reads) =
    read_chunks max_body_bytes total_bytes reads
read_chunks max_body_bytes total_bytes (chunk bytes ∷ reads) =
    let rest = read_chunks max_body_bytes (total_bytes + length bytes) reads in
    if ltb max_body_bytes (total_bytes + length bytes)
    then throw payload_too_large
    else (do chunks ← rest; ok (bytes ∷ chunks))

-- `new Uint8Array(n)`
abbrev pub zeros : ℕ → List ℕ
zeros zero = []
zeros (suc n) = 0 ∷ zeros n

-- `merged.set(chunk, writeOffset)`
pub set_bytes : List ℕ → ℕ → List ℕ → List ℕ
set_bytes merged zero [] = merged
set_bytes (b ∷ merged) zero (c ∷ bytes) = c ∷ set_bytes merged zero bytes
set_bytes (b ∷ merged) (suc offset) bytes = b ∷ set_bytes merged offset bytes
set_bytes [] offset bytes = []

pub merge_chunks : List ℕ → ℕ → List (List ℕ) → List ℕ
unfolding set_bytes
merge_chunks merged write_offset [] = merged
merge_chunks merged write_offset (bytes ∷ chunks) =
    merge_chunks (set_bytes merged write_offset bytes) (write_offset + length bytes) chunks

abbrev pub total : List (List ℕ) → ℕ
total [] = 0
total (bytes ∷ chunks) = length bytes + total chunks

abbrev pub announces_more : Option ℕ → ℕ → Bool
announces_more none max_body_bytes = false
announces_more (some content_length) max_body_bytes = ltb max_body_bytes content_length

module _ (decode : List ℕ → String) where
  abbrev pub merged : List (List ℕ) → String
  merged chunks = decode (merge_chunks (zeros (total chunks)) 0 chunks)

  -- With `TextDecoder.decode`.
  pub read_request_body : Message → ℕ → Result String
  unfolding read_chunks merge_chunks
  read_request_body message max_body_bytes =
      if announces_more message.content_length max_body_bytes
      then throw payload_too_large
      else elim message.body [
        | none ↦ ok ""
        | some reads ↦ do chunks ← read_chunks max_body_bytes 0 reads; ok (merged chunks)
      ]
