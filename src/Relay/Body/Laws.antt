-- ===== src/Relay/Body/Laws.antt =====
-- relay/http.ts: what the reading of a body gives.
use native.Mathlib.Nat.{suc-add}
use governance_seatbelt.Prelude.{
  ℕ, String, Option, some, List, [], ◌∷◌, ◌++◌, Bool, true, false, ◌+◌, ◌≤◌, ltb, ◌≡◌, refl, ap,
  ◌∙◌, if◌then◌else◌, Result, ok, throw, ◌>>=◌, payload_too_large, length, All, arith, append_assoc,
  length-append, Bool-cases, inl, inr, ◌||◌,
}
use governance_seatbelt.Relay.Body.{
  Read, chunk, no_value, broken, read_chunks, zeros, set_bytes, merge_chunks, total, announces_more,
  merged, read_request_body,
}

-- All the bytes of a body.
unfoldable pub bytes_of : List Read → List ℕ
bytes_of [] = []
bytes_of (chunk bytes ∷ reads) = bytes ++ bytes_of reads
bytes_of (_ ∷ reads) = bytes_of reads

abbrev join : List (List ℕ) → List ℕ
join [] = []
join (bytes ∷ chunks) = bytes ++ join chunks

set_bytes_at_start :
    (n : ℕ) (bytes : List ℕ) → set_bytes (zeros (length bytes + n)) 0 bytes ≡ bytes ++ zeros n
unfolding set_bytes
set_bytes_at_start n [] = ap zeros (omega arith)
set_bytes_at_start n (b ∷ bytes) = rw suc-add (ap (λ xs. b ∷ xs) (set_bytes_at_start n bytes))

-- Writing after what is there.
set_bytes-append :
    (done bytes : List ℕ) (n : ℕ)
    → set_bytes (done ++ zeros (length bytes + n)) (length done) bytes ≡ done ++ (bytes ++ zeros n)
unfolding set_bytes
set_bytes-append [] bytes n = set_bytes_at_start n bytes
set_bytes-append (d ∷ done) bytes n = ap (λ xs. d ∷ xs) (set_bytes-append done bytes n)

merge_chunks-append :
    (done : List ℕ) (chunks : List (List ℕ))
    → merge_chunks (done ++ zeros (total chunks)) (length done) chunks ≡ done ++ join chunks
unfolding merge_chunks
merge_chunks-append done [] = refl
merge_chunks-append done (bytes ∷ chunks) = rw (set_bytes-append done bytes (total chunks)) (
    rw
      (
        ← append_assoc done bytes (zeros (total chunks)),
        ← append_assoc done bytes (join chunks),
        ← length-append done bytes,
      )
      (merge_chunks-append (done ++ bytes) chunks))

abbrev pub IsUnbroken : Read → Type 0
IsUnbroken broken = ⊥
IsUnbroken _ = Unit

prefixed :
    (bytes : List ℕ) (m : Result (List (List ℕ)))
    → ((m >>= λ chunks. ok (bytes ∷ chunks)) >>= λ chunks. ok (join chunks))
      ≡ ((m >>= λ chunks. ok (join chunks)) >>= λ rest. ok (bytes ++ rest))
prefixed bytes (ok chunks) = refl
prefixed bytes (throw e) = refl

-- The bytes, if they are not too many.
abbrev bounded : Bool → List ℕ → Result (List ℕ)
bounded over bytes = if over then throw payload_too_large else ok bytes

bounded_after :
    (over : Bool) (bytes rest : List ℕ)
    → (bounded over rest >>= λ r. ok (bytes ++ r)) ≡ bounded over (bytes ++ rest)
bounded_after true bytes rest = refl
bounded_after false bytes rest = refl

over_later :
    (max before : ℕ) (bytes rest : List ℕ)
    → ltb max (before + length bytes) ≡ true
    → ltb max (before + length (bytes ++ rest)) ≡ true
over_later max before bytes rest h = ground (arith, length-append bytes rest)

read_chunks_lem :
    (max before : ℕ) (reads : List Read)
    → All IsUnbroken reads
    → before ≤ max
    → (read_chunks max before reads >>= λ chunks. ok (join chunks))
      ≡ bounded (ltb max (before + length (bytes_of reads))) (bytes_of reads)
unfolding read_chunks bytes_of
read_chunks_lem max before [] h fits = ground arith
read_chunks_lem max before (chunk bytes ∷ reads) (u, h) fits =
    elim (Bool-cases (ltb max (before + length bytes))) [
      | inl over ↦ rw (over, over_later max before bytes (bytes_of reads) over) refl
      | inr under ↦ rw under (
          prefixed bytes (read_chunks max (before + length bytes) reads)
          ∙ ap (λ m. m >>= λ r. ok (bytes ++ r))
              (read_chunks_lem max (before + length bytes) reads h (ground arith))
          ∙ bounded_after _ bytes (bytes_of reads)
          ∙ ap (λ n. bounded (ltb max n) (bytes ++ bytes_of reads))
              (omega (arith, length-append bytes (bytes_of reads))))
    ]
read_chunks_lem max before (no_value ∷ reads) (u, h) fits = read_chunks_lem max before reads h fits
read_chunks_lem max before (broken ∷ reads) (u, h) fits = absurd u

decoded :
    (decode : List ℕ → String) (m : Result (List (List ℕ)))
    → (m >>= λ chunks. ok (merged decode chunks))
      ≡ ((m >>= λ chunks. ok (join chunks)) >>= λ bytes. ok (decode bytes))
decoded decode (throw e) = refl
decoded decode (ok chunks) = ap (λ bytes. ok (decode bytes)) (merge_chunks-append [] chunks)

decoded_bounded :
    (decode : List ℕ → String) (over : Bool) (bytes : List ℕ)
    → (bounded over bytes >>= λ b. ok (decode b))
      ≡ (if over then throw payload_too_large else ok (decode bytes))
decoded_bounded decode true bytes = refl
decoded_bounded decode false bytes = refl

-- A body whose reads all succeed is given back whole, decoded from its bytes in order, or refused as too
-- large: refused exactly if its length is announced as more than the limit or is more.
pub read_request_body_lem :
    (decode : List ℕ → String) (announced : Option ℕ) (reads : List Read) (max : ℕ)
    → All IsUnbroken reads
    → read_request_body decode (record { content_length = announced; body = some reads }) max ≡ (
        if announces_more announced max || ltb max (length (bytes_of reads))
        then throw payload_too_large
        else ok (decode (bytes_of reads)))
unfolding read_request_body
read_request_body_lem decode announced reads max unbroken =
    elim (Bool-cases (announces_more announced max)) [
      | inl more ↦ rw more refl
      | inr fits ↦ rw fits (
          decoded decode (read_chunks max 0 reads)
          ∙ ap (λ m. m >>= λ bytes. ok (decode bytes))
              (read_chunks_lem max 0 reads unbroken (omega arith))
          ∙ decoded_bounded decode (ltb max (0 + length (bytes_of reads))) (bytes_of reads)
          ∙ ap (λ n. if ltb max n then throw payload_too_large else ok (decode (bytes_of reads)))
              (omega arith))
    ]
