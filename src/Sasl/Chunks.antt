-- ===== src/Sasl/Chunks.antt =====
-- parser/sasl.go: the chunks in which the handler sends its data.
use ircparser.Base.{
  ℕ, zero, suc, ◌-◌, ◌≤◌, ◌<◌, ◌≡◌, refl, sym, ap, ◌∙◌, true, List, [], ◌∷◌, ◌++◌, map,
  append_assoc, append-nil, Bytes, codes, Option, none, ltb, leb, if◌then◌else◌, length, take, drop,
  arith, All, leb→le, Bool-cases, inl, inr,
}
use ircparser.Output.{Output, sent}
use ircparser.Sasl.{
  is_empty, SaslError, SaslHandler, send, send_chunk, check_sent, send_chunks, send_auth_data,
}

-- The AUTHENTICATE line with a payload.
abbrev pub auth_line : Bytes → Output
auth_line payload = sent (codes "AUTHENTICATE" ∷ payload ∷ [])

abbrev pub concat : List Bytes → Bytes
concat [] = []
concat (b ∷ bs) = b ++ concat bs

take-++-drop : (n : ℕ) (b : Bytes) → take n b ++ drop n b ≡ b
take-++-drop zero b = refl
take-++-drop (suc n) [] = refl
take-++-drop (suc n) (x ∷ b) = ap (λ r. x ∷ r) (take-++-drop n b)

length-take : (n : ℕ) (b : Bytes) → n ≤ length b → length (take n b) ≡ n
length-take zero b h = refl
length-take (suc n) [] h = ground arith
length-take (suc n) (x ∷ b) h = ap suc (length-take n b (ground arith))

length-drop : (n : ℕ) (b : Bytes) → length (drop n b) ≡ length b - n
length-drop zero b = ground arith
length-drop (suc n) [] = ground arith
length-drop (suc n) (x ∷ b) = length-drop n b ∙ ground arith

-- The lines of a run over the data.
abbrev pub AreChunks : ℕ → Bytes → List Bytes → Type 0
AreChunks size bytes chunks =
    (concat chunks ≡ bytes) × All (λ c. (0 < length c) × (length c ≤ size)) chunks

-- The line "+" that follows the chunks: none when the data is not empty and fits into one.
abbrev pub closing : ℕ → Bytes → List Bytes
closing size bytes =
    if is_empty bytes
    then codes "+" ∷ []
    else if leb (length bytes) size
    then []
    else codes "+" ∷ []

map-++ : (xs ys : List Bytes) → map auth_line (xs ++ ys) ≡ map auth_line xs ++ map auth_line ys
map-++ [] ys = refl
map-++ (x ∷ xs) ys = ap (λ r. auth_line x ∷ r) (map-++ xs ys)

module _ (send_error : List Output → List Bytes → Option Bytes) (describe : SaslError → Bytes)
    (accepts : (o : List Output) (line : List Bytes) → send_error o line ≡ none) where
  send_lem :
      (sh : SaslHandler) (line : List Bytes)
      → send send_error describe sh line
        ≡ (record sh { output = sh.output ++ sent line ∷ [] }, none)
  unfolding send
  send_lem sh line = rw (accepts sh.output line, send) refl

  send_chunk_lem :
      (sh : SaslHandler) (chunk : Bytes)
      → send_chunk send_error describe sh chunk
        ≡ (record sh { output = sh.output ++ auth_line chunk ∷ [] }, true)
  unfolding send_chunk check_sent
  send_chunk_lem sh chunk = ap check_sent (send_lem sh (codes "AUTHENTICATE" ∷ chunk ∷ []))

  -- The size of the next chunk.
  next_size : ℕ → Bytes → ℕ
  next_size size bytes = if ltb (length bytes) size then length bytes else size

  one_round :
      (n : ℕ) (sh : SaslHandler) (b : ℕ) (bs : Bytes)
      → send_chunks send_error describe (suc n) sh (b ∷ bs)
        ≡ send_chunks send_error describe n
            (record sh {
              output =
                  sh.output
                  ++ auth_line (take (next_size sh.max_chunk_size (b ∷ bs)) (b ∷ bs)) ∷ [];
            })
            (drop (next_size sh.max_chunk_size (b ∷ bs)) (b ∷ bs))
  unfolding send_chunks next_size
  one_round n sh b bs =
      rw (send_chunk_lem sh (take (next_size sh.max_chunk_size (b ∷ bs)) (b ∷ bs))) refl

  next_size_lem :
      (size : ℕ) (b : ℕ) (bs : Bytes)
      → 0 < size
      → (0 < next_size size (b ∷ bs))
        × (next_size size (b ∷ bs) ≤ size)
        × (next_size size (b ∷ bs) ≤ length (b ∷ bs))
  unfolding next_size
  next_size_lem size b bs h = (ground arith, ground arith, ground arith)

  send_chunks_lem :
      (n : ℕ) (sh : SaslHandler) (bytes : Bytes)
      → length bytes ≤ n
      → 0 < sh.max_chunk_size
      → (chunks : List Bytes) × (send_chunks send_error describe n sh bytes
          ≡ (record sh { output = sh.output ++ map auth_line chunks }, true))
        × AreChunks sh.max_chunk_size bytes chunks
  unfolding send_chunks
  send_chunks_lem zero sh [] h p =
      ([], ap (λ o. (record sh { output = o }, true)) (sym (append-nil sh.output)), (refl, tt))
  send_chunks_lem zero sh (b ∷ bs) h p = ground arith
  send_chunks_lem (suc n) sh [] h p =
      ([], ap (λ o. (record sh { output = o }, true)) (sym (append-nil sh.output)), (refl, tt))
  send_chunks_lem (suc n) sh (b ∷ bs) h p =
      let k = next_size sh.max_chunk_size (b ∷ bs) in
      let (k0, k1, k2) = next_size_lem sh.max_chunk_size b bs p in
      let sh' = record sh { output = sh.output ++ auth_line (take k (b ∷ bs)) ∷ [] } in
      let shorter : length (drop k (b ∷ bs)) ≤ n = rw (length-drop k (b ∷ bs)) (omega arith) in
      let (chunks, run, (whole, sizes)) = send_chunks_lem n sh' (drop k (b ∷ bs)) shorter p in
      (
        take k (b ∷ bs) ∷ chunks,
        one_round n sh b bs
            ∙ run
            ∙ ap (λ o. (record sh { output = o }, true))
                (append_assoc sh.output (auth_line (take k (b ∷ bs)) ∷ []) (map auth_line chunks)),
        (
          ap (λ r. take k (b ∷ bs) ++ r) whole ∙ take-++-drop k (b ∷ bs),
          (rw (length-take k (b ∷ bs) k2) (k0, k1), sizes),
        ),
      )

  -- On a connection that takes every line, and with a positive maximal size, the handler sends the
  -- whole of its data in chunks of at most that size, none of them empty, and then "+", unless the
  -- data is not empty and fits into one chunk.
  pub send_auth_data_lem :
      (sh : SaslHandler) (bytes : Bytes)
      → 0 < sh.max_chunk_size
      → (chunks : List Bytes) × (send_auth_data send_error describe sh bytes ≡ record sh {
        output = sh.output ++ map auth_line (chunks ++ closing sh.max_chunk_size bytes);
      })
        × AreChunks sh.max_chunk_size bytes chunks
  unfolding send_auth_data
  send_auth_data_lem sh [] p = ([], ap (λ r. r.0) (send_chunk_lem sh (codes "+")), (refl, tt))
  send_auth_data_lem sh (b ∷ bs) p = elim (Bool-cases (leb (length (b ∷ bs)) sh.max_chunk_size)) [
    | inl fits ↦ rw fits (
      (b ∷ bs) ∷ [],
      ap (λ r. r.0) (send_chunk_lem sh (b ∷ bs)),
      (append-nil (b ∷ bs), ((ground arith, leb→le _ _ fits), tt)),
    )
    | inr over ↦
        let (chunks, run, pieces) = send_chunks_lem (length (b ∷ bs)) sh (b ∷ bs) (omega arith) p in
        let sh' = record sh { output = sh.output ++ map auth_line chunks } in
        rw (over, run, send_chunk_lem sh' (codes "+"))
          (
            chunks,
            ap (λ o. record sh { output = o })
                (append_assoc sh.output (map auth_line chunks) _
                  ∙ ap (λ r. sh.output ++ r) (sym (map-++ chunks _))),
            pieces,
          )
  ]
