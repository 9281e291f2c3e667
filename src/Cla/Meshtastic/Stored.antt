-- ===== src/Cla/Meshtastic/Stored.antt =====
-- What the server does with one chunk of a bundle.
use dtn7_go.Base.{
  ℕ, ◌<◌, ◌≡◌, ◌∙◌, sym, ap, subst, refl, List, [], length, get_elem?, Option, none, some, get, set,
  remove, ℕ_discrete, arith, some-injective,
}
use dtn7_go.Cla.Meshtastic.Reassembly.{
  ReassemblyBuffer, Reassembly, Chunk, with_chunk, full_from, store_chunk,
}
use dtn7_go.Cla.Meshtastic.Chunks.{joined, chunk_of}
use dtn7_go.Cla.Meshtastic.Completed.{Chunks, AreChunksOf, set-AreChunksOf, full-joined}

abbrev pub held : Option ReassemblyBuffer → Chunks
held none = []
held (some rb) = rb.chunks

-- The buffer is of the bundle that has been cut into `all`.
pub record IsBufferOf (all : List (List ℕ)) (o : Option ReassemblyBuffer) : Type 0 where
  pub chunks_right : AreChunksOf all (held o)
  pub total_right : (rb : ReassemblyBuffer) → o ≡ some rb → rb.total_chunks ≡ length all

module _ (all : List (List ℕ)) (now id : ℕ) where
  abbrev pub numbered : ℕ → List ℕ → Chunk
  numbered i c = chunk_of id i (length all) c

  pub with_chunk-chunks :
      (i : ℕ) (c : List ℕ) (o : Option ReassemblyBuffer)
      → (with_chunk now (numbered i c) o).chunks ≡ set ℕ_discrete i c (held o)
  unfolding with_chunk set
  with_chunk-chunks i c none = refl
  with_chunk-chunks i c (some rb) = refl

  with_chunk-total :
      (i : ℕ) (c : List ℕ) (o : Option ReassemblyBuffer)
      → IsBufferOf all o
      → (with_chunk now (numbered i c) o).total_chunks ≡ length all
  unfolding with_chunk
  with_chunk-total i c none of = refl
  with_chunk-total i c (some rb) of = of.total_right rb refl

  pub with_chunk-IsBufferOf :
      (i : ℕ) (c : List ℕ) (o : Option ReassemblyBuffer)
      → IsBufferOf all o
      → get_elem? all i ≡ some c
      → IsBufferOf all (some (with_chunk now (numbered i c) o))
  with_chunk-IsBufferOf i c o of h = record {
    chunks_right =
        subst (AreChunksOf all) (sym (with_chunk-chunks i c o))
          (set-AreChunksOf all (held o) i c of.chunks_right h);
    total_right = λ rb e.
        ap (λ (b : ReassemblyBuffer). b.total_chunks) (sym (some-injective e))
        ∙ with_chunk-total i c o of;
  }

  -- Fewer chunks than the bundle has are kept.
  pub stored_incomplete :
      (i : ℕ) (c : List ℕ) (m : Reassembly)
      → IsBufferOf all (get ℕ_discrete id m)
      → length all < 256
      → length (set ℕ_discrete i c (held (get ℕ_discrete id m))) < length all
      → store_chunk now (numbered i c) m
        ≡ (set ℕ_discrete id (with_chunk now (numbered i c) (get ℕ_discrete id m)) m, none)
  unfolding store_chunk
  stored_incomplete i c m of few less =
      let o = get ℕ_discrete id m in
      ground (arith, with_chunk-chunks i c o, with_chunk-total i c o of, few, less)

  -- With the last chunk the buffer goes, and gives the bytes of the bundle.
  pub stored_complete :
      (i : ℕ) (c : List ℕ) (m : Reassembly)
      → IsBufferOf all (get ℕ_discrete id m)
      → length all < 256
      → get_elem? all i ≡ some c
      → length (set ℕ_discrete i c (held (get ℕ_discrete id m))) ≡ length all
      → store_chunk now (numbered i c) m ≡ (
        remove ℕ_discrete id
            (set ℕ_discrete id (with_chunk now (numbered i c) (get ℕ_discrete id m)) m),
        some (joined all),
      )
  unfolding store_chunk
  stored_complete i c m of few h enough =
      let o = get ℕ_discrete id m in
      let rb = with_chunk now (numbered i c) o in
      let full : full_from (rb.total_chunks) 0 (rb.chunks) ≡ joined all =
        ap (λ n. full_from n 0 (rb.chunks)) (with_chunk-total i c o of)
        ∙ full-joined all (rb.chunks) (with_chunk-IsBufferOf i c o of h).chunks_right
            (ap length (with_chunk-chunks i c o) ∙ enough) in
      ground (arith, full, with_chunk-chunks i c o, with_chunk-total i c o of, few, enough)
