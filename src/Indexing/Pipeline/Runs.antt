-- ===== src/Indexing/Pipeline/Runs.antt =====
-- What a run of the pipeline does to the database, and what its result says.
use doc_search_ai.Indexing.Chunker.Chunks.{IsChunk, chunk_total}
use doc_search_ai.Indexing.Chunker.Windows.{IsValid}
use doc_search_ai.Indexing.Pipeline.{
  IndexingPipeline, IndexingResult, run, all_chunks, on_storage, on_vectors, write_vectors,
}
use doc_search_ai.Indexing.Chunker.{CharacterChunker, chunk}
use doc_search_ai.Retrieval.Upsert.{UpsertLaws, OfJob, upsert_chunks, upsert_chunks_sound}
use doc_search_ai.Retrieval.Filters.{Payload}
use doc_search_ai.Jobs.Base.{IndexDocumentJob}
use doc_search_ai.Parsers.{ParsedDocument, Bytes}
use doc_search_ai.Steps.{OnRaise, continue-eq-ok, continue-keeps, lift, continue, pure}
use doc_search_ai.Errors.{Raises}
use doc_search_ai.Text.{Text}
use doc_search_ai.Common.{
  ◌≡◌, refl, ok, raise, some, length, All, inl, inr, List, ap, Option-cases, sym, ◌∙◌, ok-injective,
  run-cases, All-mono, ◌⊎◌,
}

write_vectors-ok :
    {Db W : Type 0} (r : Raises Db) (s : Db × W) {u : Unit {0}} {t : Db × W}
    → write_vectors r s ≡ (ok u, t)
    → r ≡ ok t.0
write_vectors-ok (ok db) s h = ap (λ p. ok p.1.0) h
write_vectors-ok (raise e) s h = absurd cc

write_vectors-keeps :
    {Db W A : Type 0} (a : A) (r : Raises Db) (s : Db × W) (x : Db)
    → s.0 ≡ x
    → OnRaise
        (continue (λ _. pure a) (write_vectors r s))
        ((continue (λ _. pure a) (write_vectors r s)).1.0 ≡ x)
write_vectors-keeps a (ok db) s x h = tt
write_vectors-keeps a (raise e) s x h = h

-- With a chunker that was made, the step that cuts the text never fails.
pub all_chunks-total :
    (c : CharacterChunker) (t : Text)
    → IsValid c
    → (chunks : List Text) × (all_chunks c t ≡ ok chunks) × All (IsChunk c) chunks
unfolding all_chunks
all_chunks-total c t valid =
    let (chunks, e, all) = chunk_total c t valid in (chunks, rw (all_chunks, e) refl, all)

module _ {F Db W : Type 0} (pipeline : IndexingPipeline F Db W) where
  -- The stored file was read, parsed, cut and embedded, and the chunks went to the database.
  pub record Indexed (job : IndexDocumentJob) (db : Db) (world : W) (result : IndexingResult F)
      (t : Db × W) : Type 0 where
    pub bytes : Bytes
    pub parsed : ParsedDocument
    pub downloaded : (pipeline.storage_service.download_document job.storage_key world).0 ≡ ok bytes
    pub readable : pipeline.parse job.filename bytes ≡ ok parsed
    pub cut : chunk pipeline.chunker parsed.text ≡ some result.chunks
    pub embedded : pipeline.embedder.embed_texts result.chunks ≡ ok result.embeddings
    pub counted : result.chunk_count ≡ length result.chunks
    pub written :
        upsert_chunks pipeline.uuid5 pipeline.decimal pipeline.vector_client job parsed.parser_name
          result.chunks result.embeddings db
        ≡ ok t.0

  all_chunks-eq :
      (c : CharacterChunker) (t : Text) (chunks : List Text)
      → all_chunks c t ≡ ok chunks
      → chunk c t ≡ some chunks
  unfolding all_chunks
  all_chunks-eq c t chunks h = elim (Option-cases (chunk c t)) [
    | inl e ↦ absurd (cc (rw (e, all_chunks) at h))
    | inr (l, e) ↦ e ∙ ap some (ok-injective (rw (e, all_chunks) at h))
  ]

  pub run-Indexed :
      (job : IndexDocumentJob) (s t : Db × W) (result : IndexingResult F)
      → run pipeline job s ≡ (ok result, t)
      → Indexed job s.0 s.1 result t
  unfolding run all_chunks
  run-Indexed job s t result h =
      let (bytes, s1, e1, h1) =
        continue-eq-ok _ (on_storage (pipeline.storage_service.download_document job.storage_key) s)
          h in
      let (parsed, s2, e2, h2) =
        continue-eq-ok _ (lift (pipeline.parse job.filename bytes) s1) h1 in
      let (chunks, s3, e3, h3) =
        continue-eq-ok _ (lift (all_chunks pipeline.chunker parsed.text) s2) h2 in
      let (embeddings, s4, e4, h4) =
        continue-eq-ok _ (lift (pipeline.embedder.embed_texts chunks) s3) h3 in
      let (_, s5, e5, h5) =
        continue-eq-ok _
          (on_vectors
            (upsert_chunks pipeline.uuid5 pipeline.decimal pipeline.vector_client job
              parsed.parser_name chunks embeddings)
            s4)
          h4 in
      let cut = all_chunks-eq pipeline.chunker parsed.text chunks (ap (λ p. p.0) e3) in
      let same : s4.0 ≡ s.0 =
        sym (ap (λ p. p.1.0) e4)
        ∙ sym (ap (λ p. p.1.0) e3)
        ∙ sym (ap (λ p. p.1.0) e2)
        ∙ sym (ap (λ p. p.1.0) e1) in
      let put =
        upsert_chunks pipeline.uuid5 pipeline.decimal pipeline.vector_client job
          parsed.parser_name in
      let answer = ok-injective (ap (λ p. p.0) h5) in
      let end : s5.0 ≡ t.0 = ap (λ p. p.1.0) h5 in
      let texts : chunks ≡ result.chunks = ap (λ (r : IndexingResult F). r.chunks) answer in
      let vectors : embeddings ≡ result.embeddings =
        ap (λ (r : IndexingResult F). r.embeddings) answer in
      record {
        bytes = bytes;
        parsed = parsed;
        downloaded = ap (λ p. p.0) e1;
        readable = ap (λ p. p.0) e2;
        cut = cut ∙ ap some texts;
        embedded = ap pipeline.embedder.embed_texts (sym texts) ∙ ap (λ p. p.0) e4 ∙ ap ok vectors;
        counted = sym (ap (λ (r : IndexingResult F). r.chunk_count) answer) ∙ ap length texts;
        written =
            ap (λ c. put c result.embeddings s.0) (sym texts)
            ∙ ap (λ v. put chunks v s.0) (sym vectors)
            ∙ ap (put chunks embeddings) (sym same)
            ∙ write_vectors-ok _ s4 e5
            ∙ ap ok end;
      }

  -- A run that raises leaves the database as it was.
  pub run-keeps :
      (job : IndexDocumentJob) (s : Db × W)
      → OnRaise (run pipeline job s) ((run pipeline job s).1.0 ≡ s.0)
  unfolding run
  run-keeps job s =
      continue-keeps (λ (x : Db × W). x.0) s.0 _
        (on_storage (pipeline.storage_service.download_document job.storage_key) s) refl
        λ bytes s1 h1.
          continue-keeps (λ (x : Db × W). x.0) s.0 _ (lift (pipeline.parse job.filename bytes) s1)
            h1
            λ parsed s2 h2.
              continue-keeps (λ (x : Db × W). x.0) s.0 _
                (lift (all_chunks pipeline.chunker parsed.text) s2) h2
                λ chunks s3 h3.
                  continue-keeps (λ (x : Db × W). x.0) s.0 _
                    (lift (pipeline.embedder.embed_texts chunks) s3) h3
                    λ embeddings s4 h4. write_vectors-keeps _ _ s4 s.0 h4

  -- A payload of one of the chunks of the file that the job names, as the storage holds it, the
  -- parser reads it and the chunker cuts it.
  pub record OfFile (job : IndexDocumentJob) (world : W) (p : Payload) : Type 0 where
    pub bytes : Bytes
    pub downloaded : (pipeline.storage_service.download_document job.storage_key world).0 ≡ ok bytes
    pub parsed : ParsedDocument
    pub readable : pipeline.parse job.filename bytes ≡ ok parsed
    pub chunks : List Text
    pub cut : chunk pipeline.chunker parsed.text ≡ some chunks
    pub of_job : OfJob job parsed.parser_name chunks p

  -- After a run, whatever its outcome, every stored payload has what all had before, or it is of
  -- one of the chunks of the job's file, with that chunk's number, and carries the job's workspace,
  -- document, level and file.
  pub run_sound :
      (laws : UpsertLaws pipeline.vector_client) (P : Payload → Type 0) (job : IndexDocumentJob)
      (s : Db × W)
      → All P (pipeline.vector_client.payloads s.0)
      → All (λ p. P p ⊎ OfFile job s.1 p) (pipeline.vector_client.payloads (run pipeline job s).1.0)
  run_sound laws P job s all =
      let kept = run-keeps job s in
      let before : All (λ p. P p ⊎ OfFile job s.1 p) (pipeline.vector_client.payloads s.0) =
        All-mono (λ p old. inl old) _ all in
      elim (run-cases (run pipeline job s)) [
        | inl (result, t, e) ↦
            let done = run-Indexed job s t result e in
            rw e (
              upsert_chunks_sound pipeline.vector_client laws pipeline.uuid5 pipeline.decimal
                (λ p. P p ⊎ OfFile job s.1 p) job done.parsed.parser_name result.chunks
                result.embeddings s.0 t.0
                (λ p made. inr (record {
                  bytes = done.bytes;
                  downloaded = done.downloaded;
                  parsed = done.parsed;
                  readable = done.readable;
                  chunks = result.chunks;
                  cut = done.cut;
                  of_job = made;
                }))
                before done.written)
        | inr (x, t, e) ↦ let same : t.0 ≡ s.0 = rw e at kept in rw (e, same) before
      ]
