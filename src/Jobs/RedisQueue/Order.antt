-- ===== src/Jobs/RedisQueue/Order.antt =====
-- What a job meets between `enqueue` and `pop`.
use doc_search_ai.Common.{
  none, some, sym, ◌∙◌, ap, ◌≡◌, ok, ◌⊎◌, some, inl, inr, run-cases, append_last, ok-some_injective,
}
use doc_search_ai.Jobs.Base.{
  IndexDocumentJob, Events, JobDispatchResult, status_queued, status_failed, queued-failed_apart,
}
use doc_search_ai.Jobs.RedisQueue.{
  timeout, failure, RedisClient, RedisLaws, JobCodec, CodecLaws, QueueConfig, enqueue, pop, failure,
}

module _ {R : Type 0} (client : RedisClient R) (laws : RedisLaws client) (codec : JobCodec)
    (good : CodecLaws codec) (config : QueueConfig) where
  -- The two ways `enqueue` ends: the payload is on the list, or the result says "failed".
  pub enqueue-cases :
      (job : IndexDocumentJob) (r r₁ : R) (events events' : Events) (result : JobDispatchResult)
      → enqueue client codec config job (r, events) ≡ (result, (r₁, events'))
      → ((result.status ≡ status_queued)
          × (client.rpush config.queue_key
                (codec.serialize (record job { max_attempts = config.max_attempts }))
                r
              ≡ (ok tt, r₁)))
        ⊎ (result.status ≡ status_failed)
  unfolding enqueue
  enqueue-cases job r r₁ events events' result sent =
      let payload = codec.serialize (record job { max_attempts = config.max_attempts }) in
      elim (run-cases (client.rpush config.queue_key payload r)) [
        | inl (u, r', e) ↦
            let run = rw (e, enqueue) at sent in
            inl
              (sym (ap (λ p. p.0.status) run), λ i. ((ap (λ p. p.0) e i), (ap (λ p. p.1.0) run i)))
        | inr (m, r', e) ↦ let run = rw (e, enqueue) at sent in inr (sym (ap (λ p. p.0.status) run))
      ]

  -- A job that was enqueued is the next to be popped, with the queue's own limit of attempts, and
  -- the queue is then as before: last in, first out.
  pub pop-enqueue :
      (job got : IndexDocumentJob) (r r₁ r₂ : R) (events events' : Events)
      (result : JobDispatchResult)
      → enqueue client codec config job (r, events) ≡ (result, (r₁, events'))
      → result.status ≡ status_queued
      → pop client codec config r₁ ≡ (ok (some got), r₂)
      → (got ≡ record job { max_attempts = config.max_attempts })
        × (client.items r₂ config.queue_key ≡ client.items r config.queue_key)
  unfolding pop
  pop-enqueue job got r r₁ r₂ events events' result sent queued run =
      elim (enqueue-cases job r r₁ events events' result sent) [
        | inr failed ↦ absurd (queued-failed_apart (sym queued ∙ failed))
        | inl (_, pushed) ↦ elim (run-cases (client.brpop config.queue_key r₁)) [
          | inr (timeout, r', e) ↦ let h = rw (e, pop) at run in absurd cc
          | inr (failure m, r', e) ↦ let h = rw (e, pop) at run in absurd cc
          | inl (none, r', e) ↦ let h = rw (e, pop) at run in absurd cc
          | inl (some payload, r', e) ↦
              let h = rw (e, pop) at run in
              let old = laws.rpush_ok _ _ r r₁ pushed in
              let now = laws.brpop_some _ payload r₁ r' e in
              let (waiting, same) = append_last _ _ _ _ (sym old ∙ now) in
              let read = good.round_trip (record job { max_attempts = config.max_attempts }) in
              let h' = rw (← same, read) at h in
              (
                sym (ok-some_injective (ap (λ p. p.0) h')),
                ap (λ x. client.items x config.queue_key) (sym (ap (λ p. p.1) h') ∙ ap (λ p. p.1) e)
                    ∙ sym waiting,
              )
        ]
      ]
