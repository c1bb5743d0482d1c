-- ===== src/Queue/Producer/Ingest.antt =====
-- crates/wyrd-queue/src/queue.rs: where `ingest` puts a row.
use wyrd_core.Prelude.{
  ℕ, suc, ◌^◌, ◌<◌, ◌≡◌, ◌⊎◌, inl, inr, true, false, List, [], ◌∷◌, ◌++◌, ltb, leb, length, Outcome,
  ok, panic, arith, refl, ap, subst, if◌then◌else◌, Bool-cases, Outcome-cases,
}
use wyrd_core.Queue.{
  QueueError, Row, FlushOutcome, Setup, Chunks, Queue, PassResult, build_frames, push, seal_loop,
  seal_rows, work, seal_and_send, ingest,
}
use wyrd_core.Queue.Rounds.{seal_loop_induct}
use wyrd_core.Queue.Pass.{seal_and_send-PassOf}
use wyrd_core.Queue.Accounts.{Judged}

module _ {U R B E : Type 0} (env : Setup U R B E) where
  abbrev Goal : FlushOutcome → Chunks U R → Queue U R → PassResult U R E → Type 0
  Goal start pending q r = (r.1.staging ≡ q.staging) × (q.dropped < 2 ^ 64 → r.1.dropped < 2 ^ 64)

  seal_loop-staging :
      (fuel : ℕ) (start : FlushOutcome) (pending : Chunks U R) (q : Queue U R)
      → work pending < fuel
      → Goal start pending q (seal_loop env fuel pending start q)
  seal_loop-staging =
      seal_loop_induct env Goal (λ start q. (refl, λ h. h))
        (λ start b c pending q built. (refl, λ h. h))
        (λ start b c pending q e why. (refl, λ h. omega arith))
        (λ start b c pending q frames r built large next. next)
        (λ start b c pending q frames n r built fits ack next. next)
        (λ start b c pending q frames e built fits. (refl, λ h. h))

  pub seal_and_send-staging :
      (q : Queue U R)
      → let q' = (seal_and_send env q).1 in
        (q'.staging ≡ []) × (q.dropped < 2 ^ 64 → q'.dropped < 2 ^ 64)
  unfolding seal_and_send
  seal_and_send-staging q =
      let size = if leb env.config.flush_max_rows 0 then 1 else env.config.flush_max_rows in
      let (chunks, minted) = seal_rows env (length q.staging) size q.staging q.minted in
      let pending = q.retry ++ chunks in
      seal_loop-staging (suc (work pending)) (record { batch_ids = []; rows_flushed = 0 }) pending
        (record q { staging = []; retry = []; minted = minted }) (omega arith)

  push-full :
      (row : Row U R) (q : Queue U R)
      → (push env row q ≡ (true, record q { staging = q.staging ++ row ∷ [] }))
        ⊎ (push env row q ≡ (false, q))
  unfolding push
  push-full row q =
      let capacity = if leb env.config.staging_capacity 0 then 1 else env.config.staging_capacity in
      elim (Bool-cases (ltb (length q.staging) capacity)) [
        | inl room ↦ inl (rw room refl)
        | inr none ↦ inr (rw none refl)
      ]

  push_empty :
      (row : Row U R) (q : Queue U R)
      → q.staging ≡ []
      → push env row q ≡ (true, record q { staging = row ∷ [] })
  unfolding push
  push_empty row q empty =
      let capacity = if leb env.config.staging_capacity 0 then 1 else env.config.staging_capacity in
      let none : length q.staging ≡ 0 = rw empty refl in
      let room : ltb (length q.staging) capacity ≡ true = ground arith in rw (room, empty) refl

  -- Where `ingest` puts its row: at the end of the staging buffer, or alone in it behind a pass.
  abbrev pub Staged : Row U R → Queue U R → Outcome {0, 0} (QueueError E) Unit × Queue U R → Type 0
  Staged row q r =
      (r ≡ (ok tt, record q { staging = q.staging ++ row ∷ [] }))
      ⊎ ((((seal_and_send env q).0 ≡ panic) × (r ≡ (panic, (seal_and_send env q).1)))
          ⊎ (r ≡ (ok tt, record (seal_and_send env q).1 { staging = row ∷ [] })))

  -- `ingest` never drops its row. It adds it to the staging buffer and changes nothing else, or runs a
  -- pass and leaves it as the only row of the staging buffer, whether the pass succeeds or fails. Only a
  -- pass that panics stops it.
  pub ingest-Staged : (row : Row U R) (q : Queue U R) → Staged row q (ingest env row q)
  unfolding ingest
  ingest-Staged row q =
      let (empty, bound) = seal_and_send-staging q in
      let made = (seal_and_send env q).1 in
      let again = push_empty row made empty in
      elim (push-full row q) [
        | inl room ↦ inl (rw room refl)
        | inr none ↦ inr (elim (Outcome-cases (seal_and_send env q).0) [
          | inl (o, sealed) ↦ inr (rw (none, sealed, again) refl)
          | inr (inl (e, failed)) ↦ inr (rw (none, failed, again) refl)
          | inr (inr panics) ↦ inl (panics, rw (none, panics) refl)
        ])
      ]

  pub ingest-dropped :
      (row : Row U R) (q : Queue U R) → q.dropped < 2 ^ 64 → (ingest env row q).1.dropped < 2 ^ 64
  ingest-dropped row q bound =
      let made = (seal_and_send-staging q).1 bound in
      elim (ingest-Staged row q) [
        | inl here ↦ rw here bound
        | inr (inl (panics, here)) ↦ rw here made
        | inr (inr here) ↦ rw here made
      ]

  abbrev pub BuildPanics : Type 0
  BuildPanics = (chunk : List (Row U R)) × (build_frames env chunk ≡ panic)

  pass-panics : (q : Queue U R) → q.dropped < 2 ^ 64 → (seal_and_send env q).0 ≡ panic → BuildPanics
  pass-panics q bound same =
      let zero_sent : FlushOutcome = record { batch_ids = []; rows_flushed = 0 } in
      let r = seal_and_send env q in
      elim (seal_and_send-PassOf env q bound) [
        | inr (chunk, built, panics) ↦ (chunk, built)
        | inl a ↦
            absurd (subst (λ out. Judged env zero_sent a.done a.lost a.tried out r.1) same a.judged)
      ]

  pub ingest-result :
      (row : Row U R) (q : Queue U R)
      → q.dropped < 2 ^ 64
      → ((ingest env row q).0 ≡ ok tt) ⊎ (((ingest env row q).0 ≡ panic) × BuildPanics)
  ingest-result row q bound = elim (ingest-Staged row q) [
    | inl here ↦ inl (ap (λ r. r.0) here)
    | inr (inl (panics, here)) ↦ inr (ap (λ r. r.0) here, pass-panics q bound panics)
    | inr (inr here) ↦ inl (ap (λ r. r.0) here)
  ]
