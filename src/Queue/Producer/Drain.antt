-- ===== src/Queue/Producer/Drain.antt =====
-- crates/wyrd-queue/src/{queue,producer}.rs: how the buffers empty.
use wyrd_core.Queue.Producer.Channel.{
  OnTime, flatten, arrive_all-channel, ingest_all, drain_channel-Emptied,
}
use wyrd_core.Prelude.{
  ◌^◌, ◌<◌, ◌≡◌, ◌⊎◌, inl, inr, false, List, [], ◌∷◌, length, Outcome, ok, err, panic, arith, refl,
  sym, ap, ◌∙◌, ◌++◌, subst, Bool-cases, Outcome-cases,
}
use wyrd_core.Queue.{QueueError, Row, FlushOutcome, Setup, Queue, has_pending, seal_and_send}
use wyrd_core.Queue.Pass.{seal_and_send-PassOf}
use wyrd_core.Queue.Accounts.{Judged}
use wyrd_core.Queue.Producer.{
  Producer, draining, drained, drain_channel, arrive_all, drain_to_completion, finish, on_shutdown,
}
use wyrd_core.Queue.Producer.Ingest.{BuildPanics, seal_and_send-staging}

length-zero : {A : Type 0} (xs : List A) → length xs ≡ 0 → xs ≡ []
length-zero [] h = refl
length-zero (x ∷ xs) h = absurd (omega (arith, h))

module _ {U R B E : Type 0} (env : Setup U R B E) where
  -- The ways a pass can end.
  pass_cases :
      (q : Queue U R)
      → q.dropped < 2 ^ 64
      → ((o : FlushOutcome) × ((seal_and_send env q).0 ≡ ok o)
          × ((seal_and_send env q).1.retry ≡ []))
        ⊎ (((e : QueueError E) × ((seal_and_send env q).0 ≡ err e))
            ⊎ (((seal_and_send env q).0 ≡ panic) × BuildPanics env))
  pass_cases q bound =
      let zero_sent : FlushOutcome = record { batch_ids = []; rows_flushed = 0 } in
      let r = seal_and_send env q in
      elim (seal_and_send-PassOf env q bound) [
        | inr (chunk, built, panics) ↦ inr (inr (panics, (chunk, built)))
        | inl a ↦ elim (Outcome-cases r.0) [
          | inl (o, same) ↦
              let judged =
                subst (λ out. Judged env zero_sent a.done a.lost a.tried out r.1) same a.judged in
              inl (o, same, judged.2)
          | inr (inl (e, same)) ↦ inr (inl (e, same))
          | inr (inr same) ↦
              absurd
                (subst (λ out. Judged env zero_sent a.done a.lost a.tried out r.1) same a.judged)
        ]
      ]

  -- What is left behind `drain_to_completion` with a result.
  abbrev pub Completed : Outcome {0, 0} (QueueError E) Unit → Queue U R → Type 0
  Completed (ok _) q = (q.staging ≡ []) × (q.retry ≡ [])
  Completed (err e) q = q.staging ≡ []
  Completed panic q = BuildPanics env

  nothing-pending : (q : Queue U R) → q.staging ≡ [] → q.retry ≡ [] → has_pending q ≡ false
  unfolding has_pending
  nothing-pending q empty none = rw (empty, none) refl

  pending-nothing : (q : Queue U R) → has_pending q ≡ false → (q.staging ≡ []) × (q.retry ≡ [])
  unfolding has_pending
  pending-nothing q h =
      (length-zero q.staging (ground (arith, h)), length-zero q.retry (ground (arith, h)))

  pub drain_to_completion-Completed :
      (q : Queue U R)
      → q.dropped < 2 ^ 64
      → let r = drain_to_completion env 2 q in Completed r.0 r.1
  unfolding drain_to_completion
  drain_to_completion-Completed q bound =
      let (empty, made) = seal_and_send-staging env q in
      elim (Bool-cases (has_pending q)) [
        | inr none ↦ rw none (pending-nothing q none)
        | inl some_left ↦ elim (pass_cases q bound) [
          | inl (o, same, none) ↦
              let over = nothing-pending (seal_and_send env q).1 empty none in
              rw (some_left, same, over) (empty, none)
          | inr (inl (e, same)) ↦ rw (some_left, same) empty
          | inr (inr (same, why)) ↦ rw (some_left, same) why
        ]
      ]

  -- What is left behind a shutdown with a result. Some of the groups are ingested behind the rows of the
  -- channel, and the passes send what that leaves; the other groups are on the channel.
  abbrev pub Ended :
      List (List (Row U R))
      → Producer U R
      → Outcome {0, 0} (QueueError E) Unit × Producer U R
      → Type 0
  Ended groups p (out, p') =
      (taken : List (List (Row U R))) × (late : List (List (Row U R))) × (groups ≡ taken ++ late)
      × OnTime (p.channel ++ flatten taken) taken late
      × ((out, p'.queue)
          ≡ drain_to_completion env 2 (ingest_all env (p.channel ++ flatten taken) p.queue))
      × (p'.channel ≡ flatten late)
      × (p'.phase ≡ drained)
      × (p'.queue.staging ≡ [])

  abbrev pub Drained :
      List (List (Row U R))
      → Producer U R
      → Outcome {0, 0} (QueueError E) Unit × Producer U R
      → Type 0
  Drained groups p (ok u, p') = Ended groups p (ok u, p') × (p'.queue.retry ≡ [])
  Drained groups p (err e, p') = Ended groups p (err e, p')
  Drained groups p (panic, p') = BuildPanics env

  finish-Drained :
      (groups : List (List (Row U R))) (p : Producer U R) (out : Outcome {0, 0} (QueueError E) Unit)
      (p' : Producer U R) (taken late : List (List (Row U R)))
      → groups ≡ taken ++ late
      → OnTime (p.channel ++ flatten taken) taken late
      → (out, p'.queue)
        ≡ drain_to_completion env 2 (ingest_all env (p.channel ++ flatten taken) p.queue)
      → p'.channel ≡ flatten late
      → Completed out p'.queue
      → Drained groups p (finish out p')
  finish-Drained groups p (ok _) p' taken late split time made rest (empty, done) =
      ((taken, late, split, time, made, rest, refl, empty), done)
  finish-Drained groups p (err e) p' taken late split time made rest empty =
      (taken, late, split, time, made, rest, refl, empty)
  finish-Drained groups p panic p' taken late split time made rest why = why

  -- A shutdown ends, whatever the sink answers and whatever rows callers send meanwhile, of which one group
  -- arrives before each try to take a row. The rows of the channel and of the first groups are ingested in
  -- order, the passes run on the queue that this leaves, and the result is theirs; the rows of the other
  -- groups, and only they, are left on the channel. Where there are other groups, every try took a row but
  -- the last, which found none. The state is drained and staging is empty, and if the shutdown succeeds
  -- there is nothing to retry. It panics only where the build of a chunk does. The drop counter starts
  -- below its bound.
  pub on_shutdown-Drained :
      (groups : List (List (Row U R))) (p : Producer U R)
      → p.queue.dropped < 2 ^ 64
      → Drained groups p (on_shutdown env groups p)
  unfolding on_shutdown
  on_shutdown-Drained groups p bound =
      let begun : Producer U R = record p { phase = draining } in
      let (result, low, phase) = drain_channel-Emptied env groups begun bound in
      let (outcome, emptied, late) = drain_channel env groups begun in
      let p' = arrive_all late emptied in
      let (rows, queue, same_phase) = arrive_all-channel late emptied in
      let all = on_shutdown env groups p in
      elim result [
        | inl (fine, empty, parts) ↦
            let (taken, split, time, ingested) = parts in
            let (out, q) = drain_to_completion env 2 p'.queue in
            let on : all ≡ finish out (record p' { queue = q }) = rw (fine, on_shutdown) refl in
            let made = ap (drain_to_completion env 2) (queue ∙ ingested) in
            let rest = rows ∙ ap (λ front. front ++ flatten late) empty in
            let low' = subst (λ q. q.dropped < 2 ^ 64) (sym queue) low in
            subst (Drained groups p) (sym on) (
              finish-Drained groups p out (record p' { queue = q }) taken late split time made rest
                (drain_to_completion-Completed p'.queue low'))
        | inr (panics, why) ↦
            let stop : all ≡ (panic, p') = rw (panics, on_shutdown) refl in
            subst (Drained groups p) (sym stop) why
      ]
