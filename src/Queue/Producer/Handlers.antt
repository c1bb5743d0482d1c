-- ===== src/Queue/Producer/Handlers.antt =====
-- crates/wyrd-queue/src/producer.rs: batch ids under the handlers of the task.
use wyrd_core.Queue.Producer.Loops.{
  Sound, ingest-Sound, drain_rest-Sound, drain_all-Sound, drain_to_completion-Sound,
}
use wyrd_core.Prelude.{
  ℕ, zero, suc, ◌≡◌, ◌⊎◌, inl, inr, List, ltb, leb, length, Outcome, ok, err, panic, refl, sym, ◌∙◌,
  subst, if◌then◌else◌, Bool-cases, Outcome-cases,
}
use wyrd_core.Queue.{QueueError, Row, Setup, count_dropped, seal_and_send, ingest}
use wyrd_core.Queue.Resend.{seal_and_send-Stable}
use wyrd_core.Queue.Producer.{
  Producer, TrySend, queued, full, closed, enqueue, try_enqueue, drain_channel, drain_rest,
  arrive_all, drain_to_completion, draining, finish, is_running, enqueue_attempts, on_flush,
  on_shutdown, on_row, on_closed, on_abandoned, on_tick,
}

TrySend-cases : (a : TrySend) → (a ≡ queued) ⊎ ((a ≡ full) ⊎ (a ≡ closed))
TrySend-cases queued = inl refl
TrySend-cases full = inr (inl refl)
TrySend-cases closed = inr (inr refl)

module _ {U R B E : Type 0} (env : Setup U R B E) where
  try_enqueue-Sound :
      (fuel attempt : ℕ) (answers : ℕ → TrySend) (row : Row U R) (p : Producer U R)
      → Sound env p.queue
      → Sound env (try_enqueue {E = E} fuel attempt answers row p).1.queue
  unfolding try_enqueue
  try_enqueue-Sound zero attempt answers row p s = s
  try_enqueue-Sound (suc fuel) attempt answers row p s =
      let all = try_enqueue {E = E} (suc fuel) attempt answers row p in
      let next = try_enqueue {E = E} fuel (suc attempt) answers row p in
      elim (TrySend-cases (answers attempt)) [
        | inl sent ↦
            let same : all.1.queue ≡ p.queue = rw (sent, try_enqueue) refl in
            subst (Sound env) (sym same) s
        | inr (inl again) ↦
            let same : all ≡ next = rw (again, try_enqueue) refl in
            subst (λ r. Sound env r.1.queue) (sym same)
              (try_enqueue-Sound fuel (suc attempt) answers row p s)
        | inr (inr over) ↦
            let same : all.1.queue ≡ count_dropped 1 p.queue = rw (over, try_enqueue) refl in
            subst (Sound env) (sym same) s
      ]

  pub enqueue-Sound :
      (answers : ℕ → TrySend) (row : Row U R) (p : Producer U R)
      → Sound env p.queue
      → Sound env (enqueue {E = E} answers row p).1.queue
  unfolding enqueue
  enqueue-Sound answers row p s = elim (Bool-cases (is_running p.phase)) [
    | inl open_phase ↦ rw open_phase (try_enqueue-Sound enqueue_attempts 0 answers row p s)
    | inr done ↦ rw done s
  ]

  module _ (unique : (i j : ℕ) → env.now_v7 i ≡ env.now_v7 j → i ≡ j) where
    finish-queue :
        (out : Outcome {0, 0} (QueueError E) Unit) (p : Producer U R)
        → (finish out p).1.queue ≡ p.queue
    finish-queue (ok _) p = refl
    finish-queue (err e) p = refl
    finish-queue panic p = refl

    pub on_flush-Sound :
        (groups : List (List (Row U R))) (p : Producer U R)
        → Sound env p.queue
        → Sound env (on_flush env groups p).1.queue
    unfolding on_flush
    on_flush-Sound groups p s =
        let (result, emptied, late) = drain_channel env groups p in
        let p' = arrive_all late emptied in
        let drained = drain_all-Sound env unique groups p s in
        let q = (seal_and_send env p'.queue).1 in
        let made = seal_and_send-Stable env unique p'.queue drained in
        let all = on_flush env groups p in
        elim (Outcome-cases result) [
          | inl (o, fine) ↦
              let same : all.1.queue ≡ q = rw (fine, on_flush) refl in
              subst (Sound env) (sym same) made
          | inr (inl (e, failed)) ↦
              let same : all.1.queue ≡ q = rw (failed, on_flush) refl in
              subst (Sound env) (sym same) made
          | inr (inr panics) ↦
              let same : all.1.queue ≡ p'.queue = rw (panics, on_flush) refl in
              subst (Sound env) (sym same) drained
        ]

    pub on_shutdown-Sound :
        (groups : List (List (Row U R))) (p : Producer U R)
        → Sound env p.queue
        → Sound env (on_shutdown env groups p).1.queue
    unfolding on_shutdown
    on_shutdown-Sound groups p s =
        let begun : Producer U R = record p { phase = draining } in
        let (result, emptied, late) = drain_channel env groups begun in
        let p' = arrive_all late emptied in
        let reached = drain_all-Sound env unique groups begun s in
        let (out, q) = drain_to_completion env 2 p'.queue in
        let made = drain_to_completion-Sound env unique 2 p'.queue reached in
        let all = on_shutdown env groups p in
        let over = finish-queue out (record p' { queue = q }) in
        elim (Outcome-cases result) [
          | inl (o, fine) ↦
              let same : all.1.queue ≡ (finish out (record p' { queue = q })).1.queue =
                rw (fine, on_shutdown) refl in
              subst (Sound env) (sym (same ∙ over)) made
          | inr (inl (e, failed)) ↦
              let same : all.1.queue ≡ (finish out (record p' { queue = q })).1.queue =
                rw (failed, on_shutdown) refl in
              subst (Sound env) (sym (same ∙ over)) made
          | inr (inr panics) ↦
              let same : all.1.queue ≡ p'.queue = rw (panics, on_shutdown) refl in
              subst (Sound env) (sym same) reached
        ]

    pub on_row-Sound :
        (row : Row U R) (rows : List (Row U R)) (p : Producer U R)
        → Sound env p.queue
        → Sound env (on_row env row rows p).1.queue
    unfolding on_row
    on_row-Sound row rows p s =
        let (result, q) = ingest env row p.queue in
        let kept = ingest-Sound env unique row p.queue s in
        let q' = (seal_and_send env q).1 in
        let made = seal_and_send-Stable env unique q kept in
        let size = if leb env.config.flush_max_rows 0 then 1 else env.config.flush_max_rows in
        let all = on_row env row rows p in
        let here : (all.1.queue ≡ q) ⊎ (all.1.queue ≡ q') = elim (Outcome-cases result) [
          | inl (o, fine) ↦ elim (Bool-cases (leb size (length q.staging))) [
            | inl many ↦ inr (rw (fine, many, on_row) refl)
            | inr few ↦ inl (rw (fine, few, on_row) refl)
          ]
          | inr (inl (e, failed)) ↦ elim (Bool-cases (leb size (length q.staging))) [
            | inl many ↦ inr (rw (failed, many, on_row) refl)
            | inr few ↦ inl (rw (failed, few, on_row) refl)
          ]
          | inr (inr panics) ↦ inl (rw (panics, on_row) refl)
        ] in
        elim here [
          | inl same ↦ subst (Sound env) (sym same) kept
          | inr same ↦ subst (Sound env) (sym same) made
        ]

    pub on_closed-Sound :
        (p : Producer U R) → Sound env p.queue → Sound env (on_closed env p).1.queue
    unfolding on_closed
    on_closed-Sound p s = drain_to_completion-Sound env unique 2 p.queue s

    pub on_abandoned-Sound :
        (p : Producer U R) → Sound env p.queue → Sound env (on_abandoned env p).1.queue
    unfolding on_abandoned
    on_abandoned-Sound p s =
        let (result, p') = drain_rest env p in
        let reached = drain_rest-Sound env unique p s in
        let q = (drain_to_completion env 2 p'.queue).1 in
        let made = drain_to_completion-Sound env unique 2 p'.queue reached in
        let all = on_abandoned env p in
        elim (Outcome-cases result) [
          | inl (o, fine) ↦
              let same : all.1.queue ≡ q = rw (fine, on_abandoned) refl in
              subst (Sound env) (sym same) made
          | inr (inl (e, failed)) ↦
              let same : all.1.queue ≡ q = rw (failed, on_abandoned) refl in
              subst (Sound env) (sym same) made
          | inr (inr panics) ↦
              let same : all.1.queue ≡ p'.queue = rw (panics, on_abandoned) refl in
              subst (Sound env) (sym same) reached
        ]

    pub on_tick-Sound : (p : Producer U R) → Sound env p.queue → Sound env (on_tick env p).1.queue
    unfolding on_tick
    on_tick-Sound p s =
        let made = seal_and_send-Stable env unique p.queue s in
        elim (Bool-cases (ltb 0 (length p.queue.staging))) [
          | inl some_left ↦ rw some_left made
          | inr none ↦ rw none s
        ]
