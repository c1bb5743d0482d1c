-- ===== src/Queue/Producer/Loops.antt =====
-- crates/wyrd-queue/src/producer.rs: batch ids under the loops of the task that empty its buffers.
use wyrd_core.Queue.Producer.Channel.{arrive_all-channel}
use wyrd_core.Prelude.{
  ℕ, zero, suc, ◌≡◌, inl, inr, List, [], ◌∷◌, Outcome, ok, err, panic, refl, sym, subst, List-cases,
  Bool-cases, Outcome-cases,
}
use wyrd_core.Queue.{QueueError, Row, Setup, Queue, has_pending, seal_and_send, ingest}
use wyrd_core.Queue.Ids.{Stable}
use wyrd_core.Queue.Resend.{seal_and_send-Stable}
use wyrd_core.Queue.Producer.{
  Producer, drain_rows, drain_channel, drain_rest, arrive, arrive_all, drain_to_completion,
  lower_depth,
}
use wyrd_core.Queue.Producer.Ingest.{ingest-Staged}

module _ {U R B E : Type 0} (env : Setup U R B E) where
  abbrev pub Sound : Queue U R → Type 0
  Sound q = Stable env q.retry q.minted q.sent

  module _ (unique : (i j : ℕ) → env.now_v7 i ≡ env.now_v7 j → i ≡ j) where
    pub ingest-Sound : (row : Row U R) (q : Queue U R) → Sound q → Sound (ingest env row q).1
    ingest-Sound row q s =
        let made = seal_and_send-Stable env unique q s in
        elim (ingest-Staged env row q) [
          | inl here ↦ rw here s
          | inr (inl (panics, here)) ↦ rw here made
          | inr (inr here) ↦ rw here made
        ]

    drain_rows-Sound :
        (rows : List (Row U R)) (depth : ℕ) (q : Queue U R)
        → Sound q
        → Sound (drain_rows env rows depth q).1
    unfolding drain_rows
    drain_rows-Sound [] depth q s = s
    drain_rows-Sound (row ∷ rows) depth q s =
        let q' = (ingest env row q).1 in
        let all = drain_rows env (row ∷ rows) depth q in
        let made = ingest-Sound row q s in
        let rest = drain_rows-Sound rows (lower_depth depth) q' made in
        let more = drain_rows env rows (lower_depth depth) q' in
        elim (Outcome-cases (ingest env row q).0) [
          | inl (o, fine) ↦
              let on : all ≡ more = rw (fine, drain_rows) refl in
              subst (λ r. Sound r.1) (sym on) rest
          | inr (inl (e, failed)) ↦
              let on : all ≡ more = rw (failed, drain_rows) refl in
              subst (λ r. Sound r.1) (sym on) rest
          | inr (inr panics) ↦
              let stop : all ≡ (panic, q') = rw (panics, drain_rows) refl in
              subst (λ r. Sound r.1) (sym stop) made
        ]

    pub drain_rest-Sound : (p : Producer U R) → Sound p.queue → Sound (drain_rest env p).1.queue
    unfolding drain_rest
    drain_rest-Sound p s =
        let r = drain_rows env p.channel p.channel_depth p.queue in
        let same : (drain_rest env p).1.queue ≡ r.1 = elim (Outcome-cases r.0) [
          | inl (d, fine) ↦ rw (fine, drain_rest) refl
          | inr (inl (e, failed)) ↦ rw (failed, drain_rest) refl
          | inr (inr panics) ↦ rw (panics, drain_rest) refl
        ] in
        subst Sound (sym same) (drain_rows-Sound p.channel p.channel_depth p.queue s)

    drain_channel-Sound :
        (groups : List (List (Row U R))) (p : Producer U R)
        → Sound p.queue
        → Sound (drain_channel env groups p).1.queue
    unfolding drain_channel
    drain_channel-Sound [] p s = drain_rest-Sound p s
    drain_channel-Sound (group ∷ groups) p s =
        let all = drain_channel env (group ∷ groups) p in
        elim (List-cases (arrive group p).channel) [
          | inl none ↦
              let same : all.1.queue ≡ p.queue = rw (none, drain_channel) refl in
              subst Sound (sym same) s
          | inr (row, rows, more) ↦
              let (result, q) = ingest env row p.queue in
              let made = ingest-Sound row p.queue s in
              let taken : Producer U R = record (arrive group p) {
                channel = rows;
                channel_depth = lower_depth (arrive group p).channel_depth;
                queue = q;
              } in
              let rest = drain_channel-Sound groups taken made in
              elim (Outcome-cases result) [
                | inl (o, fine) ↦
                    let same : all.1.queue ≡ (drain_channel env groups taken).1.queue =
                      rw (more, fine, drain_channel) refl in
                    subst Sound (sym same) rest
                | inr (inl (e, failed)) ↦
                    let same : all.1.queue ≡ (drain_channel env groups taken).1.queue =
                      rw (more, failed, drain_channel) refl in
                    subst Sound (sym same) rest
                | inr (inr panics) ↦
                    let same : all.1.queue ≡ q = rw (more, panics, drain_channel) refl in
                    subst Sound (sym same) made
              ]
        ]

    pub drain_all-Sound :
        (groups : List (List (Row U R))) (p : Producer U R)
        → Sound p.queue
        → let r = drain_channel env groups p in Sound (arrive_all r.2 r.1).queue
    drain_all-Sound groups p s =
        let r = drain_channel env groups p in
        subst Sound (sym (arrive_all-channel r.2 r.1).1) (drain_channel-Sound groups p s)

    pub drain_to_completion-Sound :
        (fuel : ℕ) (q : Queue U R) → Sound q → Sound (drain_to_completion env fuel q).1
    unfolding drain_to_completion
    drain_to_completion-Sound zero q s = s
    drain_to_completion-Sound (suc fuel) q s =
        let (result, q') = seal_and_send env q in
        let made = seal_and_send-Stable env unique q s in
        let all = drain_to_completion env (suc fuel) q in
        let to : (r : Outcome {0, 0} (QueueError E) Unit × Queue U R)
            → all ≡ r
            → Sound r.1
            → Sound all.1 =
          λ r same. subst (λ r. Sound r.1) (sym same) in
        elim (Bool-cases (has_pending q)) [
          | inr none ↦ to (ok tt, q) (rw (none, drain_to_completion) refl) s
          | inl some_left ↦ elim (Outcome-cases result) [
            | inl (o, fine) ↦
                to (drain_to_completion env fuel q')
                  (rw (some_left, fine, drain_to_completion) refl)
                  (drain_to_completion-Sound fuel q' made)
            | inr (inl (e, failed)) ↦
                to (err e, q') (rw (some_left, failed, drain_to_completion) refl) made
            | inr (inr panics) ↦
                to (panic, q') (rw (some_left, panics, drain_to_completion) refl) made
          ]
        ]
