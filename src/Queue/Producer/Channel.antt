-- ===== src/Queue/Producer/Channel.antt =====
-- crates/wyrd-queue/src/producer.rs: which rows leave the channel and in what order, while callers send.
use wyrd_core.Prelude.{
  ℕ, ◌^◌, ◌+◌, arith, length, ◌<◌, ◌≡◌, ◌⊎◌, inl, inr, List, [], ◌∷◌, ◌++◌, Outcome, ok, panic,
  refl, sym, ap, ◌∙◌, subst, append_assoc, append-nil, List-cases,
}
use wyrd_core.Queue.{QueueError, Row, Setup, Queue, ingest}
use wyrd_core.Queue.Producer.{
  Producer, drain_rows, drain_rest, drain_channel, arrive, arrive_all, lower_depth,
}
use wyrd_core.Queue.Producer.Ingest.{BuildPanics, ingest-dropped, ingest-result}

-- The rows of the groups, in order.
unfoldable pub flatten : {A : Type 0} → List (List A) → List A
flatten [] = []
flatten (group ∷ groups) = group ++ flatten groups

module _ {U R : Type 0} where
  -- What rows that arrive change.
  pub arrive_all-channel :
      (groups : List (List (Row U R))) (p : Producer U R)
      → ((arrive_all groups p).channel ≡ p.channel ++ flatten groups)
        × ((arrive_all groups p).queue ≡ p.queue)
        × ((arrive_all groups p).phase ≡ p.phase)
  unfolding arrive_all flatten
  arrive_all-channel [] p = (sym (append-nil p.channel), refl, refl)
  arrive_all-channel (group ∷ groups) p =
      let (rows, queue, phase) = arrive_all-channel groups (arrive group p) in
      (rows ∙ append_assoc p.channel group (flatten groups), queue, phase)

  -- Every try takes a row but the last, which finds none; without a group that is late, the loop may also
  -- go on behind the last group.
  abbrev pub OnTime : List (Row U R) → List (List (Row U R)) → List (List (Row U R)) → Type 0
  OnTime rows taken late = (late ≡ []) ⊎ (length rows + 1 ≡ length taken)

module _ {U R B E : Type 0} (env : Setup U R B E) where
  -- The queue behind an `ingest` of each row, in order.
  unfoldable pub ingest_all : List (Row U R) → Queue U R → Queue U R
  ingest_all [] q = q
  ingest_all (row ∷ rows) q = ingest_all rows (ingest env row q).1

  -- The rows are ingested, unless a build panics.
  abbrev Reached : List (Row U R) → Queue U R → Outcome {0, 0} (QueueError E) ℕ × Queue U R → Type 0
  Reached rows q r =
      (((d : ℕ) × (r.0 ≡ ok d) × (r.1 ≡ ingest_all rows q)) ⊎ ((r.0 ≡ panic) × BuildPanics env))
      × (r.1.dropped < 2 ^ 64)

  drain_rows-Reached :
      (rows : List (Row U R)) (depth : ℕ) (q : Queue U R)
      → q.dropped < 2 ^ 64
      → Reached rows q (drain_rows env rows depth q)
  unfolding drain_rows ingest_all
  drain_rows-Reached [] depth q bound = (inl (depth, refl, refl), bound)
  drain_rows-Reached (row ∷ rows) depth q bound =
      let q' = (ingest env row q).1 in
      let more = ingest-dropped env row q bound in
      let rest = drain_rows env rows (lower_depth depth) q' in
      let all = drain_rows env (row ∷ rows) depth q in
      let To = Reached (row ∷ rows) q in
      elim (ingest-result env row q bound) [
        | inl fine ↦
            let on : all ≡ rest = rw (fine, drain_rows) refl in
            subst To (sym on) (drain_rows-Reached rows (lower_depth depth) q' more)
        | inr (panics, why) ↦
            let stop : all ≡ (panic, q') = rw (panics, drain_rows) refl in
            subst To (sym stop) (inr (refl, why), more)
      ]

  -- Of the groups that arrive, the first are ingested behind the rows of the channel, and the last come
  -- too late.
  abbrev pub Split :
      List (List (Row U R)) → Producer U R → List (List (Row U R)) → Queue U R → Type 0
  Split groups p late q =
      (taken : List (List (Row U R))) × (groups ≡ taken ++ late)
      × OnTime (p.channel ++ flatten taken) taken late
      × (q ≡ ingest_all (p.channel ++ flatten taken) p.queue)

  -- What is left behind `drain_channel`.
  abbrev pub Emptied :
      List (List (Row U R))
      → Producer U R
      → Outcome {0, 0} (QueueError E) Unit × Producer U R × List (List (Row U R))
      → Type 0
  Emptied groups p (result, p', late) =
      (((result ≡ ok tt) × (p'.channel ≡ []) × Split groups p late p'.queue)
        ⊎ ((result ≡ panic) × BuildPanics env))
      × (p'.queue.dropped < 2 ^ 64)
      × (p'.phase ≡ p.phase)

  drain_rest-Emptied :
      (p : Producer U R) → p.queue.dropped < 2 ^ 64 → Emptied [] p (drain_channel env [] p)
  unfolding drain_channel drain_rest flatten
  drain_rest-Emptied p bound =
      let (result, made) = drain_rows-Reached p.channel p.channel_depth p.queue bound in
      let q = (drain_rows env p.channel p.channel_depth p.queue).1 in
      let all = drain_channel env [] p in
      elim result [
        | inl (depth, fine, same) ↦
            let p' : Producer U R = record p { channel = []; channel_depth = depth; queue = q } in
            let on : all ≡ (ok tt, p', []) = rw (fine, drain_channel, drain_rest) refl in
            let rows = sym (append-nil p.channel) in
            let split : Split [] p [] q =
              ([], refl, inl refl, same ∙ ap (λ rows. ingest_all rows p.queue) rows) in
            subst (Emptied [] p) (sym on) (inl (refl, refl, split), made, refl)
        | inr (panics, why) ↦
            let stop : all ≡ (panic, record p { queue = q }, []) =
              rw (panics, drain_channel, drain_rest) refl in
            subst (Emptied [] p) (sym stop) (inr (refl, why), made, refl)
      ]

  -- A row is taken: what holds of the groups behind holds with the group in front.
  Split-take :
      (group : List (Row U R)) (groups late : List (List (Row U R))) (row : Row U R)
      (rows : List (Row U R)) (p taken : Producer U R) (q : Queue U R)
      → p.channel ++ group ≡ row ∷ rows
      → taken.channel ≡ rows
      → taken.queue ≡ (ingest env row p.queue).1
      → Split groups taken late q
      → Split (group ∷ groups) p late q
  unfolding flatten ingest_all
  Split-take group groups late row rows p taken q more rest made (first, same, time, all) =
      let joined = sym (append_assoc p.channel group (flatten first)) in
      let begun = joined ∙ ap (λ front. front ++ flatten first) more in
      let goal : q ≡ ingest_all (rows ++ flatten first) (ingest env row p.queue).1 =
        all ∙ rw (rest, made) refl in
      let on_time =
        elim time as (λ _. OnTime (p.channel ++ flatten (group ∷ first)) (group ∷ first) late) [
          | inl none ↦ inl none
          | inr count ↦
              let size : length (p.channel ++ (group ++ flatten first))
                  ≡ length (taken.channel ++ flatten first) + 1 =
                rw (begun, rest) (omega arith) in
              inr (omega (arith, size, count))
        ] in
      (
        group ∷ first,
        ap (λ groups. group ∷ groups) same,
        on_time,
        goal ∙ sym (ap (λ rows. ingest_all rows p.queue) begun),
      )

  -- `drain_channel` empties the channel: it ingests the rows of the channel and those of the groups that
  -- arrive before the try that finds it empty, in order, and leaves the groups behind it.
  pub drain_channel-Emptied :
      (groups : List (List (Row U R))) (p : Producer U R)
      → p.queue.dropped < 2 ^ 64
      → Emptied groups p (drain_channel env groups p)
  unfolding drain_channel flatten ingest_all
  drain_channel-Emptied [] p bound = drain_rest-Emptied p bound
  drain_channel-Emptied (group ∷ groups) p bound =
      let here = arrive group p in
      let all = drain_channel env (group ∷ groups) p in
      let To = Emptied (group ∷ groups) p in
      elim (List-cases here.channel) [
        | inl none ↦
            let over : all ≡ (ok tt, record here { channel = [] }, groups) =
              rw (none, drain_channel)
                (ap (λ rows. (ok tt, record here { channel = rows }, groups)) none) in
            let rows = ap (λ rows. p.channel ++ rows) (append-nil group) ∙ none in
            let split : Split (group ∷ groups) p groups p.queue = (
              group ∷ [],
              refl,
              inr (rw rows (omega arith)),
              sym (ap (λ rows. ingest_all rows p.queue) rows),
            ) in
            subst To (sym over) (inl (refl, refl, split), bound, refl)
        | inr (row, rows, more) ↦
            let (result, q) = ingest env row p.queue in
            let made = ingest-dropped env row p.queue bound in
            let taken : Producer U R = record here {
              channel = rows;
              channel_depth = lower_depth here.channel_depth;
              queue = q;
            } in
            let (rest, low, phase) = drain_channel-Emptied groups taken made in
            let tail = drain_channel env groups taken in
            elim (ingest-result env row p.queue bound) [
              | inl fine ↦
                  let on : all ≡ tail = rw (more, fine, drain_channel) refl in
                  elim rest [
                    | inl (done, empty, split) ↦
                        let split' =
                          Split-take group groups tail.2 row rows p taken tail.1.queue more refl
                            refl split in
                        subst To (sym on) (inl (done, empty, split'), low, phase)
                    | inr stopped ↦ subst To (sym on) (inr stopped, low, phase)
                  ]
              | inr (panics, why) ↦
                  let stop : all ≡ (panic, taken, groups) = rw (more, panics, drain_channel) refl in
                  subst To (sym stop) (inr (refl, why), made, refl)
            ]
      ]
