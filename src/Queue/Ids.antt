-- ===== src/Queue/Ids.antt =====
-- crates/wyrd-queue/src/queue.rs: the invariant of batch ids.
use wyrd_core.Prelude.{
  ℕ, suc, ◌≤◌, ◌<◌, ◌≡◌, List, [], ◌∷◌, ◌++◌, length, Outcome, ok, arith, refl, sym, ap, ◌∙◌, All,
  All-append, All-map,
}
use wyrd_core.Queue.{Row, BatchId, SealedBatch, Setup, Chunks, build_frames, seal}

All-both :
    {A : Type 0} (P Q : A → Type 0) (xs : List A) → All P xs → All Q xs → All (λ x. P x × Q x) xs
All-both P Q [] h k = tt
All-both P Q (x ∷ xs) (h, hs) (k, ks) = ((h, k), All-both P Q xs hs ks)

abbrev frames_of : {E : Type 0} → Outcome E (List ℕ) → List ℕ
frames_of (ok frames) = frames
frames_of _ = []

pub ok-frames :
    {E : Type 0} (m : Outcome E (List ℕ)) (xs ys : List ℕ) → m ≡ ok xs → m ≡ ok ys → xs ≡ ys
ok-frames m xs ys h k = ap frames_of (sym h ∙ k)

-- Batches under one id are equal.
abbrev pub Alike : List SealedBatch → Type 0
Alike [] = Unit
Alike (b ∷ sent) = All (λ d. d.batch_id ≡ b.batch_id → d ≡ b) sent × Alike sent

Alike-append :
    (sent : List SealedBatch) (b : SealedBatch)
    → Alike sent
    → All (λ d. d.batch_id ≡ b.batch_id → d ≡ b) sent
    → Alike (sent ++ b ∷ [])
Alike-append [] b h k = (tt, tt)
Alike-append (d ∷ sent) b (h, hs) (k, ks) =
    (All-append _ sent (b ∷ []) h ((λ same. sym (k (sym same))), tt), Alike-append sent b hs ks)

module _ {U R : Type 0} where
  abbrev pub Distinct : Chunks U R → Type 0
  Distinct [] = Unit
  Distinct ((batch_id, chunk) ∷ chunks) = All (λ c. ¬ (c.0 ≡ batch_id)) chunks × Distinct chunks

  pub Distinct-append :
      (chunks : Chunks U R) (c : BatchId × List (Row U R))
      → Distinct chunks
      → All (λ d. ¬ (c.0 ≡ d.0)) chunks
      → Distinct (chunks ++ c ∷ [])
  Distinct-append [] c h k = (tt, tt)
  Distinct-append ((batch_id, chunk) ∷ chunks) c (h, hs) (k, ks) =
      (All-append _ chunks (c ∷ []) h (k, tt), Distinct-append chunks c hs ks)

module _ {U R B E : Type 0} (env : Setup U R B E) where
  -- The id is one of the first `minted` UUIDs.
  abbrev pub Known : ℕ → BatchId → Type 0
  Known minted batch_id = (k : ℕ) × (k < minted) × (batch_id ≡ env.now_v7 k)

  -- A batch sent under the id of a chunk is what the chunk is sealed as, within the limit.
  abbrev pub SentAs : BatchId × List (Row U R) → SealedBatch → Type 0
  SentAs (batch_id, chunk) b =
      b.batch_id ≡ batch_id
      → (length b.frames ≤ env.config.max_message_bytes)
        × (build_frames env chunk ≡ ok b.frames)
        × (b ≡ seal env batch_id b.frames chunk)

  -- The invariant of what waits and what was sent.
  pub record Stable (waiting : Chunks U R) (minted : ℕ) (sent : List SealedBatch) : Type 0 where
    pub known : All (λ c. Known minted c.0) waiting
    pub known_sent : All (λ b. Known minted b.batch_id) sent
    pub distinct : Distinct waiting
    pub sent_as : All (λ c. All (SentAs c) sent) waiting
    pub alike : Alike sent

  pub Known-suc : (n : ℕ) (batch_id : BatchId) → Known n batch_id → Known (suc n) batch_id
  Known-suc n batch_id (k, bound, same) = (k, omega arith, same)

  pub Stable-tail :
      (c : BatchId × List (Row U R)) (waiting : Chunks U R) (minted : ℕ) (sent : List SealedBatch)
      → Stable (c ∷ waiting) minted sent
      → Stable waiting minted sent
  Stable-tail c waiting minted sent s = record {
    known = s.known.1;
    known_sent = s.known_sent;
    distinct = s.distinct.1;
    sent_as = s.sent_as.1;
    alike = s.alike;
  }

  pub Stable-nil :
      (waiting : Chunks U R) (minted : ℕ) (sent : List SealedBatch)
      → Stable waiting minted sent
      → Stable [] minted sent
  Stable-nil waiting minted sent s = record {
    known = tt;
    known_sent = s.known_sent;
    distinct = tt;
    sent_as = tt;
    alike = s.alike;
  }

  -- A send of the first chunk, which goes on waiting.
  pub Stable-send :
      (batch_id : BatchId) (chunk : List (Row U R)) (waiting : Chunks U R) (minted : ℕ)
      (sent : List SealedBatch) (frames : List ℕ)
      → build_frames env chunk ≡ ok frames
      → length frames ≤ env.config.max_message_bytes
      → Stable ((batch_id, chunk) ∷ waiting) minted sent
      → Stable ((batch_id, chunk) ∷ waiting) minted (sent ++ seal env batch_id frames chunk ∷ [])
  Stable-send batch_id chunk waiting minted sent frames built fits s =
      let b = seal env batch_id frames chunk in
      record {
        known = s.known;
        known_sent = All-append _ sent (b ∷ []) s.known_sent (s.known.0, tt);
        distinct = s.distinct;
        sent_as = (
          All-append _ sent (b ∷ []) s.sent_as.0 ((λ same. (fits, built, refl)), tt),
          All-map waiting
              (λ c h. All-append _ sent (b ∷ []) h.1 ((λ same. absurd (h.0 (sym same))), tt))
              (All-both _ _ waiting s.distinct.0 s.sent_as.1),
        );
        alike = Alike-append sent b s.alike (
            All-map sent
              (λ (d : SealedBatch) (h : SentAs (batch_id, chunk) d) same.
                let (small, made, sealed) = h same in
                sealed
                ∙ ap (λ fs. seal env batch_id fs chunk)
                    (ok-frames (build_frames env chunk) d.frames frames made built))
              s.sent_as.0);
      }
