-- ===== src/Chain/Apply/Topics.antt =====
-- The messages of a topic form a chain: numbered from one, each hash made of the one before.
use hanvil.Prelude.{
  ℕ, ◌+◌, ◌<◌, ◌≡◌, refl, ◌∙◌, sym, ap, subst, Option, some, List, [], ◌∷◌, ◌++◌, Bytes, arith,
  length, length-append, ◌==◌, Bool-cases, inl, inr, Option-cases, ==_iff,
}
use hanvil.Prelude.Result.{ok}
use hanvil.Word.{u64_mod, add_u64}
use hanvil.Maps.BTreeMap
use hanvil.Time.{Timestamp}
use hanvil.Accounts.{EntityId, Key}
use hanvil.Records.{Topic, TopicMessage, Record, running_hash_v3}
use hanvil.Evm.{Externals}
use hanvil.Chain.{ChainState, allocate_id}
use hanvil.Chain.Apply.{zero_digest, new_topic, with_message, apply_submit, apply_create_topic}

abbrev pub last_hash : Bytes → List TopicMessage → Bytes
last_hash previous [] = previous
last_hash previous (m ∷ ms) = last_hash m.running_hash ms

last_hash-append :
    (previous : Bytes) (l : List TopicMessage) (m : TopicMessage)
    → last_hash previous (l ++ m ∷ []) ≡ m.running_hash
last_hash-append previous [] m = refl
last_hash-append previous (x ∷ xs) m = last_hash-append x.running_hash xs m

some_eq : (a b : Topic) → some a ≡ some b → a ≡ b
some_eq a b h = cc

module _ {Db : Type 0} (ext : Externals Db) where
  -- The message behind `n` others, the last of which has the hash `previous`.
  abbrev pub Continues : EntityId → Bytes → ℕ → TopicMessage → Type 0
  Continues topic previous n m =
      (m.sequence_number ≡ n + 1)
      × (m.running_hash
          ≡ running_hash_v3 ext.sha384 previous m.payer topic m.consensus_timestamp
              m.sequence_number m.message)

  abbrev pub Chained : EntityId → Bytes → ℕ → List TopicMessage → Type 0
  Chained topic previous n [] = Unit {0}
  Chained topic previous n (m ∷ ms) =
      Continues topic previous n m × Chained topic m.running_hash (n + 1) ms

  Chained-append :
      (topic : EntityId) (previous : Bytes) (n : ℕ) (l : List TopicMessage) (m : TopicMessage)
      → Chained topic previous n l
      → Continues topic (last_hash previous l) (n + length l) m
      → Chained topic previous n (l ++ m ∷ [])
  Chained-append topic previous n [] m h c = (((omega (arith, c.0), c.1)), tt)
  Chained-append topic previous n (x ∷ xs) m h c =
      (h.0, Chained-append topic x.running_hash (n + 1) xs m h.1 (omega (arith, c.0), c.1))

  pub record IsChained (t : Topic) : Type 0 where
    pub chained : Chained t.id zero_digest 0 t.messages
    pub counted : t.sequence_number ≡ length t.messages
    pub newest : t.running_hash ≡ last_hash zero_digest t.messages

  -- Every topic of a chain stands under its own id, and its messages are chained.
  abbrev pub AreChained : ChainState Db → Type 0
  AreChained s =
      (i : EntityId) (t : Topic) → BTreeMap.get i s.topics ≡ some t → (t.id ≡ i) × IsChained t

  with_message-IsChained :
      (t : Topic) (topic payer : EntityId) (at : Timestamp) (message : Bytes)
      → t.id ≡ topic
      → t.sequence_number + 1 < u64_mod
      → IsChained t
      → IsChained (with_message ext t topic payer at message)
  unfolding with_message add_u64
  with_message-IsChained t topic payer at message e room v = record {
    chained =
        Chained-append t.id zero_digest 0 t.messages _ v.chained
          (omega (arith, v.counted), rw (e, sym v.newest) refl);
    counted = omega (arith, v.counted, length-append t.messages _);
    newest = sym (last_hash-append zero_digest t.messages _);
  }

  with_message_id :
      (t : Topic) (topic payer : EntityId) (at : Timestamp) (message : Bytes)
      → t.id ≡ topic
      → (with_message ext t topic payer at message).id ≡ topic
  unfolding with_message
  with_message_id t topic payer at message e = e

  insert-AreChained :
      (s s' : ChainState Db) (i : EntityId) (t : Topic)
      → s'.topics ≡ BTreeMap.insert i t s.topics
      → t.id ≡ i
      → IsChained t
      → AreChained s
      → AreChained s'
  insert-AreChained s s' i t same named chained v j u found =
      let read : BTreeMap.get j (BTreeMap.insert i t s.topics) ≡ some u =
        ap (BTreeMap.get j) (sym same) ∙ found in
      elim (Bool-cases (i == j)) [
        | inl hit ↦
            (let e : t ≡ u =
                some_eq t u (sym (BTreeMap.get-insert i t s.topics j ∙ rw hit refl) ∙ read) in
              subst (λ x. (x.id ≡ j) × IsChained x) e (named ∙ (==_iff i j).0 hit, chained))
        | inr miss ↦ v j u (sym (BTreeMap.get-insert i t s.topics j ∙ rw miss refl) ∙ read)
      ]

  submit_topics :
      (topic : EntityId) (message : Bytes) (s : ChainState Db) (r : Record) (at : Timestamp)
      (p : ChainState Db × Record)
      → apply_submit ext topic message s r at ≡ ok p
      → (t : Topic) × (BTreeMap.get topic s.topics ≡ some t)
        × (p.0.topics
            ≡ BTreeMap.insert topic (with_message ext t topic r.id.payer at message) s.topics)
  unfolding apply_submit
  submit_topics topic [] s r at p h = cc
  submit_topics topic (b ∷ bs) s r at p h = elim (Option-cases (BTreeMap.get topic s.topics)) [
    | inl e ↦ ground (arith, e)
    | inr (t, e) ↦ (t, e, ground (arith, e))
  ]

  -- A `consensusSubmitMessage` that succeeds, on a topic whose sequence number has room for one
  -- more in a u64, on a chain with chained topics, keeps the messages of every topic numbered from one without a gap, each with
  -- the running hash made from the one before it, and keeps each topic's number and hash those of
  -- its newest message.
  pub apply_submit-AreChained :
      (topic : EntityId) (message : Bytes) (s : ChainState Db) (r : Record) (at : Timestamp)
      (t : Topic) (p : ChainState Db × Record)
      → AreChained s
      → BTreeMap.get topic s.topics ≡ some t
      → t.sequence_number + 1 < u64_mod
      → apply_submit ext topic message s r at ≡ ok p
      → AreChained p.0
  apply_submit-AreChained topic message s r at t p v found room h =
      let (u, found', result) = submit_topics topic message s r at p h in
      let e = some_eq t u (sym found ∙ found') in
      let (named, chained) = v topic u found' in
      insert-AreChained s p.0 topic (with_message ext u topic r.id.payer at message) result
        (with_message_id u topic r.id.payer at message named)
        (with_message-IsChained u topic r.id.payer at message named
          (subst (λ x. x.sequence_number + 1 < u64_mod) e room) chained)
        v

  -- A `consensusCreateTopic` keeps the topics of a chain on which every topic's messages are
  -- numbered from one without a gap and chained by their running hashes so; the new topic starts
  -- with number zero and the zero hash.
  pub apply_create_topic-AreChained :
      (memo : Bytes) (admin submit : Option Key) (period : ℕ) (renew : Option EntityId)
      (s : ChainState Db) (r : Record) (at : Timestamp)
      → AreChained s
      → AreChained (apply_create_topic memo admin submit period renew s r at).0
  unfolding apply_create_topic allocate_id
  apply_create_topic-AreChained memo admin submit period renew s r at v =
      insert-AreChained s (apply_create_topic memo admin submit period renew s r at).0 s.next_id
        (new_topic s.next_id memo admin submit period renew at) refl refl
        (record { chained = tt; counted = refl; newest = refl }) v
