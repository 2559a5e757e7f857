-- ===== src/Hls/Multiplexer/History.antt =====
-- `_broadcast`: the history stays within its bytes, and each client's queue gets the chunk.
use headendarr.Prelude.{
  ℕ, ◌+◌, ◌-◌, ◌≤◌, ◌<◌, ◌≡◌, ◌≢◌, ◌⊎◌, inl, inr, refl, List, [], ◌∷◌, ◌++◌, Option, none, some,
  length, length-append, sum_by, sum_by-append, leb, if◌then◌else◌, arith, le-or-lt, le→leb,
  lt→leb_false,
}
use headendarr.Prelude.Dict.{Dict, Key, get}
use headendarr.Hls.Multiplexer.{
  Chunk, Queue, Stream, queue_limit, tail, push, trim, broadcast, with_queue_items,
}

abbrev pub total : List Chunk → ℕ
total = sum_by (λ chunk. length chunk)

-- The longest tail of a history that is within a number of bytes.
unfoldable pub latest_within : ℕ → List Chunk → List Chunk
latest_within max_bytes [] = []
latest_within max_bytes (chunk ∷ history) =
    if leb (total (chunk ∷ history)) max_bytes
    then chunk ∷ history
    else latest_within max_bytes history

latest_within-le : (m : ℕ) (history : List Chunk) → total (latest_within m history) ≤ m
unfolding latest_within
latest_within-le m [] = omega arith
latest_within-le m (chunk ∷ history) = ground (arith, latest_within-le m history)

trim-latest_within :
    (m : ℕ) (history : List Chunk) (bytes : ℕ)
    → bytes ≡ total history
    → trim m history bytes ≡ some (latest_within m history, total (latest_within m history))
unfolding trim latest_within
trim-latest_within m [] bytes e = ground arith
trim-latest_within m (chunk ∷ history) bytes e =
    ground (arith, trim-latest_within m history (bytes - length chunk))

-- A queue with room has the chunk at its end; a full one has lost its oldest item for it.
abbrev pub Gets : Chunk → Queue → Queue → Type 0
Gets chunk q after =
    ((length q < queue_limit) × (after ≡ q ++ some chunk ∷ []))
    ⊎ ((queue_limit ≤ length q)
        × ((oldest : Option Chunk) × (rest : Queue) × (q ≡ oldest ∷ rest)
            × (after ≡ rest ++ some chunk ∷ [])))

abbrev pub Delivered : Chunk → Option Queue → Option Queue → Type 0
Delivered chunk none after = after ≡ none
Delivered chunk (some q) after = (fed : Queue) × (after ≡ some fed) × Gets chunk q fed

queue_limit_pos : 1 ≤ queue_limit
unfolding queue_limit
queue_limit_pos = omega arith

push-Gets : (chunk : Chunk) (q : Queue) → Gets chunk q (push chunk q)
unfolding push
push-Gets chunk [] = ground (arith, queue_limit_pos)
push-Gets chunk (oldest ∷ rest) = elim (le-or-lt queue_limit (length (oldest ∷ rest))) [
  | inl full ↦
      rw (le→leb queue_limit (length (oldest ∷ rest)) full) (inr (full, (oldest, rest, refl, refl)))
  | inr room ↦ rw (lt→leb_false queue_limit (length (oldest ∷ rest)) room) (inl (room, refl))
]

push-Delivered :
    (chunk : Chunk) (before after : Option Queue)
    → after ≡ elim before [ none ↦ none | some q ↦ some (push chunk q) ]
    → Delivered chunk before after
push-Delivered chunk none after e = e
push-Delivered chunk (some q) after e = (push chunk q, e, push-Gets chunk q)

-- The byte count of the history is exact and within its bound.
pub record IsValid {C : Type 0} (s : Stream C) : Type 0 where
  pub counted : s.history_bytes ≡ total s.history
  pub within : s.history_bytes ≤ s.max_history_bytes

module _ {C : Type 0} ⦃of_client : Key C⦄ where
  pub get-with_queue_items :
      (f : Queue → Queue) (k : C) (queues : Dict C Queue)
      → get k (with_queue_items f queues)
        ≡ elim (get k queues) [ none ↦ none | some q ↦ some (f q) ]
  unfolding get
  get-with_queue_items f k [] = refl
  get-with_queue_items f k ((j, q) ∷ queues) = ground (arith, get-with_queue_items f k queues)

  -- What a broadcast leaves. The queues have the same owners, and each has got the chunk.
  pub record Broadcasts (s : Stream C) (chunk : Chunk) (after : Stream C) : Type 0 where
    pub history : after.history ≡ latest_within s.max_history_bytes (s.history ++ chunk ∷ [])
    pub valid : IsValid after
    pub delivered : (k : C) → Delivered chunk (get k s.queues) (get k after.queues)
    pub still_running : after.running ≡ s.running

  -- A broadcast of a chunk that is not empty to a stream with an exact history raises no exception:
  -- the history becomes the longest tail, with the chunk, that is within its bytes; the queue of
  -- each client ends with the chunk, a full one having lost its oldest item for it and nothing
  -- else; no other client has a queue, and the stream goes on running or not as before.
  pub broadcast-Broadcasts :
      (s : Stream C) (chunk : Chunk) (now : ℕ)
      → chunk ≢ []
      → IsValid s
      → (after : Stream C) × (broadcast s chunk now ≡ some after) × Broadcasts s chunk after
  unfolding broadcast
  broadcast-Broadcasts s [] now n v = absurd (n refl)
  broadcast-Broadcasts s (b ∷ bytes) now n v =
      let chunk : Chunk = b ∷ bytes in
      let history = latest_within s.max_history_bytes (s.history ++ chunk ∷ []) in
      (
        record s {
          last_activity = now;
          history = history;
          history_bytes = total history;
          queues = with_queue_items (push chunk) s.queues;
        },
        rw (
            trim-latest_within s.max_history_bytes (s.history ++ chunk ∷ [])
              (s.history_bytes + length chunk)
              (omega (
                arith,
                v.counted,
                sum_by-append (λ (c : Chunk). length c) s.history (chunk ∷ []),
              ))),
        record {
          history = refl;
          valid = record {
            counted = refl;
            within = latest_within-le s.max_history_bytes (s.history ++ chunk ∷ []);
          };
          delivered = λ k.
              push-Delivered chunk (get k s.queues) (get k (with_queue_items (push chunk) s.queues))
                (get-with_queue_items (push chunk) k s.queues);
          still_running = refl;
        },
      )

length-tail : (q : Queue) → 1 ≤ length q → length (tail q) + 1 ≡ length q
length-tail [] h = absurd (omega arith)
length-tail (item ∷ q) h = omega arith

-- A push ends the queue with the chunk; it drops one item, the oldest, exactly when the queue is
-- full, and keeps the queue within its limit.
pub push_lem :
    (chunk : Chunk) (q : Queue)
    → length q ≤ queue_limit
    → (((length q < queue_limit) × (push chunk q ≡ q ++ some chunk ∷ []))
        ⊎ ((length q ≡ queue_limit) × (push chunk q ≡ tail q ++ some chunk ∷ [])))
      × (length (push chunk q) ≤ queue_limit)
unfolding push
push_lem chunk q h = elim (le-or-lt queue_limit (length q)) [
  | inl full ↦ rw (le→leb queue_limit (length q) full) (
    inr (omega arith, refl),
    omega (arith, length-tail q, queue_limit_pos, length-append (tail q) (some chunk ∷ [])),
  )
  | inr room ↦
      rw (lt→leb_false queue_limit (length q) room)
        (inl (room, refl), omega (arith, length-append q (some chunk ∷ [])))
]
