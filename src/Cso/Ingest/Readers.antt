-- ===== src/Cso/Ingest/Readers.antt =====
-- What the subscribers of an ingest session are given.
use headendarr.Prelude.{
  ℕ, ◌+◌, ◌≡◌, ◌≢◌, ◌≤◌, max, refl, ap, subst, [], ◌∷◌, ◌++◌, none, some, length, sum_by-append,
  All, All-append, arith, if-Holds,
}
use headendarr.Prelude.Dict.{Dict, get, AllValues, AllValues-set, Holds}
use headendarr.Prelude.Text.{Text, text_key}
use headendarr.Cso.ByteQueue.{Bytes, ByteBudgetQueue, put_drop_oldest}
use headendarr.Cso.ByteQueue.Traces.{IsBounded, put-IsBounded}
use headendarr.Cso.Fanout.{primed_queue}
use headendarr.Cso.Fanout.Laws.{
  total, latest_within, latest_within-le, trim_history-latest_within, Small, latest_within-All,
  primed_queue-IsBounded,
}
use headendarr.Cso.Ingest.{IngestSession, broadcast, put_each, add_subscriber}

-- The bytes that a queue of the session may hold.
abbrev pub budget : IngestSession → ℕ
budget s = max 1 s.queue_max_bytes

-- The history is counted, bounded and made of chunks that a queue has room for, and every queue holds
-- no more than its budget.
pub record IsReady (s : IngestSession) : Type 0 where
  pub counted : s.history_bytes ≡ total s.history
  pub within : s.history_bytes ≤ s.max_history_bytes
  pub small : All (Small (budget s)) s.history
  pub bounded : AllValues (IsBounded (budget s)) s.subscribers

-- What a chunk leaves: the newest history that fits, and each reader with the chunk put.
pub record FansOut (s : IngestSession) (chunk : Bytes) (now : ℕ) (after : IngestSession)
    : Type 0 where
  pub history : after.history ≡ latest_within s.max_history_bytes (s.history ++ chunk ∷ [])
  pub delivered :
      (id : Text)
      → get id after.subscribers ≡ elim (get id s.subscribers) [
        | none ↦ none
        | some q ↦ some (put_drop_oldest q (some chunk) now).1
      ]
  pub ready : IsReady after

get-put_each :
    (chunk : Bytes) (now : ℕ) (id : Text) (subscribers : Dict Text ByteBudgetQueue)
    → get id (put_each chunk now subscribers) ≡ elim (get id subscribers) [
      | none ↦ none
      | some q ↦ some (put_drop_oldest q (some chunk) now).1
    ]
unfolding get
get-put_each chunk now id [] = refl
get-put_each chunk now id ((j, q) ∷ subscribers) =
    ground (arith, get-put_each chunk now id subscribers)

put_each-AllValues :
    (limit : ℕ) (chunk : Bytes) (now : ℕ) (subscribers : Dict Text ByteBudgetQueue)
    → length chunk ≤ limit
    → AllValues (IsBounded limit) subscribers
    → AllValues (IsBounded limit) (put_each chunk now subscribers)
put_each-AllValues limit chunk now [] fits h = tt
put_each-AllValues limit chunk now ((id, q) ∷ subscribers) fits h = (
  put-IsBounded limit q now chunk fits h.0,
  put_each-AllValues limit chunk now subscribers fits h.1,
)

-- A chunk that is not empty and within the budget of a queue, for a session whose history is
-- counted and bounded and whose queues are within their budget: the history becomes the longest
-- tail, with the chunk, that is within its bytes, the chunk is put to the queue of every reader
-- and to no other, and the session stays as described.
pub broadcast-FansOut :
    (s : IngestSession) (chunk : Bytes) (now : ℕ)
    → chunk ≢ []
    → length chunk ≤ budget s
    → IsReady s
    → FansOut s chunk now (broadcast s chunk now)
unfolding broadcast
broadcast-FansOut s [] now n fits r = elim (n refl) [ ]
broadcast-FansOut s (b ∷ bytes) now n fits r =
    let chunk = b ∷ bytes in
    let all = s.history ++ chunk ∷ [] in
    let counted : s.history_bytes + length chunk ≡ total all =
      omega (arith, r.counted, sum_by-append (λ part. length part) s.history (chunk ∷ [])) in
    let e =
      trim_history-latest_within s.max_history_bytes all (s.history_bytes + length chunk) counted in
    record {
      history = ap (λ p. p.0) e;
      delivered = λ id. get-put_each chunk now id s.subscribers;
      ready = record {
        counted = rw e refl;
        within = rw e (latest_within-le s.max_history_bytes all);
        small = rw e (
            latest_within-All (Small (budget s)) s.max_history_bytes all
              (All-append (Small (budget s)) s.history (chunk ∷ []) r.small (fits, tt)));
        bounded = put_each-AllValues (budget s) chunk now s.subscribers fits r.bounded;
      };
    }

pub add_subscriber-IsReady :
    (s after : IngestSession) (id : Text) (prebuffer_bytes now : ℕ)
    → add_subscriber s id prebuffer_bytes now ≡ some after
    → IsReady s
    → IsReady after
unfolding add_subscriber
add_subscriber-IsReady s after id prebuffer_bytes now e r =
    let q = primed_queue s.queue_max_bytes prebuffer_bytes s.history now in
    let ready : Holds IsReady (add_subscriber s id prebuffer_bytes now) =
      if-Holds (Holds IsReady) s.segmented_handoff none _ (λ _. tt)
        (λ _. record {
          counted = r.counted;
          within = r.within;
          small = r.small;
          bounded =
              AllValues-set (IsBounded (budget s)) id q s.subscribers
                (primed_queue-IsBounded s.queue_max_bytes prebuffer_bytes s.history now r.small)
                r.bounded;
        }) in
    subst (Holds IsReady) e ready
