-- ===== src/Cso/Output/Tracked.antt =====
-- Which clients an output session keeps track of: whatever is called, in any order.
use headendarr.Prelude.{
  ℕ, ◌≡◌, ◌≢◌, refl, ◌∙◌, List, [], ◌∷◌, Bool, true, false, none, ltb, All, arith, if-Holds,
  elim-Holds,
}
use headendarr.Prelude.Dict.{
  Dict, get, set, pop, keys, is_empty, Distinct, get-set, get-pop, set-Distinct, pop-Distinct,
}
use headendarr.Prelude.Text.{Text, text_key}
use headendarr.Cso.ByteQueue.{Bytes, ByteBudgetQueue}
use headendarr.Cso.Fanout.{primed_queue}
use headendarr.Cso.Ingest.Stop.{put_eof_each}
use headendarr.Cso.Output.{
  DropState, OutputSession, Stage, add_client, touch_client, touch_each, touch_all_clients,
  taken_down, ended, leave_queue, leave_reference, stop_output,
}
use headendarr.Cso.Output.Clients.{
  is_stale, put_active, note_drop, note_drops, note_results, put_chunk,
}

-- A dict has no key that the clients do not have, and none twice.
pub record Within {V : Type 0} (clients : Dict Text ByteBudgetQueue) (d : Dict Text V)
    : Type 0 where
  pub once : Distinct d
  pub within : (id : Text) → get id clients ≡ none → get id d ≡ none

pub record IsTracked (o : OutputSession) : Type 0 where
  pub once : Distinct o.clients
  pub drops : Within o.clients o.client_drop_state
  pub touches : Within o.clients o.client_last_touch

module _ {V : Type 0} where
  empty-Within : (clients : Dict Text ByteBudgetQueue) → Within {V = V} clients []
  unfolding get
  empty-Within clients = record { once = tt; within = λ id e. refl }

  pub pop-Within :
      (clients : Dict Text ByteBudgetQueue) (d : Dict Text V) (id : Text)
      → Distinct clients
      → Within clients d
      → Within (pop id clients) (pop id d)
  pop-Within clients d id once w = record {
    once = pop-Distinct id d w.once;
    within = λ j e. ground (arith, get-pop id j clients once, get-pop id j d w.once, w.within j, e);
  }

  set-Within :
      (clients : Dict Text ByteBudgetQueue) (d : Dict Text V) (id : Text) (q : ByteBudgetQueue)
      (v : V)
      → Within clients d
      → Within (set id q clients) (set id v d)
  set-Within clients d id q v w = record {
    once = set-Distinct id v d w.once;
    within = λ j e. ground (arith, get-set id j q clients, get-set id j v d, w.within j, e);
  }

  drop-Within :
      (clients : Dict Text ByteBudgetQueue) (d : Dict Text V) (id : Text) (q : ByteBudgetQueue)
      → Within clients d
      → Within (set id q clients) (pop id d)
  drop-Within clients d id q w = record {
    once = pop-Distinct id d w.once;
    within = λ j e. ground (arith, get-set id j q clients, get-pop id j d w.once, w.within j, e);
  }

  -- Setting a key that the clients have.
  touch-Within :
      (clients : Dict Text ByteBudgetQueue) (d : Dict Text V) (id : Text) (v : V)
      → get id clients ≢ none
      → Within clients d
      → Within clients (set id v d)
  touch-Within clients d id v n w = record {
    once = set-Distinct id v d w.once;
    within = λ j e. ground (arith, get-set id j v d, w.within j, e, n);
  }

  -- Other clients with the same keys.
  pub same-Within :
      (clients after : Dict Text ByteBudgetQueue) (d : Dict Text V)
      → ((id : Text) → get id after ≡ none → get id clients ≡ none)
      → Within clients d
      → Within after d
  same-Within clients after d same w = record {
    once = w.once;
    within = λ id e. w.within id (same id e);
  }

  -- Dropping a key from the smaller dict alone.
  forget-Within :
      (clients : Dict Text ByteBudgetQueue) (d : Dict Text V) (id : Text)
      → Within clients d
      → Within clients (pop id d)
  forget-Within clients d id w = record {
    once = pop-Distinct id d w.once;
    within = λ j e. ground (arith, get-pop id j d w.once, w.within j, e);
  }

abbrev Present : Dict Text ByteBudgetQueue → Text → Type 0
Present clients id = get id clients ≢ none

pub keys-Present :
    (full clients : Dict Text ByteBudgetQueue)
    → ((id : Text) → Present clients id → Present full id)
    → All (Present full) (keys clients)
unfolding get
keys-Present full [] inside = tt
keys-Present full ((j, q) ∷ clients) inside =
    (inside j (ground arith), keys-Present full clients (λ id n. inside id (ground (arith, n))))

touch_each-Within :
    (clients : Dict Text ByteBudgetQueue) (ids : List Text) (now : ℕ) (d : Dict Text ℕ)
    → All (Present clients) ids
    → Within clients d
    → Within clients (touch_each ids now d)
touch_each-Within clients [] now d here w = w
touch_each-Within clients (id ∷ ids) now d here w =
    touch_each-Within clients ids now (set id now d) here.1 (touch-Within clients d id now here.0 w)

get-put_active_missing :
    (o : OutputSession) (suspended : Bool) (chunk : Bytes) (now : ℕ) (id : Text)
    (clients : Dict Text ByteBudgetQueue)
    → get id clients ≡ none
    → get id (put_active o suspended chunk now clients) ≡ none
unfolding get put_active
get-put_active_missing o suspended chunk now id [] e = refl
get-put_active_missing o suspended chunk now id ((j, q) ∷ clients) e =
    ground (arith, e, get-put_active_missing o suspended chunk now id clients)

pub missing-put_active :
    (o : OutputSession) (suspended : Bool) (chunk : Bytes) (now : ℕ) (id : Text)
    (clients : Dict Text ByteBudgetQueue)
    → get id (put_active o suspended chunk now clients) ≡ none
    → get id clients ≡ none
unfolding get put_active
missing-put_active o suspended chunk now id [] e = refl
missing-put_active o suspended chunk now id ((j, q) ∷ clients) e =
    ground (arith, e, missing-put_active o suspended chunk now id clients)

pub put_active-Distinct :
    (o : OutputSession) (suspended : Bool) (chunk : Bytes) (now : ℕ)
    (clients : Dict Text ByteBudgetQueue)
    → Distinct clients
    → Distinct (put_active o suspended chunk now clients)
unfolding put_active
put_active-Distinct o suspended chunk now [] h = tt
put_active-Distinct o suspended chunk now ((j, q) ∷ clients) h =
    let rest = put_active-Distinct o suspended chunk now clients h.1 in
    let missing = get-put_active_missing o suspended chunk now j clients h.0 in
    if-Holds Distinct (is_stale o suspended now j) _ _ (λ _. (missing, rest)) (λ _. (missing, rest))

note_drops-Within :
    (clients : Dict Text ByteBudgetQueue) (now : ℕ) (results : Dict Text ℕ)
    (states : Dict Text DropState)
    → Within clients states
    → Within clients (note_drops clients now results states)
unfolding note_drops note_drop
note_drops-Within clients now [] states w = w
note_drops-Within clients now ((id, dropped) ∷ results) states w =
    note_drops-Within clients now results _ (
      elim-Holds (Within clients) (get id clients) states _ (λ _. w)
        (λ q e.
          if-Holds (Within clients) (ltb 0 dropped) _ _
            (λ _. touch-Within clients states id _ (λ e'. cc (e, e')) w)
            (λ _. forget-Within clients states id w)))

pub note_results-IsTracked :
    (o : OutputSession) (now : ℕ) (results : Dict Text ℕ)
    → IsTracked o
    → IsTracked (note_results o now results)
unfolding note_results
note_results-IsTracked o now results t = record {
  once = t.once;
  drops = note_drops-Within o.clients now results o.client_drop_state t.drops;
  touches = t.touches;
}

pub put_chunk-IsTracked :
    (o : OutputSession) (suspended : Bool) (chunk : Bytes) (now : ℕ)
    → IsTracked o
    → IsTracked (put_chunk o suspended chunk now)
unfolding put_chunk
put_chunk-IsTracked o suspended chunk now t =
    let after = put_active o suspended chunk now o.clients in
    let missing : (id : Text) → get id after ≡ none → get id o.clients ≡ none =
      λ id e. missing-put_active o suspended chunk now id o.clients e in
    record {
      once = put_active-Distinct o suspended chunk now o.clients t.once;
      drops = same-Within o.clients after o.client_drop_state missing t.drops;
      touches = same-Within o.clients after o.client_last_touch missing t.touches;
    }

pub add_client-IsTracked :
    (o : OutputSession) (id : Text) (prebuffer_bytes now : ℕ)
    → IsTracked o
    → IsTracked (add_client o id prebuffer_bytes now)
unfolding add_client
add_client-IsTracked o id prebuffer_bytes now t =
    let q = primed_queue o.queue_max_bytes prebuffer_bytes o.history now in
    record {
      once = set-Distinct id q o.clients t.once;
      drops = drop-Within o.clients o.client_drop_state id q t.drops;
      touches = set-Within o.clients o.client_last_touch id q now t.touches;
    }

pub touch_client-IsTracked :
    (o : OutputSession) (id : Text) (now : ℕ) → IsTracked o → IsTracked (touch_client o id now)
unfolding touch_client
touch_client-IsTracked o id now t =
    elim-Holds IsTracked (get id o.clients) _ _ (λ _. t)
      (λ q e. record {
        once = t.once;
        drops = t.drops;
        touches = touch-Within o.clients o.client_last_touch id now (λ e'. cc (e, e')) t.touches;
      })

pub touch_all_clients-IsTracked :
    (o : OutputSession) (now : ℕ) → IsTracked o → IsTracked (touch_all_clients o now)
unfolding touch_all_clients
touch_all_clients-IsTracked o now t =
    if-Holds IsTracked (is_empty o.clients) _ _ (λ _. t)
      (λ _. record {
        once = t.once;
        drops = t.drops;
        touches =
            touch_each-Within o.clients (keys o.clients) now o.client_last_touch
              (keys-Present o.clients o.clients (λ id n. n)) t.touches;
      })

get-put_eof_each_missing :
    (now : ℕ) (id : Text) (clients : Dict Text ByteBudgetQueue)
    → get id clients ≡ none
    → get id (put_eof_each now clients) ≡ none
unfolding get
get-put_eof_each_missing now id [] e = refl
get-put_eof_each_missing now id ((j, q) ∷ clients) e =
    ground (arith, e, get-put_eof_each_missing now id clients)

put_eof_each-Distinct :
    (now : ℕ) (clients : Dict Text ByteBudgetQueue)
    → Distinct clients
    → Distinct (put_eof_each now clients)
put_eof_each-Distinct now [] h = tt
put_eof_each-Distinct now ((j, q) ∷ clients) h =
    (get-put_eof_each_missing now j clients h.0, put_eof_each-Distinct now clients h.1)

pub leave_queue-output : (s : Stage) (b : Bool) (now : ℕ) → (leave_queue s b now).output ≡ s.output
unfolding leave_queue
leave_queue-output s false now = refl
leave_queue-output s true now = refl

pub leave_reference-output :
    (s : Stage) (b : Bool) (now : ℕ) → (leave_reference s b now).output ≡ s.output
unfolding leave_reference
leave_reference-output s false now = refl
leave_reference-output s true now = refl

pub stop_output-IsTracked :
    (s : Stage) (force : Bool) (now : ℕ)
    → IsTracked s.output
    → IsTracked (stop_output s force now).output
unfolding stop_output taken_down ended
stop_output-IsTracked s force now t =
    let o = s.output in
    let down = record s { output = taken_down o } in
    let queue_left = leave_queue down o.ingest_queue now in
    let left = leave_reference queue_left o.ingest_lifecycle_reference now in
    let same : left.output ≡ taken_down o =
      leave_reference-output queue_left o.ingest_lifecycle_reference now
      ∙ leave_queue-output down o.ingest_queue now in
    if-Holds {A = Stage} (λ after. IsTracked after.output) _ s
      (record left { output = ended left.output now }) (λ _. t)
      (λ _. rw same (record {
        once = put_eof_each-Distinct now o.clients t.once;
        drops = empty-Within (put_eof_each now o.clients);
        touches = empty-Within (put_eof_each now o.clients);
      }))
