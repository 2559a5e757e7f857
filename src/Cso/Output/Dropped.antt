-- ===== src/Cso/Output/Dropped.antt =====
-- Which clients an output drops under backpressure.
use headendarr.Prelude.{
  ◌+◌, ◌≤◌, ◌⊎◌, inl, inr, some, ℕ, ◌≡◌, ◌≢◌, refl, sym, ap, ◌∙◌, List, [], ◌∷◌, Bool, true, ◌&&◌,
  none, arith, ite, keep, if◌then◌else◌, if-Holds,
}
use headendarr.Prelude.Dict.{Dict, get, keys, is_empty, Distinct, get-pop}
use headendarr.Prelude.Text.{Text, text_key, one_of}
use headendarr.Cso.Output.{
  DropState, OutputSession, Stage, taken_down, ended, leave_queue, leave_reference, stop_output,
  without_client, remove_client, remove_clients,
}
use headendarr.Cso.ByteQueue.{ByteBudgetQueue}
use headendarr.Prelude.Text.OneOf.{one_of-nil, one_of-cons}
use headendarr.Cso.Output.Clients.{is_backpressured, drop_backpressured_clients}
use headendarr.Cso.Output.Tracked.{IsTracked, leave_queue-output, leave_reference-output}
use headendarr.Cso.Output.Calls.{remove_client-IsTracked}

is_empty-nil : {V : Type 0} (d : Dict Text V) → is_empty d ≡ true → d ≡ []
is_empty-nil [] e = refl
is_empty-nil (x ∷ d) e = cc

-- A stop with no clients leaves none.
stop_output-no_clients :
    (s : Stage) (now : ℕ) → s.output.clients ≡ [] → (stop_output s true now).output.clients ≡ []
unfolding stop_output taken_down ended
stop_output-no_clients s now e =
    let o = s.output in
    let down = record s { output = taken_down o } in
    let queue_left = leave_queue down o.ingest_queue now in
    let left = leave_reference queue_left o.ingest_lifecycle_reference now in
    let same : left.output ≡ taken_down o =
      leave_reference-output queue_left o.ingest_lifecycle_reference now
      ∙ leave_queue-output down o.ingest_queue now in
    if-Holds {A = Stage} (λ after. after.output.clients ≡ []) _ s
      (record left { output = ended left.output now }) (λ _. e) (λ _. rw (same, e) refl)

get-remove_client :
    (s : Stage) (id j : Text) (now : ℕ)
    → Distinct s.output.clients
    → get j (remove_client s id now).stage.output.clients
      ≡ ite (text_key.same id j) none (get j s.output.clients)
unfolding remove_client
get-remove_client s id j now once =
    let left = record s { output = without_client s.output id } in
    let gone = get-pop id j s.output.clients once in
    if-Holds {A = Stage}
      (λ after. get j after.output.clients ≡ ite (text_key.same id j) none (get j s.output.clients))
      (is_empty left.output.clients) (stop_output left true now) left
      (λ e.
        let empty = is_empty-nil left.output.clients e in
        ap (get j) (stop_output-no_clients left now empty ∙ sym empty) ∙ gone)
      (λ _. gone)

get-remove_clients :
    (s : Stage) (ids : List Text) (j : Text) (now : ℕ)
    → IsTracked s.output
    → get j (remove_clients s ids now).output.clients
      ≡ (if one_of ids j then none else get j s.output.clients)
unfolding remove_clients
get-remove_clients s [] j now t = rw (one_of-nil j) refl
get-remove_clients s (id ∷ ids) j now t =
    let removed = (remove_client s id now).stage in
    ground (
      arith,
      one_of-cons id ids j,
      get-remove_client s id j now t.once,
      get-remove_clients removed ids j now (remove_client-IsTracked s id now t),
    )

one_of-keep :
    (test : Text → Bool) (ids : List Text) (j : Text)
    → one_of (keep test ids) j ≡ (one_of ids j && test j)
one_of-keep test [] j = rw (one_of-nil j) refl
one_of-keep test (id ∷ ids) j =
    if-Holds (λ kept. one_of kept j ≡ (one_of (id ∷ ids) j && test j)) (test id)
      (id ∷ keep test ids) (keep test ids)
      (λ e.
        ground (
          arith,
          e,
          one_of-cons id ids j,
          one_of-cons id (keep test ids) j,
          one_of-keep test ids j,
        ))
      (λ e. ground (arith, e, one_of-cons id ids j, one_of-keep test ids j))

one_of-keys : {V : Type 0} (d : Dict Text V) (j : Text) → get j d ≢ none → one_of (keys d) j ≡ true
unfolding get
one_of-keys [] j n = absurd (n refl)
one_of-keys ((id, v) ∷ d) j n = ground (arith, n, one_of-cons id (keys d) j, one_of-keys d j)

backpressured_known :
    (o : OutputSession) (min_elapsed min_drop_count now : ℕ) (j : Text)
    → is_backpressured o min_elapsed min_drop_count now j ≡ true
    → get j o.client_drop_state ≢ none
unfolding is_backpressured
backpressured_known o min_elapsed min_drop_count now j e missing = ground (arith, e, missing)

get-drop_backpressured_clients :
    (s : Stage) (min_elapsed min_drop_count now : ℕ) (j : Text)
    → IsTracked s.output
    → get j (drop_backpressured_clients s min_elapsed min_drop_count now).1.output.clients ≡ (
        if is_backpressured s.output min_elapsed min_drop_count now j
        then none
        else get j s.output.clients)
unfolding drop_backpressured_clients
get-drop_backpressured_clients s min_elapsed min_drop_count now j t =
    let test = is_backpressured s.output min_elapsed min_drop_count now in
    let ids = keys s.output.client_drop_state in
    let known = backpressured_known s.output min_elapsed min_drop_count now j in
    ground (
      arith,
      get-remove_clients s (keep test ids) j now t,
      one_of-keep test ids j,
      one_of-keys s.output.client_drop_state j,
      known,
    )

-- A client has drops noted, the first of them so long ago and so many in all. A first time of 0 is
-- the present.
pub record IsBehind (o : OutputSession) (min_elapsed min_drop_count now : ℕ) (j : Text)
    : Type 0 where
  pub state : DropState
  pub noted : get j o.client_drop_state ≡ some state
  pub long :
      ((1 ≤ state.first_ts) × (state.first_ts + min_elapsed ≤ now))
      ⊎ ((state.first_ts ≡ 0) × (min_elapsed ≡ 0))
  pub many : min_drop_count ≤ state.count

backpressured-IsBehind :
    (o : OutputSession) (min_elapsed min_drop_count now : ℕ) (j : Text)
    → is_backpressured o min_elapsed min_drop_count now j ≡ true
    → IsBehind o min_elapsed min_drop_count now j
unfolding is_backpressured
backpressured-IsBehind o min_elapsed min_drop_count now j e =
    elim (get j o.client_drop_state)
        as (λ d. get j o.client_drop_state ≡ d → IsBehind o min_elapsed min_drop_count now j) [
          | none ↦ λ missing. absurd (ground (arith, e, missing))
          | some state ↦ λ noted. record {
            state = state;
            noted = noted;
            long = ground (arith, e, noted);
            many = ground (arith, e, noted);
          }
        ]
      refl

behind-backpressured :
    (o : OutputSession) (min_elapsed min_drop_count now : ℕ) (j : Text) (q : ByteBudgetQueue)
    → get j o.clients ≡ some q
    → IsBehind o min_elapsed min_drop_count now j
    → is_backpressured o min_elapsed min_drop_count now j ≡ true
unfolding is_backpressured
behind-backpressured o min_elapsed min_drop_count now j q client behind =
    rw (client, behind.noted) (ground (arith, behind.long, behind.many))

-- For a client of an output that keeps track of its clients only, and each once: dropping the
-- clients under backpressure removes the client exactly if drops are noted for it, the first of
-- them as long ago as asked and as many in all; otherwise its queue stays as it was.
pub drop_backpressured_clients-get :
    (s : Stage) (min_elapsed min_drop_count now : ℕ) (j : Text) (q : ByteBudgetQueue)
    → IsTracked s.output
    → get j s.output.clients ≡ some q
    → let after = (drop_backpressured_clients s min_elapsed min_drop_count now).1.output.clients in
      (IsBehind s.output min_elapsed min_drop_count now j × (get j after ≡ none))
      ⊎ ((¬ (IsBehind s.output min_elapsed min_drop_count now j)) × (get j after ≡ some q))
drop_backpressured_clients-get s min_elapsed min_drop_count now j q t client =
    let behind = IsBehind s.output min_elapsed min_drop_count now j in
    rw (get-drop_backpressured_clients s min_elapsed min_drop_count now j t) (
      if-Holds (λ left. (behind × (left ≡ none)) ⊎ ((¬ behind) × (left ≡ some q)))
        (is_backpressured s.output min_elapsed min_drop_count now j) none (get j s.output.clients)
        (λ e. inl (backpressured-IsBehind s.output min_elapsed min_drop_count now j e, refl))
        (λ e. inr (
          (λ b. cc (e, behind-backpressured s.output min_elapsed min_drop_count now j q client b)),
          client,
        )))
