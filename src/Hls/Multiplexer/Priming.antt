-- ===== src/Hls/Multiplexer/Priming.antt =====
-- `add_queue`: what a new client is given of the history.
use mathlib.Core.List.{
  reverse, reverse-reverse, reverse-append, reverse-cons, append-nil, append_assoc,
}
use headendarr.Prelude.{
  ℕ, ◌+◌, ◌≤◌, ◌<◌, ◌≡◌, ◌≢◌, ◌⊎◌, inl, inr, refl, sym, ap, ◌∙◌, List, [], ◌∷◌, ◌++◌, some, length,
  length-append, sum_by-append, leb, map, Bool-cases, ite, lt→ltb, arith, lt→leb_false,
}
use headendarr.Prelude.Dict.{Key, get, set, get-set}
use headendarr.Hls.Multiplexer.{Chunk, Queue, Stream, queue_limit, most_recent, prime, add_queue}
use headendarr.Hls.Multiplexer.History.{total}

-- What the loop takes is a start of the chunks, newest first; it reaches the number of bytes or takes
-- all, and without its last chunk it would not reach them.
most_recent_lem :
    (wanted acc : ℕ) (newest : List Chunk)
    → (older : List Chunk) × (newest ≡ most_recent wanted acc newest ++ older)
      × ((wanted ≤ acc + total (most_recent wanted acc newest)) ⊎ (older ≡ []))
unfolding most_recent
most_recent_lem wanted acc [] = ([], refl, inr refl)
most_recent_lem wanted acc (chunk ∷ newest) =
    let r = most_recent_lem wanted (acc + length chunk) newest in
    elim (Bool-cases (leb wanted (acc + length chunk))) [
      | inl e ↦ rw e (newest, refl, ground arith)
      | inr e ↦ rw e (r.0, ap (◌∷◌ chunk) r.1, ground (arith, r.2))
    ]

nil-ne-append : (taken : List Chunk) (last : Chunk) → [] ≢ taken ++ last ∷ []
nil-ne-append [] last = λ e. cc
nil-ne-append (t ∷ taken) last = λ e. cc

most_recent_minimal :
    (wanted acc : ℕ) (newest taken : List Chunk) (last : Chunk)
    → acc < wanted
    → most_recent wanted acc newest ≡ taken ++ last ∷ []
    → acc + total taken < wanted
unfolding most_recent
most_recent_minimal wanted acc [] taken last h e = absurd (nil-ne-append taken last e)
most_recent_minimal wanted acc (chunk ∷ newest) [] last h e = omega arith
most_recent_minimal wanted acc (chunk ∷ newest) (t ∷ taken) last h e = ground (
  arith,
  nil-ne-append taken last,
  most_recent_minimal wanted (acc + length chunk) newest taken last,
)

-- A queue with room for all the chunks gets them all, in order.
prime_lem :
    (chunks : List Chunk) (q : Queue) (primed : ℕ)
    → length q + length chunks ≤ queue_limit
    → prime chunks q primed ≡ (q ++ map some chunks, primed + total chunks)
unfolding prime
prime_lem [] q primed h =
    let items = sym (append-nil q) in
    let bytes : primed ≡ primed + 0 = omega arith in λ i. (items i, bytes i)
prime_lem (chunk ∷ chunks) q primed h =
    rw
      (
        lt→leb_false queue_limit (length q) (omega arith),
        prime_lem chunks (q ++ some chunk ∷ []) (primed + length chunk)
            (omega (arith, length-append q (some chunk ∷ []))),
      )
      (let items = append_assoc q (some chunk ∷ []) (map some chunks) in
        let bytes : primed + length chunk + total chunks ≡ primed + (length chunk + total chunks) =
          omega arith in
        λ i. (items i, bytes i))

total-reverse : (chunks : List Chunk) → total (reverse chunks) ≡ total chunks
total-reverse [] = refl
total-reverse (chunk ∷ chunks) = omega (
  arith,
  ap total (reverse-cons chunk chunks),
  sum_by-append (λ (c : Chunk). length c) (reverse chunks) (chunk ∷ []),
  total-reverse chunks,
)

length-reverse : (chunks : List Chunk) → length (reverse chunks) ≡ length chunks
length-reverse [] = refl
length-reverse (chunk ∷ chunks) = omega (
  arith,
  ap length (reverse-cons chunk chunks),
  length-append (reverse chunks) (chunk ∷ []),
  length-reverse chunks,
)

abbrev pub drop_first : List Chunk → List Chunk
drop_first [] = []
drop_first (chunk ∷ chunks) = chunks

-- The chunks of the history that the loop takes, oldest first.
given_of : ℕ → List Chunk → List Chunk
given_of wanted history = reverse (most_recent wanted 0 (reverse history))

given_of-tail :
    (wanted : ℕ) (history : List Chunk)
    → (skipped : List Chunk) × (history ≡ skipped ++ given_of wanted history)
      × ((wanted ≤ total (given_of wanted history)) ⊎ (skipped ≡ []))
unfolding given_of
given_of-tail wanted history =
    let taken = most_recent wanted 0 (reverse history) in
    let r = most_recent_lem wanted 0 (reverse history) in
    (
      reverse r.0,
      sym (reverse-reverse history) ∙ ap reverse r.1 ∙ reverse-append taken r.0,
      elim r.2 [
        | inl enough ↦ inl (omega (arith, total-reverse taken))
        | inr all ↦ inr (ap reverse all)
      ],
    )

given_of-minimal :
    (wanted : ℕ) (history given : List Chunk)
    → 1 ≤ wanted
    → given_of wanted history ≡ given
    → total (drop_first given) < wanted
unfolding given_of
given_of-minimal wanted history [] w e = w
given_of-minimal wanted history (first ∷ rest) w e = omega (
  arith,
  total-reverse rest,
  most_recent_minimal wanted 0 (reverse history) (reverse rest) first w (
      sym (reverse-reverse (most_recent wanted 0 (reverse history)))
      ∙ ap reverse e
      ∙ reverse-cons first rest),
)

module _ {C : Type 0} ⦃of_client : Key C⦄ where
  -- The queue that a new client gets is a tail of the history: the shortest that has the bytes asked
  -- for, or all of it.
  pub record Primes (s : Stream C) (id : C) (wanted : ℕ) (r : (Queue × ℕ) × Stream C) : Type 0 where
    pub skipped : List Chunk
    pub given : List Chunk
    pub tail_of_history : s.history ≡ skipped ++ given
    pub in_order : r.0.0 ≡ map some given
    pub counted : r.0.1 ≡ total given
    pub enough : (wanted ≤ total given) ⊎ (skipped ≡ [])
    pub no_more : total (drop_first given) < wanted
    pub registered :
        (client : C)
        → get client r.1.queues ≡ ite (of_client.same id client) (some r.0.0) (get client s.queues)
    pub history_kept : r.1.history ≡ s.history

  add_queue-eq :
      (s : Stream C) (id : C) (wanted : ℕ)
      → 1 ≤ wanted
      → length s.history ≤ queue_limit
      → let q = map some (given_of wanted s.history) in
        add_queue s id wanted
        ≡ ((q, 0 + total (given_of wanted s.history)), record s { queues = set id q s.queues })
  unfolding add_queue given_of
  add_queue-eq s id wanted w h =
      let t = given_of-tail wanted s.history in
      rw (
        lt→ltb 0 wanted w,
        prime_lem (given_of wanted s.history) [] 0
            (omega (arith, ap length t.1, length-append t.0 (given_of wanted s.history))),
      )

  -- A client that asks for some bytes is given the shortest tail of the history that has them, or
  -- the whole history, in order, and the bytes given are reported; no other queue changes. The
  -- history has no more chunks than a queue may hold.
  pub add_queue-Primes :
      (s : Stream C) (id : C) (wanted : ℕ)
      → 1 ≤ wanted
      → length s.history ≤ queue_limit
      → Primes s id wanted (add_queue s id wanted)
  add_queue-Primes s id wanted w h =
      let t = given_of-tail wanted s.history in
      rw (add_queue-eq s id wanted w h) (record {
        skipped = t.0;
        given = given_of wanted s.history;
        tail_of_history = t.1;
        in_order = refl;
        counted = omega arith;
        enough = t.2;
        no_more = given_of-minimal wanted s.history _ w refl;
        registered = λ client. get-set id client (map some (given_of wanted s.history)) s.queues;
        history_kept = refl;
      })
