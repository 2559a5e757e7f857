-- ===== src/Hls/Multiplexer/Stop.antt =====
-- The end of a stream: who stops it, and which clients learn of it.
use headendarr.Prelude.{
  suc, ◌≤◌, ◌<◌, ◌≡◌, ◌⊎◌, inl, inr, refl, ap, List, [], ◌∷◌, ◌++◌, Option, none, some, Bool, true,
  false, not, ◌&&◌, length, leb, le→leb, lt→leb_false, map, arith, le-or-lt,
}
use headendarr.Prelude.Dict.{Key, get, is_empty}
use headendarr.Hls.Multiplexer.{
  Chunk, Queue, Stream, queue_limit, put_nowait, put_eof, stop, stop_if_unsubscribed,
}
use headendarr.Hls.Multiplexer.History.{get-with_queue_items}

-- The queue of a reader who has drained what came before the stream ended: the chunks up to the end
-- marker, and whether there is one.
abbrev pub drained : Queue → List Chunk × Bool
drained [] = ([], false)
drained (none ∷ q) = ([], true)
drained (some chunk ∷ q) = let (chunks, ended) = drained q in (chunk ∷ chunks, ended)

drained-end : (chunks : List Chunk) → drained (map some chunks ++ none ∷ []) ≡ (chunks, true)
drained-end [] = refl
drained-end (chunk ∷ chunks) = let e = drained-end chunks in λ i. (chunk ∷ (e i).0, (e i).1)

drained-some : (chunks : List Chunk) → drained (map some chunks) ≡ (chunks, false)
drained-some [] = refl
drained-some (chunk ∷ chunks) = let e = drained-some chunks in λ i. (chunk ∷ (e i).0, (e i).1)

length-some : (chunks : List Chunk) → length {A = Option Chunk} (map some chunks) ≡ length chunks
length-some [] = refl
length-some (chunk ∷ chunks) = ap suc (length-some chunks)

put_eof-full : (q : Queue) → queue_limit ≤ length q → put_eof q ≡ q
unfolding put_eof put_nowait
put_eof-full q h = ground arith

put_eof-room : (q : Queue) → length q < queue_limit → put_eof q ≡ q ++ none ∷ []
unfolding put_eof put_nowait
put_eof-room q h = ground arith

drained-put_eof :
    (chunks : List Chunk)
    → drained (put_eof (map some chunks)) ≡ (chunks, not (leb queue_limit (length chunks)))
drained-put_eof chunks =
    let same = length-some chunks in
    elim (le-or-lt queue_limit (length chunks)) [
      | inl full ↦
          rw (put_eof-full (map some chunks) (omega arith), le→leb queue_limit (length chunks) full)
            (drained-some chunks)
      | inr room ↦
          rw
            (
              put_eof-room (map some chunks) (omega arith),
              lt→leb_false queue_limit (length chunks) room,
            )
            (drained-end chunks)
    ]

module _ {C : Type 0} ⦃of_client : Key C⦄ where
  -- A forced stop of a running stream takes every client off it and forgets the history, and calls
  -- back. A client reads what its queue held and then the end, if its queue had room for the
  -- marker; a client whose queue was full reads what it held, and no end.
  pub stop-drained :
      (s : Stream C) (k : C) (chunks : List Chunk)
      → s.running ≡ true
      → get k s.queues ≡ some (map some chunks)
      → let after = stop s true in
        (after.called_back ≡ true)
        × (after.stream.running ≡ false)
        × (after.stream.queues ≡ [])
        × (after.stream.history ≡ [])
        × ((q : Queue) × (get k after.closed ≡ some q)
            × (drained q ≡ (chunks, not (leb queue_limit (length chunks)))))
  unfolding stop
  stop-drained s k chunks r g = rw r (
    refl,
    refl,
    refl,
    refl,
    (
      put_eof (map some chunks),
      rw (get-with_queue_items put_eof k s.queues, g),
      drained-put_eof chunks,
    ),
  )

  -- A stop that is not forced leaves a stream alone that has a client, and so does any stop of a
  -- stream that does not run: so the second of two stops does nothing.
  pub stop-idle :
      (s : Stream C) (force : Bool)
      → ((s.running ≡ false) ⊎ ((force ≡ false) × (is_empty s.queues ≡ false)))
      → ((stop s force).stream ≡ s) × ((stop s force).called_back ≡ false)
  unfolding stop
  stop-idle s force (inl e) = rw e (refl, refl)
  stop-idle s force (inr (f, e)) = ground arith

  -- The task that the departure of the last client starts stops the stream exactly if it runs and no
  -- client has come back in the meantime.
  pub stop_if_unsubscribed-called_back :
      (s : Stream C) → (stop_if_unsubscribed s).called_back ≡ (s.running && is_empty s.queues)
  unfolding stop_if_unsubscribed stop
  stop_if_unsubscribed-called_back s = ground arith
