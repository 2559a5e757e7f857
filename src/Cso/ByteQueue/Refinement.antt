-- ===== src/Cso/ByteQueue/Refinement.antt =====
-- `ByteBudgetQueue` against its contract: which items a put keeps, and that the counts are exact.
use headendarr.Prelude.{
  ℕ, ◌+◌, ◌≤◌, ◌≡◌, ◌<◌, ◌⊎◌, inl, inr, refl, ap, List, [], ◌∷◌, ◌++◌, none, some, length, sum_by,
  sum_by-append, All, All-append, leb, if◌then◌else◌, arith, le-or-lt,
}
use headendarr.Cso.ByteQueue.{
  ByteBudgetQueue, Item, Bytes, PutResult, Dropping, payload_size, drop_item, make_room, drain,
  discard, put_drop_oldest,
}

abbrev pub total : List Item → ℕ
total = sum_by (λ i. i.size)

abbrev pub HasSize : Item → Type 0
HasSize i = i.size ≡ payload_size i.payload

-- The byte count is the sum of the queued payloads, and each item's recorded size is its payload's.
pub record IsValid (q : ByteBudgetQueue) : Type 0 where
  pub counted : q.bytes ≡ total q.items
  pub sized : All HasSize q.items

-- The contract of a put: the longest tail of the queue that leaves room, without a running count.
unfoldable pub fitting : ℕ → ℕ → List Item → List Item
fitting max_bytes size [] = []
fitting max_bytes size (i ∷ rest) =
    if leb (total (i ∷ rest) + size) max_bytes then i ∷ rest else fitting max_bytes size rest

fitting-sized : (m s : ℕ) (items : List Item) → All HasSize items → All HasSize (fitting m s items)
unfolding fitting
fitting-sized m s [] h = tt
fitting-sized m s (i ∷ rest) h = ground (arith, fitting-sized m s rest h.1)

fitting-fits : (m s : ℕ) (items : List Item) → s ≤ m → total (fitting m s items) + s ≤ m
unfolding fitting
fitting-fits m s [] h = omega arith
fitting-fits m s (i ∷ rest) h = ground (arith, fitting-fits m s rest h)

fitting_too_large : (m s : ℕ) (items : List Item) → m < s → fitting m s items ≡ []
unfolding fitting
fitting_too_large m s [] h = refl
fitting_too_large m s (i ∷ rest) h = ground (arith, fitting_too_large m s rest h)

-- How many of the items carry a payload.
abbrev pub payloads : List Item → ℕ
payloads = sum_by (λ i. elim i.payload [ none ↦ 0 | some _ ↦ 1 ])

drop_item-payloads :
    (i : Item) (rest : List Item) (d : Dropping)
    → (drop_item i d).dropped_items + payloads rest ≡ d.dropped_items + payloads (i ∷ rest)
unfolding drop_item
drop_item-payloads i rest d = ground arith

drop_item-counted :
    (i : Item) (rest : List Item) (d : Dropping)
    → HasSize i
    → d.bytes ≡ total (i ∷ rest)
    → (drop_item i d).bytes ≡ total rest
unfolding drop_item
drop_item-counted i rest d h e = ground arith

drop_item-accounted :
    (i : Item) (rest : List Item) (d : Dropping)
    → HasSize i
    → d.bytes ≡ total (i ∷ rest)
    → (drop_item i d).dropped_bytes + (drop_item i d).bytes ≡ d.dropped_bytes + d.bytes
unfolding drop_item
drop_item-accounted i rest d h e = ground arith

make_room-fitting :
    (m s : ℕ) (items : List Item) (d : Dropping)
    → d.bytes ≡ total items
    → All HasSize items
    → ((make_room m s items d).items ≡ fitting m s items)
      × ((make_room m s items d).bytes ≡ total (fitting m s items))
      × ((make_room m s items d).dropped_bytes + (make_room m s items d).bytes
          ≡ d.dropped_bytes + d.bytes)
      × ((make_room m s items d).dropped_items + payloads (fitting m s items)
          ≡ d.dropped_items + payloads items)
unfolding make_room fitting
make_room-fitting m s [] d e h = ground arith
make_room-fitting m s (i ∷ rest) d e h = ground (
  arith,
  drop_item-counted i rest d h.0 e,
  drop_item-accounted i rest d h.0 e,
  drop_item-payloads i rest d,
  make_room-fitting m s rest (drop_item i d) (drop_item-counted i rest d h.0 e) h.1,
)

drain-nil :
    (items : List Item) (d : Dropping) → items ≡ [] → d.items ≡ [] → d.bytes ≡ 0 → drain items d ≡ d
unfolding drain
drain-nil [] d h k e = ground arith
drain-nil (i ∷ rest) d h k e = cc

-- The second loop of a put finds nothing to drop: the first one has emptied the queue already.
discard-make_room :
    (q : ByteBudgetQueue) (size : ℕ)
    → IsValid q
    → discard q size
      ≡ make_room q.max_bytes size q.items
          (record { items = q.items; bytes = q.bytes; dropped_items = 0; dropped_bytes = 0 })
unfolding discard
discard-make_room q size v = ground (
  arith,
  make_room-fitting q.max_bytes size q.items
      (record { items = q.items; bytes = q.bytes; dropped_items = 0; dropped_bytes = 0 }) v.counted
      v.sized,
  fitting_too_large q.max_bytes size q.items,
  drain-nil
      (make_room q.max_bytes size q.items
        (record { items = q.items; bytes = q.bytes; dropped_items = 0; dropped_bytes = 0 })).items
      (make_room q.max_bytes size q.items
        (record { items = q.items; bytes = q.bytes; dropped_items = 0; dropped_bytes = 0 })),
)

discard-fitting :
    (q : ByteBudgetQueue) (size : ℕ)
    → IsValid q
    → ((discard q size).items ≡ fitting q.max_bytes size q.items)
      × ((discard q size).bytes ≡ total (fitting q.max_bytes size q.items))
      × ((discard q size).dropped_bytes + (discard q size).bytes ≡ q.bytes)
      × ((discard q size).dropped_items + payloads (fitting q.max_bytes size q.items)
          ≡ payloads q.items)
discard-fitting q size v = ground (
  arith,
  discard-make_room q size v,
  make_room-fitting q.max_bytes size q.items
      (record { items = q.items; bytes = q.bytes; dropped_items = 0; dropped_bytes = 0 }) v.counted
      v.sized,
)

-- What a put of a payload leaves in the queue and what it reports.
pub record Puts (q : ByteBudgetQueue) (payload : Bytes) (now : ℕ) (r : PutResult × ByteBudgetQueue)
    : Type 0 where
  pub kept :
      r.1.items
      ≡ fitting q.max_bytes (length payload) q.items
        ++ record { payload = some payload; size = length payload; put_at = now } ∷ []
  pub budget : r.1.max_bytes ≡ q.max_bytes
  pub queued : r.0.queued_bytes ≡ r.1.bytes
  pub dropped : r.0.dropped_bytes + r.0.queued_bytes ≡ q.bytes + length payload
  pub dropped_count : r.0.dropped_items + payloads r.1.items ≡ payloads q.items + 1
  pub valid : IsValid r.1

-- A put on a valid queue keeps the longest tail of the queue that leaves room for the payload,
-- which goes to the end; it reports the bytes and the payloads dropped and the bytes queued
-- exactly, and leaves a valid queue with the same budget. A payload above the budget leaves
-- itself alone queued.
pub put_drop_oldest-Puts :
    (q : ByteBudgetQueue) (payload : Bytes) (now : ℕ)
    → IsValid q
    → Puts q payload now (put_drop_oldest q (some payload) now)
unfolding put_drop_oldest
put_drop_oldest-Puts q payload now v =
    let f = discard-fitting q (length payload) v in
    let tail = fitting q.max_bytes (length payload) q.items in
    let item : Item = record { payload = some payload; size = length payload; put_at = now } in
    record {
      kept = ap (λ items. items ++ item ∷ []) f.0;
      budget = refl;
      queued = refl;
      dropped = omega (arith, f.2);
      dropped_count = rw f.0 (
          omega (
            arith,
            f.3,
            sum_by-append (λ i. elim i.payload [ none ↦ 0 | some _ ↦ 1 ]) tail (item ∷ []),
          ));
      valid = record {
        counted = rw (f.0, f.1) (omega (arith, sum_by-append (λ i. i.size) tail (item ∷ [])));
        sized = rw f.0 (
            All-append HasSize tail (item ∷ [])
              (fitting-sized q.max_bytes (length payload) q.items v.sized) (refl, tt));
      };
    }

-- The budget holds after a put on a valid queue: either the queued bytes stay within it, or the
-- payload alone exceeds it and is all that is queued.
pub put_drop_oldest-budget :
    (q : ByteBudgetQueue) (payload : Bytes) (now : ℕ)
    → IsValid q
    → let after = (put_drop_oldest q (some payload) now).1 in
      ((length payload ≤ q.max_bytes) × (after.bytes ≤ q.max_bytes))
      ⊎ ((q.max_bytes < length payload)
          × (after.items
              ≡ record { payload = some payload; size = length payload; put_at = now } ∷ []))
put_drop_oldest-budget q payload now v = elim (le-or-lt (length payload) q.max_bytes) [
  | inl fits ↦ inl (
    fits,
    let p = put_drop_oldest-Puts q payload now v in
        omega (
          arith,
          p.valid.counted,
          ap total p.kept,
          sum_by-append (λ i. i.size) (fitting q.max_bytes (length payload) q.items)
              (record { payload = some payload; size = length payload; put_at = now } ∷ []),
          fitting-fits q.max_bytes (length payload) q.items fits,
        ),
  )
  | inr over ↦ inr (
    over,
    rw (
      (put_drop_oldest-Puts q payload now v).kept,
      fitting_too_large q.max_bytes (length payload) q.items over,
    ),
  )
]
