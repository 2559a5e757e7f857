-- ===== src/Cso/ByteQueue.antt =====
-- backend/cso/common.py, `ByteBudgetQueue`: the queue of one client, bounded by payload bytes.
-- A payload is a list of bytes, and `none` is the end-of-stream marker. Time is an argument, in whole
-- clock ticks. The condition variable is not modelled: `get` on an empty queue waits, here `none`.
pub mod Refinement
pub mod Traces
mod Tests
use headendarr.Prelude.{
  ℕ, ◌+◌, ◌-◌, max, List, [], ◌∷◌, ◌++◌, Option, none, some, Bool, true, false, length, ltb, ◌==◌,
  if◌then◌else◌,
}

abbrev pub Bytes : Type 0
Bytes = List ℕ

abbrev pub Payload : Type 0
Payload = Option Bytes

pub record Item : Type 0 where
  pub payload : Payload
  pub size : ℕ
  pub put_at : ℕ

pub record ByteBudgetQueue : Type 0 where
  pub max_bytes : ℕ
  pub items : List Item
  pub bytes : ℕ

pub record PutResult : Type 0 where
  pub dropped_items : ℕ
  pub dropped_bytes : ℕ
  pub payload_too_large : Bool
  pub queued_bytes : ℕ
  pub queued_items : ℕ
  pub max_bytes : ℕ

pub record Stats : Type 0 where
  pub queued_items : ℕ
  pub queued_bytes : ℕ
  pub max_bytes : ℕ
  pub oldest_age : ℕ

pub new_queue : ℕ → ByteBudgetQueue
new_queue max_bytes = record { max_bytes = max 1 max_bytes; items = []; bytes = 0 }

abbrev pub payload_size : Payload → ℕ
payload_size none = 0
payload_size (some payload) = length payload

-- What the loops of `put_drop_oldest` carry.
pub record Dropping : Type 0 where
  pub items : List Item
  pub bytes : ℕ
  pub dropped_items : ℕ
  pub dropped_bytes : ℕ

-- The body of the first loop; an end marker goes uncounted.
pub drop_item : Item → Dropping → Dropping
drop_item old d = elim old.payload [
  | none ↦ d
  | some _ ↦ record d {
    bytes = d.bytes - old.size;
    dropped_items = d.dropped_items + 1;
    dropped_bytes = d.dropped_bytes + old.size;
  }
]

-- `while self._items and (self._bytes + size) > self.max_bytes`, on the items from the oldest on
pub make_room : ℕ → ℕ → List Item → Dropping → Dropping
unfolding drop_item
make_room max_bytes size [] d = record d { items = [] }
make_room max_bytes size (old ∷ rest) d =
    let after = make_room max_bytes size rest (drop_item old d) in
    if ltb max_bytes (d.bytes + size) then after else record d { items = old ∷ rest }

-- The body of the second loop, `while self._items`, leaves the byte count to the line after it.
pub drain : List Item → Dropping → Dropping
drain [] d = record d { items = []; bytes = 0 }
drain (old ∷ rest) d = drain rest (elim old.payload [
  | none ↦ d
  | some _ ↦ record d {
    dropped_items = d.dropped_items + 1;
    dropped_bytes = d.dropped_bytes + old.size;
  }
])

abbrev start_dropping : ByteBudgetQueue → Dropping
start_dropping q = record { items = q.items; bytes = q.bytes; dropped_items = 0; dropped_bytes = 0 }

-- Both loops, for a payload of a size.
pub discard : ByteBudgetQueue → ℕ → Dropping
unfolding make_room drain
discard q size =
    let d = make_room q.max_bytes size q.items (start_dropping q) in
    if ltb q.max_bytes size then drain d.items d else d

pub put_drop_oldest : ByteBudgetQueue → Payload → ℕ → PutResult × ByteBudgetQueue
unfolding discard
put_drop_oldest q none now =
    let items = q.items ++ record { payload = none; size = 0; put_at = now } ∷ [] in
    (
      record {
        dropped_items = 0;
        dropped_bytes = 0;
        payload_too_large = false;
        queued_bytes = q.bytes;
        queued_items = length items;
        max_bytes = q.max_bytes;
      },
      record q { items = items },
    )
put_drop_oldest q (some payload) now =
    let size = length payload in
    let d = discard q size in
    let items = d.items ++ record { payload = some payload; size = size; put_at = now } ∷ [] in
    (
      record {
        dropped_items = d.dropped_items;
        dropped_bytes = d.dropped_bytes;
        payload_too_large = ltb q.max_bytes size;
        queued_bytes = d.bytes + size;
        queued_items = length items;
        max_bytes = q.max_bytes;
      },
      record q { items = items; bytes = d.bytes + size },
    )

pub put_eof : ByteBudgetQueue → ℕ → ByteBudgetQueue
unfolding put_drop_oldest
put_eof q now = (put_drop_oldest q none now).1

take_first : ByteBudgetQueue → List Item → Option (Payload × ByteBudgetQueue)
take_first q [] = none
take_first q (item ∷ rest) = some (
  item.payload,
  elim item.payload [
    | none ↦ record q { items = rest }
    | some _ ↦ record q { items = rest; bytes = q.bytes - item.size }
  ],
)

pub get_item : ByteBudgetQueue → Option (Payload × ByteBudgetQueue)
unfolding take_first
get_item q = take_first q q.items

age_of : List Item → ℕ → ℕ
age_of [] now = 0
age_of (item ∷ rest) now = now - (if item.put_at == 0 then now else item.put_at)

pub stats : ByteBudgetQueue → ℕ → Stats
unfolding age_of
stats q now = record {
  queued_items = length q.items;
  queued_bytes = q.bytes;
  max_bytes = q.max_bytes;
  oldest_age = age_of q.items now;
}

pub clear : ByteBudgetQueue → ByteBudgetQueue
clear q = record q { items = []; bytes = 0 }
