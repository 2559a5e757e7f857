-- ===== src/Cso/ByteQueue/Traces.antt =====
-- Histories of a `ByteBudgetQueue`: any puts, end markers, reads and clears, from a new queue.
use headendarr.Prelude.{
  ℕ, ◌+◌, ◌-◌, ◌≤◌, ◌≡◌, ◌∙◌, refl, ap, max, List, [], ◌∷◌, Option, none, some, length,
  sum_by-append, All, All-append, arith,
}
use headendarr.Cso.ByteQueue.{
  ByteBudgetQueue, Item, Bytes, payload_size, put_drop_oldest, put_eof, take_first, get_item, clear,
  new_queue,
}
use headendarr.Cso.ByteQueue.Refinement.{
  IsValid, HasSize, total, put_drop_oldest-Puts, put_drop_oldest-budget,
}

-- `get` takes the oldest item, gives its bytes back to the budget, and keeps the counts exact.
pub get_item_lem :
    (q : ByteBudgetQueue) (i : Item) (rest : List Item)
    → IsValid q
    → q.items ≡ i ∷ rest
    → (after : ByteBudgetQueue) × (get_item q ≡ some (i.payload, after))
      × (after.items ≡ rest)
      × (after.bytes + payload_size i.payload ≡ q.bytes)
      × (after.max_bytes ≡ q.max_bytes)
      × IsValid after
unfolding get_item take_first
get_item_lem q i rest v e =
    let sized : All HasSize (i ∷ rest) = rw e at v.sized in
    let counted : q.bytes ≡ total (i ∷ rest) = v.counted ∙ ap total e in
    (
      record q { items = rest; bytes = q.bytes - i.size },
      rw (e, take_first) (ground arith),
      refl,
      omega arith,
      refl,
      record { counted = omega arith; sized = sized.1 },
    )

put_eof-IsValid : (q : ByteBudgetQueue) (now : ℕ) → IsValid q → IsValid (put_eof q now)
unfolding put_eof put_drop_oldest
put_eof-IsValid q now v = record {
  counted = omega (
    arith,
    v.counted,
    sum_by-append (λ i. i.size) q.items (record { payload = none; size = 0; put_at = now } ∷ []),
  );
  sized = All-append HasSize q.items _ v.sized (refl, tt);
}

pub data Call : Type 0 where
  put : Bytes → Call
  eof read reset : Call

-- A read of an empty queue waits, so it changes nothing.
abbrev after_read : ByteBudgetQueue → Option (Option Bytes × ByteBudgetQueue) → ByteBudgetQueue
after_read q none = q
after_read q (some (_, after)) = after

pub step : ByteBudgetQueue → ℕ × Call → ByteBudgetQueue
unfolding put_eof clear
step q (now, put payload) = (put_drop_oldest q (some payload) now).1
step q (now, eof) = put_eof q now
step q (now, read) = after_read q (get_item q)
step q (now, reset) = clear q

pub run : ByteBudgetQueue → List (ℕ × Call) → ByteBudgetQueue
unfolding step
run q [] = q
run q (c ∷ cs) = run (step q c) cs

abbrev pub Fits : ℕ → ℕ × Call → Type 0
Fits budget (now, put payload) = length payload ≤ budget
Fits budget (now, eof) = Unit
Fits budget (now, read) = Unit
Fits budget (now, reset) = Unit

pub record IsBounded (budget : ℕ) (q : ByteBudgetQueue) : Type 0 where
  pub valid : IsValid q
  pub same_budget : q.max_bytes ≡ budget
  pub within : q.bytes ≤ budget

pub put-IsBounded :
    (budget : ℕ) (q : ByteBudgetQueue) (now : ℕ) (payload : Bytes)
    → length payload ≤ budget
    → IsBounded budget q
    → IsBounded budget (put_drop_oldest q (some payload) now).1
put-IsBounded budget q now payload f b =
    let p = put_drop_oldest-Puts q payload now b.valid in
    record {
      valid = p.valid;
      same_budget = p.budget ∙ b.same_budget;
      within = omega (arith, p.budget, b.same_budget, put_drop_oldest-budget q payload now b.valid);
    }

get_item-empty : (q : ByteBudgetQueue) → q.items ≡ [] → get_item q ≡ none
unfolding get_item take_first
get_item-empty q e = ground arith

read-IsBounded :
    (budget : ℕ) (q : ByteBudgetQueue) (items : List Item)
    → q.items ≡ items
    → IsBounded budget q
    → IsBounded budget (after_read q (get_item q))
read-IsBounded budget q [] e b = rw (get_item-empty q e) b
read-IsBounded budget q (i ∷ rest) e b =
    let g = get_item_lem q i rest b.valid e in
    rw g.1 (record { valid = g.5; same_budget = g.4 ∙ b.same_budget; within = omega (arith, g.3) })

pub eof-IsBounded :
    (budget : ℕ) (q : ByteBudgetQueue) (now : ℕ)
    → IsBounded budget q
    → IsBounded budget (put_eof q now)
unfolding put_eof put_drop_oldest
eof-IsBounded budget q now b = record {
  valid = put_eof-IsValid q now b.valid;
  same_budget = b.same_budget;
  within = b.within;
}

pub new_queue-IsBounded : (limit : ℕ) → IsBounded (max 1 limit) (new_queue limit)
unfolding new_queue
new_queue-IsBounded limit = record {
  valid = record { counted = refl; sized = tt };
  same_budget = refl;
  within = omega arith;
}

step-IsBounded :
    (budget : ℕ) (q : ByteBudgetQueue) (c : ℕ × Call)
    → Fits budget c
    → IsBounded budget q
    → IsBounded budget (step q c)
unfolding step clear
step-IsBounded budget q (now, put payload) f b = put-IsBounded budget q now payload f b
step-IsBounded budget q (now, eof) f b = eof-IsBounded budget q now b
step-IsBounded budget q (now, read) f b = read-IsBounded budget q q.items refl b
step-IsBounded budget q (now, reset) f b = record {
  valid = record { counted = refl; sized = tt };
  same_budget = b.same_budget;
  within = omega arith;
}

run-IsBounded :
    (budget : ℕ) (q : ByteBudgetQueue) (cs : List (ℕ × Call))
    → All (Fits budget) cs
    → IsBounded budget q
    → IsBounded budget (run q cs)
unfolding run
run-IsBounded budget q [] f b = b
run-IsBounded budget q (c ∷ cs) f b =
    run-IsBounded budget (step q c) cs f.1 (step-IsBounded budget q c f.0 b)

-- After any puts, end markers, reads and clears from a new queue, as long as no single payload is
-- above the budget, the queued bytes are within the budget and are counted exactly.
pub run-new_queue-IsBounded :
    (limit : ℕ) (cs : List (ℕ × Call))
    → All (Fits (max 1 limit)) cs
    → IsBounded (max 1 limit) (run (new_queue limit) cs)
run-new_queue-IsBounded limit cs f =
    run-IsBounded (max 1 limit) (new_queue limit) cs f (new_queue-IsBounded limit)
