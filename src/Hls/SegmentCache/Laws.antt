-- ===== src/Hls/SegmentCache/Laws.antt =====
-- `SegmentCache`: it stays within its size, and a segment is found until it expires.
use headendarr.Prelude.{
  ℕ, suc, ◌+◌, ◌≤◌, ◌<◌, ◌≡◌, ◌≢◌, refl, ap, ◌∙◌, List, [], ◌∷◌, Option, none, some, length, leb,
  ltb, keep, if◌then◌else◌, arith, inl, inr, le-or-lt, lt→leb_false, le→leb, Option-cases,
  Bool-cases,
}
use headendarr.Prelude.Dict.{
  Dict, Key, get, set, pop, or_else, keys, Distinct, get-set_self, set-Distinct, pop-Distinct,
  length-set_new, length-set_old, length-pop_old, pop_missing,
}
use headendarr.Hls.SegmentCache.{
  SegmentCache, oldest, drop_key, drop_keys, cleanup_expired_items, get_segment, evict_oldest,
  make_room, set_segment,
}

module _ {K V W : Type 0} ⦃of_key : Key K⦄ where
  keys-set :
      (k : K) (v : V) (w : W) (d : Dict K V) (e : Dict K W)
      → keys d ≡ keys e
      → keys (set k v d) ≡ keys (set k w e)
  unfolding set
  keys-set k v w [] [] h = refl
  keys-set k v w [] (f ∷ e) h = cc
  keys-set k v w (f ∷ d) [] h = cc
  keys-set k v w ((i, x) ∷ d) ((j, y) ∷ e) h = ground (arith, keys-set k v w d e)

  keys-pop :
      (k : K) (d : Dict K V) (e : Dict K W) → keys d ≡ keys e → keys (pop k d) ≡ keys (pop k e)
  unfolding pop
  keys-pop k [] [] h = refl
  keys-pop k [] (f ∷ e) h = cc
  keys-pop k (f ∷ d) [] h = cc
  keys-pop k ((i, x) ∷ d) ((j, y) ∷ e) h = ground (arith, keys-pop k d e)

  none_of_keys :
      (k : K) (d : Dict K V) (e : Dict K W) → keys d ≡ keys e → get k d ≡ none → get k e ≡ none
  unfolding get
  none_of_keys k [] [] h n = refl
  none_of_keys k [] (f ∷ e) h n = cc
  none_of_keys k (f ∷ d) [] h n = cc
  none_of_keys k ((i, x) ∷ d) ((j, y) ∷ e) h n = ground (arith, none_of_keys k d e)

length-keys : {K V : Type 0} (d : Dict K V) → length (keys d) ≡ length d
length-keys [] = refl
length-keys (e ∷ d) = ap suc (length-keys d)

module _ {K : Type 0} ⦃of_key : Key K⦄ where
  get-cons_ne : (k j : K) (t : ℕ) (d : Dict K ℕ) → get k d ≢ none → get k ((j, t) ∷ d) ≢ none
  unfolding get
  get-cons_ne k j t d h = ground arith

  get-cons_self : (k : K) (t : ℕ) (d : Dict K ℕ) → get k ((k, t) ∷ d) ≢ none
  unfolding get
  get-cons_self k t d = ground arith

  get-cons_between :
      (k i j : K) (t u : ℕ) (d : Dict K ℕ)
      → get k ((i, t) ∷ d) ≢ none
      → get k ((i, t) ∷ (j, u) ∷ d) ≢ none
  unfolding get
  get-cons_between k i j t u d h = ground arith

  -- The key that is evicted is one of those given.
  oldest-present :
      (key : K) (expires : ℕ) (d : Dict K ℕ)
      → get (oldest key expires d) ((key, expires) ∷ d) ≢ none
  unfolding oldest
  oldest-present key expires [] = get-cons_self key expires []
  oldest-present key expires ((j, t) ∷ d) = elim (Bool-cases (ltb t expires)) [
    | inl e ↦ rw e (get-cons_ne (oldest j t d) key expires ((j, t) ∷ d) (oldest-present j t d))
    | inr e ↦
        rw e
          (get-cons_between (oldest key expires d) key j expires t d (oldest-present key expires d))
  ]

module _ {K V : Type 0} ⦃of_key : Key K⦄ where
  -- Both dicts have the same keys, each once, and there are at most `max_size`.
  pub record IsBounded (c : SegmentCache K V) : Type 0 where
    pub room : 1 ≤ c.max_size
    pub once : Distinct c.cache
    pub same_keys : keys c.cache ≡ keys c.expiration_times
    pub within : length c.cache ≤ c.max_size

  length-pop-le : (k : K) (d : Dict K V) → length (pop k d) ≤ length d
  length-pop-le k d = elim (Option-cases (get k d)) [
    | inl n ↦ omega (arith, ap length (pop_missing k d n))
    | inr (v, e) ↦ omega (arith, length-pop_old k d (λ n. cc))
  ]

  length-set-le : (k : K) (v : V) (d : Dict K V) → length (set k v d) ≤ length d + 1
  length-set-le k v d = elim (Option-cases (get k d)) [
    | inl n ↦ omega (arith, length-set_new k v d n)
    | inr (w, e) ↦ omega (arith, length-set_old k v d (λ n. cc))
  ]

  drop_key-IsBounded : (c : SegmentCache K V) (key : K) → IsBounded c → IsBounded (drop_key c key)
  drop_key-IsBounded c key b = record {
    room = b.room;
    once = pop-Distinct key c.cache b.once;
    same_keys = keys-pop key c.cache c.expiration_times b.same_keys;
    within = omega (arith, b.within, length-pop-le key c.cache);
  }

  drop_keys-IsBounded :
      (c : SegmentCache K V) (expired : List (K × ℕ))
      → IsBounded c
      → IsBounded (drop_keys c expired)
  unfolding drop_keys
  drop_keys-IsBounded c [] b = b
  drop_keys-IsBounded c ((key, _) ∷ expired) b =
      drop_keys-IsBounded (drop_key c key) expired (drop_key-IsBounded c key b)

  evict_oldest-room :
      (c : SegmentCache K V) (times : Dict K ℕ)
      → c.expiration_times ≡ times
      → 1 ≤ length c.cache
      → IsBounded c
      → IsBounded (evict_oldest c times)
        × (length (evict_oldest c times).cache + 1 ≡ length c.cache)
        × ((evict_oldest c times).max_size ≡ c.max_size)
        × ((evict_oldest c times).ttl ≡ c.ttl)
  unfolding evict_oldest
  evict_oldest-room c [] e h b =
      absurd (omega (arith, ap length (b.same_keys ∙ ap keys e), length-keys c.cache))
  evict_oldest-room c ((key, expires) ∷ rest) e h b =
      let first = oldest key expires rest in
      let present : get first c.cache ≢ none = λ n.
        oldest-present key expires rest
          (none_of_keys first c.cache ((key, expires) ∷ rest) (b.same_keys ∙ ap keys e) n) in
      (drop_key-IsBounded c first b, length-pop_old first c.cache present, refl, refl)

  -- Making room leaves a place for one more segment.
  make_room-room :
      (c : SegmentCache K V)
      → IsBounded c
      → IsBounded (make_room c)
        × (length (make_room c).cache < (make_room c).max_size)
        × ((make_room c).ttl ≡ c.ttl)
  unfolding make_room
  make_room-room c b = elim (le-or-lt c.max_size (length c.cache)) [
    | inl full ↦
        let r = evict_oldest-room c c.expiration_times refl (omega (arith, b.room, b.within)) b in
        rw (le→leb c.max_size (length c.cache) full) (r.0, omega (arith, r.1, r.2, b.within), r.3)
    | inr room ↦ rw (lt→leb_false c.max_size (length c.cache) room) (b, room, refl)
  ]

  -- A write to a bounded cache leaves it bounded: its keys are distinct and at most as many as its
  -- size.
  pub set_segment-IsBounded :
      (c : SegmentCache K V) (key : K) (value : V) (expiration_time : Option ℕ) (now : ℕ)
      → IsBounded c
      → IsBounded (set_segment c key value expiration_time now)
  unfolding set_segment cleanup_expired_items
  set_segment-IsBounded c key value expiration_time now b =
      let expired : List (K × ℕ) = keep (λ e. ltb e.1 now) c.expiration_times in
      let swept = drop_keys c expired in
      let m = make_room-room swept (drop_keys-IsBounded c expired b) in
      let room = make_room swept in
      record {
        room = m.0.room;
        once = set-Distinct key value room.cache m.0.once;
        same_keys =
            keys-set key value (now + or_else room.ttl expiration_time) room.cache
              room.expiration_times m.0.same_keys;
        within = omega (arith, m.1, length-set-le key value room.cache);
      }

  drop_keys-ttl :
      (c : SegmentCache K V) (expired : List (K × ℕ)) → (drop_keys c expired).ttl ≡ c.ttl
  unfolding drop_keys
  drop_keys-ttl c [] = refl
  drop_keys-ttl c ((key, _) ∷ expired) = drop_keys-ttl (drop_key c key) expired

  -- A segment that has been set in a bounded cache is found up to its expiry, and not after; if no
  -- time is given it is the cache's time to live.
  pub get_segment-set_segment :
      (c : SegmentCache K V) (key : K) (value : V) (expiration_time : Option ℕ) (now later : ℕ)
      → IsBounded c
      → (get_segment (set_segment c key value expiration_time now) key later).0
        ≡ (if leb later (now + or_else c.ttl expiration_time) then some value else none)
  unfolding set_segment get_segment cleanup_expired_items
  get_segment-set_segment c key value expiration_time now later b =
      let expired : List (K × ℕ) = keep (λ e. ltb e.1 now) c.expiration_times in
      let swept = drop_keys c expired in
      let room = make_room swept in
      let ttl =
        (make_room-room swept (drop_keys-IsBounded c expired b)).2 ∙ drop_keys-ttl c expired in
      ground (
        arith,
        ttl,
        get-set_self key value room.cache,
        get-set_self key (now + or_else room.ttl expiration_time) room.expiration_times,
      )
