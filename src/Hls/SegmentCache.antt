-- ===== src/Hls/SegmentCache.antt =====
-- backend/hls_multiplexer.py, `SegmentCache`: segments with an expiry time, two hundred at most. The
-- types of keys and values are left open; a cached ffmpeg stream, which eviction stops, is a value too.
pub mod Laws
mod Tests
use headendarr.Prelude.{
  ℕ, ◌+◌, List, [], ◌∷◌, Option, none, some, Bool, true, false, not, ◌&&◌, length, leb, ltb, keep,
  if◌then◌else◌,
}
use headendarr.Prelude.Dict.{Dict, Key, get, set, pop, or_else, is_empty}

pub record SegmentCache (K V : Type 0) : Type 0 where
  pub cache : Dict K V
  pub expiration_times : Dict K ℕ
  pub ttl : ℕ
  pub max_size : ℕ

unfoldable pub new_cache : {K V : Type 0} → ℕ → SegmentCache K V
new_cache ttl = record { cache = []; expiration_times = []; ttl = ttl; max_size = 200 }

module _ {K : Type 0} where
  -- `min(self.expiration_times.items(), key=lambda x: x[1])[0]`: the first of the earliest
  unfoldable pub oldest : K → ℕ → Dict K ℕ → K
  oldest key expires [] = key
  oldest key expires ((j, t) ∷ rest) =
      let (first, earliest) = if ltb t expires then (j, t) else (key, expires) in
      oldest first earliest rest

module _ {K V : Type 0} ⦃of_key : Key K⦄ where
  abbrev pub drop_key : SegmentCache K V → K → SegmentCache K V
  drop_key c key = record c {
    cache = pop key c.cache;
    expiration_times = pop key c.expiration_times;
  }

  unfoldable pub drop_keys : SegmentCache K V → List (K × ℕ) → SegmentCache K V
  drop_keys c [] = c
  drop_keys c ((key, _) ∷ keys) = drop_keys (drop_key c key) keys

  -- `current_time > exp`
  unfoldable pub cleanup_expired_items : SegmentCache K V → ℕ → ℕ × SegmentCache K V
  unfolding drop_keys
  cleanup_expired_items c now =
      let expired_keys = keep (λ e. ltb e.1 now) c.expiration_times in
      (length expired_keys, drop_keys c expired_keys)

  -- An access refreshes the time to live.
  unfoldable pub get_segment : SegmentCache K V → K → ℕ → Option V × SegmentCache K V
  get_segment c key now = elim (get key c.cache) [
    | none ↦ (none, c)
    | some value ↦
        if leb now (or_else 0 (get key c.expiration_times))
        then (some value, record c { expiration_times = set key (now + c.ttl) c.expiration_times })
        else (none, c)
  ]

  unfoldable pub evict_oldest : SegmentCache K V → Dict K ℕ → SegmentCache K V
  unfolding oldest
  evict_oldest c [] = c
  evict_oldest c ((key, expires) ∷ rest) = drop_key c (oldest key expires rest)

  unfoldable pub make_room : SegmentCache K V → SegmentCache K V
  unfolding evict_oldest
  make_room c = if leb c.max_size (length c.cache) then evict_oldest c c.expiration_times else c

  unfoldable pub set_segment : SegmentCache K V → K → V → Option ℕ → ℕ → SegmentCache K V
  unfolding make_room cleanup_expired_items
  set_segment c key value expiration_time now =
      let room = make_room (cleanup_expired_items c now).1 in
      record room {
        cache = set key value room.cache;
        expiration_times = set key (now + or_else room.ttl expiration_time) room.expiration_times;
      }

  unfoldable pub exists : SegmentCache K V → K → ℕ → Bool × SegmentCache K V
  unfolding cleanup_expired_items
  exists c key now =
      let swept = (cleanup_expired_items c now).1 in
      (elim (get key swept.cache) [ none ↦ false | some _ ↦ true ], swept)
