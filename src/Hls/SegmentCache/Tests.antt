-- ===== src/Hls/SegmentCache/Tests.antt =====
-- Runs of `SegmentCache`, and its theorems at a concrete cache.
use headendarr.Prelude.{ℕ, ◌≡◌, refl, [], ◌∷◌, none, arith, ℕ_discrete}
use headendarr.Prelude.Dict.{nat_key, get, set, pop}
use headendarr.Hls.SegmentCache.{SegmentCache, set_segment}
use headendarr.Hls.SegmentCache.Laws.{IsBounded, set_segment-IsBounded}

-- Two segments at most; the segment 2 expires first.
abbrev full : SegmentCache ℕ ℕ
full = record {
  cache = (1, 100) ∷ (2, 200) ∷ [];
  expiration_times = (1, 60) ∷ (2, 50) ∷ [];
  ttl = 30;
  max_size = 2;
}

full-IsBounded : IsBounded full
unfolding get ℕ_discrete
full-IsBounded = record {
  room = omega arith;
  once = (refl, (refl, tt));
  same_keys = refl;
  within = omega arith;
}

evicts_the_oldest : (set_segment full 3 300 none 40).cache ≡ (1, 100) ∷ (3, 300) ∷ []
unfolding set_segment set pop ℕ_discrete
evicts_the_oldest = refl

set_segment-IsBounded_example : IsBounded (set_segment full 3 300 none 40)
set_segment-IsBounded_example = set_segment-IsBounded full 3 300 none 40 full-IsBounded
