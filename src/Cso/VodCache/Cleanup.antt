-- ===== src/Cso/VodCache/Cleanup.antt =====
-- Which entries of the VOD cache the cleanup removes.
use headendarr.Prelude.{ℕ, ◌+◌, ◌≡◌, refl, [], ◌∷◌, none, some, length, arith, if◌then◌else◌}
use headendarr.Prelude.Dict.{Dict, get, Distinct}
use headendarr.Prelude.Text.{Text, text_key}
use headendarr.Cso.VodCache.{VodCacheEntry, is_kept, cleanup}

get-cleanup_missing :
    (idle_seconds now : ℕ) (entries : Dict Text VodCacheEntry) (k : Text)
    → get k entries ≡ none
    → get k (cleanup idle_seconds now entries).1 ≡ none
unfolding get cleanup
get-cleanup_missing idle_seconds now [] k e = refl
get-cleanup_missing idle_seconds now ((j, x) ∷ entries) k e =
    ground (arith, e, get-cleanup_missing idle_seconds now entries k)

get-cleanup :
    (idle_seconds now : ℕ) (entries : Dict Text VodCacheEntry) (k : Text)
    → Distinct entries
    → get k (cleanup idle_seconds now entries).1 ≡ elim (get k entries) [
      | none ↦ none
      | some e ↦ if is_kept idle_seconds now e then some e else none
    ]
unfolding get cleanup
get-cleanup idle_seconds now [] k d = refl
get-cleanup idle_seconds now ((j, x) ∷ entries) k d = ground (
  arith,
  d.0,
  get-cleanup idle_seconds now entries k d.1,
  get-cleanup_missing idle_seconds now entries j d.0,
)

length-cleanup :
    (idle_seconds now : ℕ) (entries : Dict Text VodCacheEntry)
    → (cleanup idle_seconds now entries).0 + length (cleanup idle_seconds now entries).1
      ≡ length entries
unfolding cleanup
length-cleanup idle_seconds now [] = refl
length-cleanup idle_seconds now ((j, x) ∷ entries) =
    ground (arith, length-cleanup idle_seconds now entries)

pub record Cleaned (idle_seconds now : ℕ) (entries : Dict Text VodCacheEntry)
    (result : ℕ × Dict Text VodCacheEntry) : Type 0 where
  pub left :
      (k : Text)
      → get k result.1 ≡ elim (get k entries) [
        | none ↦ none
        | some e ↦ if is_kept idle_seconds now e then some e else none
      ]
  pub counted : result.0 + length result.1 ≡ length entries

pub cleanup-Cleaned :
    (idle_seconds now : ℕ) (entries : Dict Text VodCacheEntry)
    → Distinct entries
    → Cleaned idle_seconds now entries (cleanup idle_seconds now entries)
cleanup-Cleaned idle_seconds now entries d = record {
  left = λ k. get-cleanup idle_seconds now entries k d;
  counted = length-cleanup idle_seconds now entries;
}
