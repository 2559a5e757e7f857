-- ===== src/Cso/Sources/Order.antt =====
-- The order of a channel's sources.
use headendarr.Prelude.{
  ◌≡◌, ◌⊎◌, inl, inr, refl, List, [], ◌∷◌, true, false, none, some, ℕ, arith, All, if-Holds,
  if◌then◌else◌, ◌+◌, ◌<◌, ◌≤◌, ltb,
}
use headendarr.Prelude.Dict.{Dict, get, or_else, Distinct, nat_key}
use headendarr.Prelude.Text.{codes, strip, lower, or_missing, one_of}
use headendarr.Prelude.Text.OneOf.{one_of-single}
use headendarr.Cso.Sources.Cache.{member-active, failed-positive}
use mathlib.Core.List.{Permᴰ}
use mathlib.Core.List.Permᴰ
use headendarr.Cso.Types.{CsoSource}
use headendarr.Cso.Sources.{
  penalty, outranks, insert, sort_sources, member, FailedSources, get_failed_source_ids,
  order_cso_channel_sources,
}

-- No source stands behind one that it outranks.
abbrev pub Ordered : List ℕ → List CsoSource → Type 0
Ordered failed [] = Unit
Ordered failed (s ∷ sources) =
    All (λ t. outranks failed t s ≡ false) sources × Ordered failed sources

outranks_asym :
    (failed : List ℕ) (s t : CsoSource) → outranks failed s t ≡ true → outranks failed t s ≡ false
unfolding outranks
outranks_asym failed s t h = ground arith

outranks_trans :
    (failed : List ℕ) (s t u : CsoSource)
    → outranks failed t s ≡ false
    → outranks failed u t ≡ false
    → outranks failed u s ≡ false
unfolding outranks
outranks_trans failed s t u h k = ground arith

All-insert :
    (P : CsoSource → Type 0) (failed : List ℕ) (s : CsoSource) (sources : List CsoSource)
    → P s
    → All P sources
    → All P (insert failed s sources)
unfolding insert
All-insert P failed s [] p h = (p, h)
All-insert P failed s (t ∷ sources) p h =
    if-Holds (All P) (outranks failed t s) (t ∷ insert failed s sources) (s ∷ t ∷ sources)
      (λ _. (h.0, All-insert P failed s sources p h.1)) (λ _. (p, h))

behind :
    (failed : List ℕ) (s t : CsoSource) (sources : List CsoSource)
    → outranks failed t s ≡ false
    → All (λ u. outranks failed u t ≡ false) sources
    → All (λ u. outranks failed u s ≡ false) sources
behind failed s t [] e h = h
behind failed s t (u ∷ sources) e h =
    (outranks_trans failed s t u e h.0, behind failed s t sources e h.1)

insert-Ordered :
    (failed : List ℕ) (s : CsoSource) (sources : List CsoSource)
    → Ordered failed sources
    → Ordered failed (insert failed s sources)
unfolding insert
insert-Ordered failed s [] o = (o, o)
insert-Ordered failed s (t ∷ sources) o =
    if-Holds (Ordered failed) (outranks failed t s) (t ∷ insert failed s sources) (s ∷ t ∷ sources)
      (λ e. (
        All-insert (λ u. outranks failed u t ≡ false) failed s sources (outranks_asym failed t s e)
            o.0,
        insert-Ordered failed s sources o.1,
      ))
      (λ e. ((e, behind failed s t sources e o.0), o))

insert-Permᴰ :
    (failed : List ℕ) (s : CsoSource) (sources : List CsoSource)
    → Permᴰ (s ∷ sources) (insert failed s sources)
unfolding insert
insert-Permᴰ failed s [] = Permᴰ.refl _
insert-Permᴰ failed s (t ∷ sources) =
    if-Holds (Permᴰ (s ∷ t ∷ sources)) (outranks failed t s) (t ∷ insert failed s sources)
      (s ∷ t ∷ sources)
      (λ _. Permᴰ.trans (Permᴰ.swap refl refl) (Permᴰ.cons refl (insert-Permᴰ failed s sources)))
      (λ _. Permᴰ.refl _)

sort_sources-Ordered :
    (failed : List ℕ) (sources : List CsoSource)
    → Ordered failed (sort_sources failed sources) × Permᴰ sources (sort_sources failed sources)
unfolding sort_sources
sort_sources-Ordered failed [] = (tt, Permᴰ.refl [])
sort_sources-Ordered failed (s ∷ sources) =
    let (o, p) = sort_sources-Ordered failed sources in
    (
      insert-Ordered failed s _ o,
      Permᴰ.trans (Permᴰ.cons refl p) (insert-Permᴰ failed s (sort_sources failed sources)),
    )

-- The health check found the source unhealthy.
abbrev IsUnhealthy : CsoSource → Type 0
IsUnhealthy s = codes "unhealthy" ≡ lower (strip (or_missing s.last_health_check_status []))

-- The source has failed and its hold has not ended.
abbrev IsHeld : Dict ℕ ℕ → ℕ → CsoSource → Type 0
IsHeld holds now s = (until : ℕ) × (get s.id holds ≡ some until) × (now < until)

-- What is taken off the priority of a source: 5 for its health, 1000 for a failure.
abbrev pub Costs : Dict ℕ ℕ → ℕ → CsoSource → ℕ → Type 0
Costs holds now s cost =
    (health : ℕ) × (failure : ℕ) × (cost ≡ health + failure)
    × ((IsUnhealthy s × (health ≡ 5)) ⊎ ((¬ (IsUnhealthy s)) × (health ≡ 0)))
    × ((IsHeld holds now s × (failure ≡ 1000)) ⊎ ((¬ (IsHeld holds now s)) × (failure ≡ 0)))

-- The first has more priority left than the second; or as much, and more to begin with; or as much of
-- both, and no greater id.
abbrev pub Precedes : Dict ℕ ℕ → ℕ → CsoSource → CsoSource → Type 0
Precedes holds now s t =
    (c : ℕ) × (d : ℕ) × Costs holds now s c
    × Costs holds now t d
    × ((t.priority + c < s.priority + d)
        ⊎ ((t.priority + c ≡ s.priority + d)
            × ((t.priority < s.priority) ⊎ ((t.priority ≡ s.priority) × (s.id ≤ t.id)))))

abbrev pub Ranked : Dict ℕ ℕ → ℕ → List CsoSource → Type 0
Ranked holds now [] = Unit
Ranked holds now (s ∷ sources) = All (Precedes holds now s) sources × Ranked holds now sources

abbrev Agrees : Dict ℕ ℕ → ℕ → List ℕ → Type 0
Agrees holds now failed =
    (id : ℕ) → member id failed ≡ elim (get id holds) [ none ↦ false | some until ↦ ltb now until ]

health-cost :
    (s : CsoSource)
    → let test =
        one_of
          (codes "unhealthy" ∷ [])
          (lower (strip (or_missing s.last_health_check_status []))) in
      let health : ℕ = if test then 5 else 0 in
      (IsUnhealthy s × (health ≡ 5)) ⊎ ((¬ (IsUnhealthy s)) × (health ≡ 0))
health-cost s =
    let status = lower (strip (or_missing s.last_health_check_status [])) in
    elim (one_of-single (codes "unhealthy") status) [
      | inl (e, p) ↦ inl (p, ground (arith, e))
      | inr (e, n) ↦ inr (n, ground (arith, e))
    ]

failure-cost :
    (holds : Dict ℕ ℕ) (now : ℕ) (failed : List ℕ) (s : CsoSource)
    → Agrees holds now failed
    → let failure : ℕ = if member s.id failed then 1000 else 0 in
      (IsHeld holds now s × (failure ≡ 1000)) ⊎ ((¬ (IsHeld holds now s)) × (failure ≡ 0))
failure-cost holds now failed s agrees =
    let thousand : ℕ = 1000 in
    if-Holds (λ (n : ℕ). (IsHeld holds now s × (n ≡ 1000)) ⊎ ((¬ (IsHeld holds now s)) × (n ≡ 0)))
      (member s.id failed) 1000 0
      (λ m.
        elim (get s.id holds)
            as (λ d.
              get s.id holds ≡ d
              → (IsHeld holds now s × (thousand ≡ 1000))
                ⊎ ((¬ (IsHeld holds now s)) × (thousand ≡ 0))) [
                  | none ↦ λ e. absurd (ground (arith, m, agrees s.id, e))
                  | some until ↦ λ e. inl ((until, e, ground (arith, m, agrees s.id, e)), refl)
                ]
          refl)
      (λ m. inr ((λ h. ground (arith, m, agrees s.id, h.1, h.2)), refl))

penalty-Costs :
    (holds : Dict ℕ ℕ) (now : ℕ) (failed : List ℕ) (s : CsoSource)
    → Agrees holds now failed
    → Costs holds now s (penalty failed s)
unfolding penalty
penalty-Costs holds now failed s agrees =
    let test =
      one_of (codes "unhealthy" ∷ []) (lower (strip (or_missing s.last_health_check_status []))) in
    let health : ℕ = if test then 5 else 0 in
    let failure : ℕ = if member s.id failed then 1000 else 0 in
    (health, failure, refl, health-cost s, failure-cost holds now failed s agrees)

outranks-Precedes :
    (holds : Dict ℕ ℕ) (now : ℕ) (failed : List ℕ) (s t : CsoSource)
    → Agrees holds now failed
    → outranks failed t s ≡ false
    → Precedes holds now s t
unfolding outranks
outranks-Precedes holds now failed s t agrees e = (
  penalty failed s,
  penalty failed t,
  penalty-Costs holds now failed s agrees,
  penalty-Costs holds now failed t agrees,
  ground (arith, e),
)

All-Precedes :
    (holds : Dict ℕ ℕ) (now : ℕ) (failed : List ℕ) (s : CsoSource) (sources : List CsoSource)
    → Agrees holds now failed
    → All (λ t. outranks failed t s ≡ false) sources
    → All (Precedes holds now s) sources
All-Precedes holds now failed s [] agrees h = tt
All-Precedes holds now failed s (t ∷ sources) agrees h = (
  outranks-Precedes holds now failed s t agrees h.0,
  All-Precedes holds now failed s sources agrees h.1,
)

Ordered-Ranked :
    (holds : Dict ℕ ℕ) (now : ℕ) (failed : List ℕ) (sources : List CsoSource)
    → Agrees holds now failed
    → Ordered failed sources
    → Ranked holds now sources
Ordered-Ranked holds now failed [] agrees o = tt
Ordered-Ranked holds now failed (s ∷ sources) agrees o = (
  All-Precedes holds now failed s sources agrees o.0,
  Ordered-Ranked holds now failed sources agrees o.1,
)

-- The sources of a channel, whose holds are for distinct sources, are ordered by the priority
-- that is left when 5 is taken off for a source that the health check found unhealthy and 1000
-- for one that has failed and whose hold has not ended; then by priority; then by the smaller id.
-- The order has exactly the sources given.
pub order_cso_channel_sources-Ranked :
    (cache : FailedSources) (sources : List CsoSource) (channel now : ℕ)
    → 1 ≤ channel
    → Distinct (or_else [] (get channel cache))
    → let result = (order_cso_channel_sources cache sources (some channel) now).0 in
      Ranked (or_else [] (get channel cache)) now result × Permᴰ sources result
unfolding order_cso_channel_sources
order_cso_channel_sources-Ranked cache sources channel now positive once =
    let holds = or_else [] (get channel cache) in
    let failed = (get_failed_source_ids cache (some channel) now).0 in
    let agrees : Agrees holds now failed =
      λ id. rw (failed-positive cache channel now positive) (member-active id now holds once) in
    let (o, p) = sort_sources-Ordered failed sources in
    (Ordered-Ranked holds now failed (sort_sources failed sources) agrees o, p)

-- A source that has failed lately is outranked by one that has not, however it stands with the
-- health check, if its priority is less than 995 above.
pub outranks-failed :
    (failed : List ℕ) (s t : CsoSource)
    → member s.id failed ≡ false
    → member t.id failed ≡ true
    → t.priority + 5 < s.priority + 1000
    → (outranks failed s t ≡ true) × (outranks failed t s ≡ false)
unfolding outranks penalty
outranks-failed failed s t h k close = ground arith
