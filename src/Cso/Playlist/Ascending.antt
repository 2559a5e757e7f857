-- ===== src/Cso/Playlist/Ascending.antt =====
-- The order of the variants of a playlist.
use headendarr.Prelude.{ℕ, ◌≤◌, ◌≡◌, refl, List, [], ◌∷◌, false, none, All, leb, arith, if-Holds}
use headendarr.Prelude.Dict.{is_empty}
use headendarr.Prelude.Text.{Text}
use mathlib.Core.List.{Permᴰ}
use mathlib.Core.List.Permᴰ
use headendarr.Cso.Playlist.{
  HlsVariant, master_variants, lines_of, insert_variant, sort_variants, parse_hls_playlist_variants,
}

-- No variant stands before one of less bandwidth.
abbrev pub Ascending : List HlsVariant → Type 0
Ascending [] = Unit
Ascending (v ∷ variants) = All (λ w. v.bandwidth ≤ w.bandwidth) variants × Ascending variants

All-insert_variant :
    (P : HlsVariant → Type 0) (v : HlsVariant) (variants : List HlsVariant)
    → P v
    → All P variants
    → All P (insert_variant v variants)
unfolding insert_variant
All-insert_variant P v [] p h = (p, h)
All-insert_variant P v (w ∷ variants) p h =
    if-Holds (All P) (leb v.bandwidth w.bandwidth) (v ∷ w ∷ variants)
      (w ∷ insert_variant v variants) (λ _. (p, h))
      (λ _. (h.0, All-insert_variant P v variants p h.1))

above :
    (m n : ℕ) (variants : List HlsVariant)
    → m ≤ n
    → All (λ w. n ≤ w.bandwidth) variants
    → All (λ w. m ≤ w.bandwidth) variants
above m n [] e h = tt
above m n (w ∷ variants) e h = (omega (arith, e, h.0), above m n variants e h.1)

insert_variant-Ascending :
    (v : HlsVariant) (variants : List HlsVariant)
    → Ascending variants
    → Ascending (insert_variant v variants)
unfolding insert_variant
insert_variant-Ascending v [] o = (tt, tt)
insert_variant-Ascending v (w ∷ variants) o =
    if-Holds Ascending (leb v.bandwidth w.bandwidth) (v ∷ w ∷ variants)
      (w ∷ insert_variant v variants)
      (λ e.
        let le : v.bandwidth ≤ w.bandwidth = ground (arith, e) in
        ((le, above v.bandwidth w.bandwidth variants le o.0), o))
      (λ e. (
        All-insert_variant (λ x. w.bandwidth ≤ x.bandwidth) v variants (ground (arith, e)) o.0,
        insert_variant-Ascending v variants o.1,
      ))

insert_variant-Permᴰ :
    (v : HlsVariant) (variants : List HlsVariant) → Permᴰ (v ∷ variants) (insert_variant v variants)
unfolding insert_variant
insert_variant-Permᴰ v [] = Permᴰ.refl _
insert_variant-Permᴰ v (w ∷ variants) =
    if-Holds (Permᴰ (v ∷ w ∷ variants)) (leb v.bandwidth w.bandwidth) (v ∷ w ∷ variants)
      (w ∷ insert_variant v variants) (λ _. Permᴰ.refl _)
      (λ _. Permᴰ.trans (Permᴰ.swap refl refl) (Permᴰ.cons refl (insert_variant-Permᴰ v variants)))

sort_variants-Ascending :
    (variants : List HlsVariant)
    → Ascending (sort_variants variants) × Permᴰ variants (sort_variants variants)
unfolding sort_variants
sort_variants-Ascending [] = (tt, Permᴰ.refl [])
sort_variants-Ascending (v ∷ variants) =
    let (o, p) = sort_variants-Ascending variants in
    (
      insert_variant-Ascending v (sort_variants variants) o,
      Permᴰ.trans (Permᴰ.cons refl p) (insert_variant-Permᴰ v (sort_variants variants)),
    )

-- A playlist in which the loop over the lines finds a variant parses to exactly the variants
-- found, in an order in which none stands before one of less bandwidth.
pub parse_hls_playlist_variants-Ascending :
    (urljoin : Text → Text → Text) (base_url payload : Text)
    → is_empty (master_variants urljoin base_url 0 none (lines_of payload)) ≡ false
    → let result = parse_hls_playlist_variants urljoin base_url payload in
      Ascending result × Permᴰ (master_variants urljoin base_url 0 none (lines_of payload)) result
unfolding parse_hls_playlist_variants
parse_hls_playlist_variants-Ascending urljoin base_url payload some_found =
    rw some_found
      (sort_variants-Ascending (master_variants urljoin base_url 0 none (lines_of payload)))
