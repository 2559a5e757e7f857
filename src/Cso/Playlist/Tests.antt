-- ===== src/Cso/Playlist/Tests.antt =====
-- Runs of the playlist parser.
use headendarr.Prelude.{◌≡◌, refl, [], ◌∷◌, some, map, ◌++◌}
use headendarr.Prelude.Text.{Text, codes, strip, starts_with}
use headendarr.Cso.Playlist.{
  split_lines, lines_of, digits, after, bandwidth_of, resolution_of, master_variants,
  insert_variant, sort_variants, parse_hls_playlist_variants,
}

abbrev line : Text → Text
line text = text ++ 10 ∷ []

abbrev two_variants : Text
two_variants =
    line (codes "#EXTM3U")
    ++ line (codes "#EXT-X-STREAM-INF:BANDWIDTH=900,RESOLUTION=640x360")
    ++ line (codes "a.m3u8")
    ++ line (codes "#EXT-X-STREAM-INF:BANDWIDTH=80")
    ++ codes "b.m3u8"

-- A server for which every URL is absolute.
abbrev absolute : Text → Text → Text
absolute base url = url

reads_size : resolution_of (codes "BANDWIDTH=900,RESOLUTION=640x360") ≡ some (640, 360)
unfolding resolution_of after digits
reads_size = refl

-- The pattern also matches within another attribute.
reads_average : bandwidth_of (codes "AVERAGE-BANDWIDTH=70,BANDWIDTH=90") ≡ some 70
unfolding bandwidth_of after digits
reads_average = refl

sorts :
    map (λ v. v.bandwidth) (parse_hls_playlist_variants absolute [] two_variants) ≡ 80 ∷ 900 ∷ []
unfolding parse_hls_playlist_variants lines_of split_lines strip master_variants starts_with
    bandwidth_of resolution_of after digits sort_variants insert_variant
sorts = refl
