-- ===== src/Hosts/Tests.antt =====
-- Runs of the host list.
use headendarr.Prelude.{◌≡◌, refl, List, [], ◌∷◌, ◌++◌, some}
use headendarr.Prelude.Text.{Text, codes, strip, one_of, contains, starts_with}
use headendarr.Cso.Playlist.{split_lines}
use headendarr.Hosts.{
  HostItem, rstrip_slash, add_host, clean_value, clean_xc_host, hosts_of_items, hosts_of_lines,
  parse_xc_hosts, first_xc_host,
}

-- Nothing is a URL and nothing is JSON.
abbrev no_url : Text → Text × Text
no_url value = ([], [])

abbrev no_items : Text → List HostItem
no_items text = []

abbrev three_lines : Text
three_lines = codes "a.tv/" ++ 10 ∷ codes " b.tv " ++ 10 ∷ codes "a.tv"

drops_repeats : parse_xc_hosts no_url no_items (some three_lines) ≡ codes "a.tv" ∷ codes "b.tv" ∷ []
unfolding parse_xc_hosts hosts_of_items hosts_of_lines split_lines clean_xc_host clean_value
    rstrip_slash add_host strip one_of contains starts_with
drops_repeats = refl

first_of : first_xc_host no_url no_items (some three_lines) ≡ codes "a.tv"
unfolding first_xc_host parse_xc_hosts hosts_of_items hosts_of_lines split_lines clean_xc_host
    clean_value rstrip_slash add_host strip one_of contains starts_with
first_of = refl
