-- ===== src/Hosts.antt =====
-- backend/xc_hosts.py: the hosts of an account, given as JSON, as lines or as one. `urlparse` and what
-- `json.loads` finds are parameters: the scheme and the host of a URL, and the items of the list, none
-- if the text is not JSON or has no list.
pub mod Listed
mod Tests
use headendarr.Prelude.{
  ℕ, List, [], ◌∷◌, ◌++◌, Bool, true, false, not, ◌&&◌, ◌||◌, Option, none, some, ◌==◌,
  if◌then◌else◌,
}
use headendarr.Prelude.Dict.{is_empty}
use headendarr.Prelude.Text.{Text, codes, strip, one_of, or_missing, contains}
use headendarr.Cso.Playlist.{split_lines}

pub record HostItem : Type 0 where
  pub enabled : Bool
  pub url : Option Text

-- `.rstrip("/")`
unfoldable pub rstrip_slash : Text → Text
rstrip_slash [] = []
rstrip_slash (c ∷ s) =
    let rest = rstrip_slash s in if is_empty rest && c == b'/' then [] else c ∷ rest

-- `if host and host not in hosts: hosts.append(host)`
unfoldable pub add_host : List Text → Text → List Text
add_host hosts host = if is_empty host || one_of hosts host then hosts else hosts ++ host ∷ []

module _ (urlparse : Text → Text × Text) where
  unfoldable pub clean_value : Text → Text
  clean_value value =
      let parsed = urlparse value in
      let scheme = strip parsed.0 in
      let netloc = strip parsed.1 in
      if contains (codes "://") value && not (is_empty scheme) && not (is_empty netloc)
      then scheme ++ codes "://" ++ netloc
      else value

  unfoldable pub clean_xc_host : Option Text → Text
  clean_xc_host host_url =
      let value = rstrip_slash (strip (or_missing host_url [])) in
      if is_empty value then [] else clean_value value

  unfoldable pub hosts_of_items : List HostItem → List Text → List Text
  hosts_of_items [] hosts = hosts
  hosts_of_items (item ∷ items) hosts =
      hosts_of_items items (if item.enabled then add_host hosts (clean_xc_host item.url) else hosts)

  unfoldable pub hosts_of_lines : List Text → List Text → List Text
  hosts_of_lines [] hosts = hosts
  hosts_of_lines (line ∷ lines) hosts =
      hosts_of_lines lines (add_host hosts (clean_xc_host (some line)))

module _ (urlparse : Text → Text × Text) (loads : Text → List HostItem) where
  unfoldable pub parse_xc_hosts : Option Text → List Text
  parse_xc_hosts raw_value =
      let raw = strip (or_missing raw_value []) in
      let listed = hosts_of_items urlparse (loads raw) [] in
      let lines = split_lines raw in
      let parsed = hosts_of_lines urlparse (lines.0 ∷ lines.1) [] in
      let single = add_host [] (clean_xc_host urlparse (some raw)) in
      if is_empty raw
      then []
      else if not (is_empty listed)
      then listed
      else if not (is_empty parsed)
      then parsed
      else single

  unfoldable pub first_xc_host : Option Text → Text
  first_xc_host raw_value = elim (parse_xc_hosts raw_value) [ [] ↦ [] | host ∷ _ ↦ host ]
