-- ===== src/Hosts/Listed.antt =====
-- Which hosts come out.
use headendarr.Prelude.{
  ◌≡◌, List, [], ◌∷◌, ◌++◌, false, not, ◌||◌, Option, some, All, All-append, arith, if◌then◌else◌,
  if-Holds,
}
use headendarr.Prelude.Dict.{is_empty}
use headendarr.Prelude.Text.{Text, strip, one_of, or_missing}
use headendarr.Prelude.Text.OneOf.{one_of-nil, one_of-cons, one_of-append}
use headendarr.Cso.Playlist.{split_lines}
use headendarr.Hosts.{
  HostItem, add_host, clean_xc_host, hosts_of_items, hosts_of_lines, parse_xc_hosts,
}

-- Each host stands once.
abbrev pub Once : List Text → Type 0
Once [] = Unit
Once (host ∷ hosts) = (one_of hosts host ≡ false) × Once hosts

-- No host stands twice, and none is empty.
pub record IsListed (hosts : List Text) : Type 0 where
  pub once : Once hosts
  pub full : All (λ host. is_empty host ≡ false) hosts

none-IsListed : IsListed []
none-IsListed = record { once = tt; full = tt }

Once-append :
    (hosts : List Text) (host : Text)
    → one_of hosts host ≡ false
    → Once hosts
    → Once (hosts ++ host ∷ [])
Once-append [] host new o = (one_of-nil host, tt)
Once-append (h ∷ hosts) host new o = (
  ground (
    arith,
    new,
    o.0,
    one_of-cons h hosts host,
    one_of-append hosts (host ∷ []) h,
    one_of-cons host [] h,
    one_of-nil h,
  ),
  Once-append hosts host (ground (arith, new, one_of-cons h hosts host)) o.1,
)

add_host-IsListed :
    (hosts : List Text) (host : Text) → IsListed hosts → IsListed (add_host hosts host)
unfolding add_host
add_host-IsListed hosts host l =
    if-Holds IsListed (is_empty host || one_of hosts host) hosts (hosts ++ host ∷ []) (λ _. l)
      (λ e. record {
        once = Once-append hosts host (ground (arith, e)) l.once;
        full =
            All-append (λ h. is_empty h ≡ false) hosts (host ∷ []) l.full (ground (arith, e), tt);
      })

module _ (urlparse : Text → Text × Text) where
  hosts_of_items-IsListed :
      (items : List HostItem) (hosts : List Text)
      → IsListed hosts
      → IsListed (hosts_of_items urlparse items hosts)
  unfolding hosts_of_items
  hosts_of_items-IsListed [] hosts l = l
  hosts_of_items-IsListed (item ∷ items) hosts l = hosts_of_items-IsListed items _ (
      if-Holds IsListed item.enabled (add_host hosts (clean_xc_host urlparse item.url)) hosts
        (λ _. add_host-IsListed hosts (clean_xc_host urlparse item.url) l) (λ _. l))

  hosts_of_lines-IsListed :
      (lines hosts : List Text) → IsListed hosts → IsListed (hosts_of_lines urlparse lines hosts)
  unfolding hosts_of_lines
  hosts_of_lines-IsListed [] hosts l = l
  hosts_of_lines-IsListed (line ∷ lines) hosts l =
      hosts_of_lines-IsListed lines _
        (add_host-IsListed hosts (clean_xc_host urlparse (some line)) l)

pub parse_xc_hosts-IsListed :
    (urlparse : Text → Text × Text) (loads : Text → List HostItem) (raw_value : Option Text)
    → IsListed (parse_xc_hosts urlparse loads raw_value)
unfolding parse_xc_hosts
parse_xc_hosts-IsListed urlparse loads raw_value =
    let raw = strip (or_missing raw_value []) in
    let lines = split_lines raw in
    let listed = hosts_of_items urlparse (loads raw) [] in
    let parsed = hosts_of_lines urlparse (lines.0 ∷ lines.1) [] in
    let single = add_host [] (clean_xc_host urlparse (some raw)) in
    let later = if not (is_empty parsed) then parsed else single in
    if-Holds IsListed (is_empty raw) [] (if not (is_empty listed) then listed else later)
      (λ _. none-IsListed)
      (λ _.
        if-Holds IsListed (not (is_empty listed)) listed later
          (λ _. hosts_of_items-IsListed urlparse (loads raw) [] none-IsListed)
          (λ _.
            if-Holds IsListed (not (is_empty parsed)) parsed single
              (λ _. hosts_of_lines-IsListed urlparse (lines.0 ∷ lines.1) [] none-IsListed)
              (λ _. add_host-IsListed [] (clean_xc_host urlparse (some raw)) none-IsListed)))
