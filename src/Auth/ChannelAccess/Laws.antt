-- ===== src/Auth/ChannelAccess/Laws.antt =====
-- The list of a user's channels beside the test of a stream request.
use headendarr.Prelude.{
  ◌≡◌, refl, sym, ap, List, [], ◌∷◌, false, Option, none, some, ℕ, keep, any_of, All, if-Holds,
  elim-Holds, arith,
}
use headendarr.Prelude.Dict.{is_empty, Holds}
use headendarr.Prelude.Text.{Text, strip, or_missing, one_of}
use headendarr.Auth.ChannelAccess.{
  User, Channel, tag_names, names_or_none, allowed_channel_tag_names_for_username, channel_allowed,
  filter_channels_for_access, id_allowed, channel_id_allowed_for_username,
}

-- No group without a name is allowed.
abbrev Named : List Text → Type 0
Named allowed = one_of allowed [] ≡ false

tag_names-Named : (tags : List Text) → Named (tag_names tags)
unfolding tag_names one_of
tag_names-Named [] = refl
tag_names-Named ([] ∷ tags) = tag_names-Named tags
tag_names-Named ((c ∷ name) ∷ tags) = ground (arith, tag_names-Named tags)

names_or_none-Named : (names : List Text) → Named names → Holds Named (names_or_none names)
names_or_none-Named [] h = tt
names_or_none-Named (name ∷ names) h = h

any_of-tag_names :
    (allowed tags : List Text)
    → Named allowed
    → any_of (one_of allowed) (tag_names tags) ≡ any_of (one_of allowed) tags
unfolding tag_names
any_of-tag_names allowed [] h = refl
any_of-tag_names allowed ([] ∷ tags) h = ground (arith, any_of-tag_names allowed tags h)
any_of-tag_names allowed ((c ∷ name) ∷ tags) h = ground (arith, any_of-tag_names allowed tags h)

module _ (users : Text → Option User) (tags_of : ℕ → Option (List Text)) where
  allowed-Named :
      (username : Option Text) → Holds Named (allowed_channel_tag_names_for_username users username)
  unfolding allowed_channel_tag_names_for_username
  allowed-Named username =
      let P : Option (List Text) → Type 0 = Holds Named in
      if-Holds P (is_empty (strip (or_missing username []))) _ _ (λ _. tt)
        (λ _.
          elim-Holds P (users (strip (or_missing username []))) none _ (λ _. tt)
            (λ user _.
              if-Holds P user.is_admin _ _ (λ _. tt)
                (λ _. names_or_none-Named _ (tag_names-Named user.allowed_channel_tags))))

  unrestricted :
      (channels : List Channel)
      → keep (λ c. id_allowed tags_of (some c.id) none) channels ≡ channels
  unfolding id_allowed
  unrestricted [] = refl
  unrestricted (c ∷ channels) = ap (λ l. c ∷ l) (unrestricted channels)

  id_allowed-channel_allowed :
      (allowed : List Text) (c : Channel)
      → Named allowed
      → tags_of c.id ≡ some c.tags
      → id_allowed tags_of (some c.id) (some allowed) ≡ channel_allowed c (some allowed)
  unfolding id_allowed channel_allowed
  id_allowed-channel_allowed allowed c n h = rw (id_allowed, h) (any_of-tag_names allowed c.tags n)

  keep-id_allowed :
      (allowed : Option (List Text)) (channels : List Channel)
      → Holds Named allowed
      → All (λ c. tags_of c.id ≡ some c.tags) channels
      → keep (λ c. id_allowed tags_of (some c.id) allowed) channels
        ≡ filter_channels_for_access channels allowed
  unfolding filter_channels_for_access
  keep-id_allowed none channels n h = unrestricted channels
  keep-id_allowed (some allowed) [] n h = refl
  keep-id_allowed (some allowed) (c ∷ channels) n h =
      rw (id_allowed-channel_allowed allowed c n h.0, keep-id_allowed (some allowed) channels n h.1)

  -- The channels that a user is listed are exactly those that the user may stream, for any user,
  -- known or not, where the database has the groups that the list has for each channel.
  pub filter_channels-channel_id_allowed :
      (username : Option Text) (channels : List Channel)
      → All (λ c. tags_of c.id ≡ some c.tags) channels
      → filter_channels_for_access channels (allowed_channel_tag_names_for_username users username)
        ≡ keep (λ c. channel_id_allowed_for_username users tags_of (some c.id) username) channels
  unfolding channel_id_allowed_for_username
  filter_channels-channel_id_allowed username channels h = sym (
      keep-id_allowed (allowed_channel_tag_names_for_username users username) channels
        (allowed-Named username) h)
