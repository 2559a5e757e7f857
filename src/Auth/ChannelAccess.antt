-- ===== src/Auth/ChannelAccess.antt =====
-- backend/channel_access.py: which channels a user may see and stream. The users and the channels' groups
-- come from the database; a set is a list, of which only membership is read. `none` is no restriction.
pub mod Laws
mod Tests
use headendarr.Prelude.{
  List, [], ◌∷◌, Bool, true, false, not, Option, none, some, ℕ, keep, any_of, if◌then◌else◌,
}
use headendarr.Prelude.Dict.{is_empty}
use headendarr.Prelude.Text.{Text, strip, or_missing, one_of}

pub record User : Type 0 where
  pub is_admin : Bool
  pub allowed_channel_tags : List Text

pub record Channel : Type 0 where
  pub id : ℕ
  pub tags : List Text

-- `{tag.name for tag in tags if tag.name}`
unfoldable pub tag_names : List Text → List Text
tag_names tags = keep (λ name. not (is_empty name)) tags

-- `names or None`
abbrev pub names_or_none : List Text → Option (List Text)
names_or_none [] = none
names_or_none (name ∷ names) = some (name ∷ names)

module _ (users : Text → Option User) where
  unfoldable pub allowed_channel_tag_names_for_username : Option Text → Option (List Text)
  allowed_channel_tag_names_for_username username =
      let name = strip (or_missing username []) in
      if is_empty name then none else elim (users name) [
        | none ↦ none
        | some user ↦
            if user.is_admin then none else names_or_none (tag_names user.allowed_channel_tags)
      ]

unfoldable pub channel_allowed : Channel → Option (List Text) → Bool
channel_allowed channel none = true
channel_allowed channel (some allowed) = any_of (one_of allowed) channel.tags

unfoldable pub filter_channels_for_access : List Channel → Option (List Text) → List Channel
filter_channels_for_access channels none = channels
filter_channels_for_access channels (some allowed) =
    keep (λ c. channel_allowed c (some allowed)) channels

module _ (tags_of : ℕ → Option (List Text)) where
  -- The end of `channel_id_allowed_for_username`; an id that is no number is `none`.
  unfoldable pub id_allowed : Option ℕ → Option (List Text) → Bool
  id_allowed id none = true
  id_allowed none (some allowed) = false
  id_allowed (some id) (some allowed) = elim (tags_of id) [
    | none ↦ false
    | some tags ↦ any_of (one_of allowed) (tag_names tags)
  ]

module _ (users : Text → Option User) (tags_of : ℕ → Option (List Text)) where
  unfoldable pub channel_id_allowed_for_username : Option ℕ → Option Text → Bool
  channel_id_allowed_for_username channel_id username =
      id_allowed tags_of channel_id (allowed_channel_tag_names_for_username users username)
