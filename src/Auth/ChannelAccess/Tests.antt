-- ===== src/Auth/ChannelAccess/Tests.antt =====
-- A user with one group and two channels.
use headendarr.Prelude.{◌≡◌, refl, List, [], ◌∷◌, false, Option, some, ℕ, keep, ◌==◌, if◌then◌else◌}
use headendarr.Prelude.Text.{Text, codes}
use headendarr.Auth.ChannelAccess.{
  User, Channel, filter_channels_for_access, allowed_channel_tag_names_for_username,
  channel_id_allowed_for_username,
}
use headendarr.Auth.ChannelAccess.Laws.{filter_channels-channel_id_allowed}

abbrev users : Text → Option User
users name = some record { is_admin = false; allowed_channel_tags = codes "News" ∷ [] }

abbrev news : Channel
news = record { id = 1; tags = codes "News" ∷ codes "HD" ∷ [] }

abbrev sports : Channel
sports = record { id = 2; tags = codes "Sports" ∷ [] }

abbrev tags_of : ℕ → Option (List Text)
tags_of id = if id == 1 then some news.tags else some sports.tags

filter_channels-channel_id_allowed_example :
    filter_channels_for_access
      (news ∷ sports ∷ [])
      (allowed_channel_tag_names_for_username users (some (codes "ann")))
    ≡ keep
        (λ c. channel_id_allowed_for_username users tags_of (some c.id) (some (codes "ann")))
        (news ∷ sports ∷ [])
filter_channels-channel_id_allowed_example =
    filter_channels-channel_id_allowed users tags_of (some (codes "ann")) (news ∷ sports ∷ [])
      (refl, (refl, tt))
