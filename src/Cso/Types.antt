-- ===== src/Cso/Types.antt =====
-- backend/cso/types.py, `CsoSource`: the adapter of a source. An id that is missing is 0, which the code
-- treats alike. Of a playlist and an account, the fields that are read. `last_health_check_status` is
-- read from rows of the database; the adapter does not copy it.
use headendarr.Prelude.{Bool, Option, ℕ}
use headendarr.Prelude.Text.{Text}

pub record PlaylistInfo : Type 0 where
  pub enabled : Bool
  pub connections : ℕ
  pub hls_proxy_use_ffmpeg : Bool

pub record XcAccountInfo : Type 0 where
  pub enabled : Bool
  pub connection_limit : ℕ

pub record CsoSource : Type 0 where
  pub id : ℕ
  pub source_type : Text
  pub url : Text
  pub playlist_id : ℕ
  pub playlist : Option PlaylistInfo
  pub xc_account_id : ℕ
  pub xc_account : Option XcAccountInfo
  pub priority : ℕ
  pub channel_id : Option ℕ
  pub use_hls_proxy : Bool
  pub container_extension : Option Text
  pub last_health_check_status : Option Text
