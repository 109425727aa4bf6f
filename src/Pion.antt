-- ===== src/Pion.antt =====
-- What the program uses of pion, a parameter of the handler. `S` is pion's state, `Api` its
-- `webrtc.API`; PeerConnections and DataChannels are identities. Constants of pion are constructors.
use flutter_pion_bridge.Prelude.{ℕ, ℤ, String, Bool, Option, List}
use flutter_pion_bridge.Settings.{Setting}
use flutter_pion_bridge.Media.{Codec}
use flutter_pion_bridge.Registry.{Resource}
use flutter_pion_bridge.Result.{Result}

pub record IceServer : Type 0 where
  pub urls : List String
  pub username : String
  pub credential : Option String

pub data BundlePolicy : Type 0 where
  bundle_policy_unset bundle_policy_balanced bundle_policy_max_compat : BundlePolicy
  bundle_policy_max_bundle : BundlePolicy

pub data RtcpMuxPolicy : Type 0 where
  rtcp_mux_policy_unset rtcp_mux_policy_negotiate rtcp_mux_policy_require : RtcpMuxPolicy

-- The zero value is `all`.
pub data IceTransportPolicy : Type 0 where
  ice_transport_policy_all ice_transport_policy_relay : IceTransportPolicy

pub record Configuration : Type 0 where
  pub ice_servers : List IceServer
  pub bundle_policy : BundlePolicy
  pub rtcp_mux_policy : RtcpMuxPolicy
  pub ice_transport_policy : IceTransportPolicy

pub data SdpType : Type 0 where
  sdp_type_offer sdp_type_pranswer sdp_type_answer sdp_type_rollback : SdpType

pub record SessionDescription : Type 0 where
  pub sdp : String
  pub type : SdpType

pub record IceCandidateInit : Type 0 where
  pub candidate : String
  pub sdp_mid : Option String
  pub sdp_mline_index : Option ℕ

pub record DataChannelInit : Type 0 where
  pub ordered : Option Bool
  pub max_retransmits : Option ℕ
  pub max_packet_life_time : Option ℕ

pub record Pion (S Api : Type 0) : Type 0 where
  pub new_api : List Setting → Option (List Codec × Option ℤ) → Api
  pub new_peer_connection : Api → Configuration → S → Result String ℕ × S
  pub create_offer : ℕ → S → Result String String × S
  pub create_answer : ℕ → S → Result String String × S
  pub set_local_description : ℕ → SessionDescription → S → Option String × S
  pub set_remote_description : ℕ → SessionDescription → S → Option String × S
  pub signaling_state : ℕ → S → String
  pub add_ice_candidate : ℕ → IceCandidateInit → S → Option String × S
  pub create_data_channel : ℕ → String → DataChannelInit → S → Result String ℕ × S
  pub label : ℕ → S → String
  pub ordered : ℕ → S → Bool
  pub set_buffered_amount_low_threshold : ℕ → ℕ → S → S
  pub close : Resource → S → Option String × S
  -- Numbers stand for the kinds and directions; zero is the unknown one.
  pub new_rtp_codec_type : String → ℕ
  pub new_rtp_transceiver_direction : String → ℕ
  pub add_transceiver_from_kind : ℕ → ℕ → ℕ → S → Option String × S
  pub transceivers : ℕ → S → ℕ
