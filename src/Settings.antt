-- ===== src/Settings.antt =====
-- go/internal/pionserver/settings_engine.go: what a `settings_engine` payload sets. A setting engine is
-- the list of the calls made on it. Two of them can fail, which is an argument.
mod Together
mod Tests
use flutter_pion_bridge.Prelude.{
  ℕ, ℤ, ◌*◌, String, ◌==◌, Bool, true, false, Option, none, some, List, [], ◌∷◌, ◌++◌,
  if◌then◌else◌,
}
use flutter_pion_bridge.Types.{
  Value, Values, nil, cons, str, Fields, at, as_bool, as_string, as_list,
}
use flutter_pion_bridge.Convert.{Floats, to_bits, from_bits, to_int}
use flutter_pion_bridge.Result.{Result, failed, ok, ◌then◌, checked}

pub data Setting : Type 0 where
  disable_active_tcp disable_certificate_fingerprint_verification disable_close_by_dtls :
      Bool → Setting
  disable_srtcp_replay_protection disable_srtp_replay_protection : Bool → Setting
  enable_data_channel_block_write enable_sctp_zero_checksum : Bool → Setting
  include_loopback_candidate : Bool → Setting
  detach_data_channels : Setting
  sctp_max_receive_buffer_size sctp_max_message_size sctp_min_cwnd sctp_cwnd_ca_step : ℕ → Setting
  receive_mtu ice_max_binding_requests dtls_replay_protection_window : ℕ → Setting
  srtcp_replay_protection_window srtp_replay_protection_window : ℕ → Setting
  ephemeral_udp_port_range : ℕ → ℕ → Setting
  ice_timeouts : ℤ → ℤ → ℤ → Setting
  host_acceptance_min_wait srflx_acceptance_min_wait prflx_acceptance_min_wait : ℤ → Setting
  relay_acceptance_min_wait dtls_retransmission_interval sctp_rto_max stun_gather_timeout :
      ℤ → Setting
  ice_renomination : Option ℤ → Setting
  multicast_dns_host_name : String → Setting
  interface_filter : List String → Setting

-- The errors, before `fmt.Errorf` writes them.
pub data SettingsError : Type 0 where
  invalid_port_range : ℤ → ℤ → String → SettingsError
  ports_not_together timeouts_not_together : SettingsError
  invalid_renomination : String → SettingsError
  whitelist_not_strings : Value → SettingsError

-- What `SetEphemeralUDPPortRange` and `SetICERenomination` return on an engine with these calls made.
pub record Engine : Type 0 where
  pub port_range_error : List Setting → ℕ → ℕ → Option String
  pub renomination_error : List Setting → Option ℤ → Option String

-- `time.Duration(v) * time.Millisecond`, in 64 bits.
unfoldable pub millis : ℤ → ℤ
millis v = from_bits 64 (to_bits 64 v * 1000000)

unfoldable pub flag : Fields → String → (Bool → Setting) → List Setting → List Setting
flag cfg key set se = elim (as_bool (at cfg key)) [ none ↦ se | some v ↦ se ++ set v ∷ [] ]

unfoldable pub number : Floats → Fields → String → (ℤ → Setting) → List Setting → List Setting
number fl cfg key set se = elim (to_int fl (at cfg key)) [ none ↦ se | some v ↦ se ++ set v ∷ [] ]

unfoldable pub set_detach : Option Bool → List Setting → List Setting
set_detach (some true) se = se ++ detach_data_channels ∷ []
set_detach _ se = se

unfoldable pub set_booleans : Fields → List Setting → List Setting
unfolding flag set_detach
set_booleans cfg se =
    let se = flag cfg "disable_active_tcp" disable_active_tcp se in
    let se =
      flag cfg "disable_certificate_fingerprint_verification"
        disable_certificate_fingerprint_verification se in
    let se = flag cfg "disable_close_by_dtls" disable_close_by_dtls se in
    let se = flag cfg "disable_srtcp_replay_protection" disable_srtcp_replay_protection se in
    let se = flag cfg "disable_srtp_replay_protection" disable_srtp_replay_protection se in
    let se = set_detach (as_bool (at cfg "detach_data_channels")) se in
    let se = flag cfg "enable_data_channel_block_write" enable_data_channel_block_write se in
    flag cfg "enable_sctp_zero_checksum" enable_sctp_zero_checksum se

unfoldable pub set_numbers : Floats → Fields → List Setting → List Setting
set_numbers fl cfg se =
    let se =
      number fl cfg "sctp_max_receive_buffer_size"
        (λ v. sctp_max_receive_buffer_size (to_bits 32 v)) se in
    let se = number fl cfg "sctp_max_message_size" (λ v. sctp_max_message_size (to_bits 32 v)) se in
    let se = number fl cfg "sctp_min_cwnd" (λ v. sctp_min_cwnd (to_bits 32 v)) se in
    let se = number fl cfg "sctp_cwnd_ca_step" (λ v. sctp_cwnd_ca_step (to_bits 32 v)) se in
    let se = number fl cfg "receive_mtu" (λ v. receive_mtu (to_bits 64 v)) se in
    let se =
      number fl cfg "ice_max_binding_requests" (λ v. ice_max_binding_requests (to_bits 16 v)) se in
    let se =
      number fl cfg "dtls_replay_protection_window"
        (λ v. dtls_replay_protection_window (to_bits 64 v)) se in
    let se =
      number fl cfg "srtcp_replay_protection_window"
        (λ v. srtcp_replay_protection_window (to_bits 64 v)) se in
    number fl cfg "srtp_replay_protection_window"
      (λ v. srtp_replay_protection_window (to_bits 64 v)) se

unfoldable pub set_ports :
    Engine → Option ℤ → Option ℤ → List Setting → Result SettingsError (List Setting)
set_ports en (some lo) (some hi) se =
    checked (invalid_port_range lo hi) (en.port_range_error se (to_bits 16 lo) (to_bits 16 hi))
      (se ++ ephemeral_udp_port_range (to_bits 16 lo) (to_bits 16 hi) ∷ [])
set_ports en none none se = ok se
set_ports en _ _ se = failed ports_not_together

unfoldable pub set_timeouts :
    Option ℤ → Option ℤ → Option ℤ → List Setting → Result SettingsError (List Setting)
set_timeouts (some disc) (some fail) (some keep) se =
    ok (se ++ ice_timeouts (millis disc) (millis fail) (millis keep) ∷ [])
set_timeouts none none none se = ok se
set_timeouts _ _ _ se = failed timeouts_not_together

unfoldable pub set_waits : Floats → Fields → List Setting → List Setting
set_waits fl cfg se =
    let se =
      number fl cfg "host_acceptance_min_wait_ms" (λ v. host_acceptance_min_wait (millis v)) se in
    let se =
      number fl cfg "srflx_acceptance_min_wait_ms" (λ v. srflx_acceptance_min_wait (millis v)) se in
    let se =
      number fl cfg "prflx_acceptance_min_wait_ms" (λ v. prflx_acceptance_min_wait (millis v)) se in
    number fl cfg "relay_acceptance_min_wait_ms" (λ v. relay_acceptance_min_wait (millis v)) se

abbrev pub interval : Option ℤ → Option ℤ
interval none = none
interval (some ms) = some (millis ms)

unfoldable pub set_renomination :
    Engine → Option Bool → Option ℤ → List Setting → Result SettingsError (List Setting)
set_renomination en (some true) ms se =
    checked invalid_renomination (en.renomination_error se (interval ms))
      (se ++ ice_renomination (interval ms) ∷ [])
set_renomination en _ ms se = ok se

unfoldable pub set_intervals : Floats → Fields → List Setting → List Setting
set_intervals fl cfg se =
    let se =
      number fl cfg "dtls_retransmission_interval_ms" (λ v. dtls_retransmission_interval (millis v))
        se in
    let se = number fl cfg "sctp_rto_max_ms" (λ v. sctp_rto_max (millis v)) se in
    number fl cfg "stun_gather_timeout_ms" (λ v. stun_gather_timeout (millis v)) se

unfoldable pub set_host_name : Option String → List Setting → List Setting
set_host_name none se = se
set_host_name (some v) se = if v == "" then se else se ++ multicast_dns_host_name v ∷ []

-- The names of a whitelist; `allowed` is the set of them.
unfoldable pub whitelist : Values → Result SettingsError (List String)
whitelist nil = ok []
whitelist (cons (str name) vs) = whitelist vs then λ names. ok (name ∷ names)
whitelist (cons v vs) = failed (whitelist_not_strings v)

unfoldable pub set_whitelist : Option Values → List Setting → Result SettingsError (List Setting)
set_whitelist none se = ok se
set_whitelist (some vs) se = whitelist vs then λ names. ok (se ++ interface_filter names ∷ [])

-- The calls made on a zero engine, or the first error.
unfoldable pub apply_settings_engine :
    Floats → Engine → Fields → Result SettingsError (List Setting)
apply_settings_engine fl en cfg =
    let int_of = λ (key : String). to_int fl (at cfg key) in
    set_ports en (int_of "ephemeral_udp_port_min") (int_of "ephemeral_udp_port_max")
      (set_numbers fl cfg (set_booleans cfg []))
    then λ se.
        set_timeouts (int_of "ice_disconnected_timeout_ms") (int_of "ice_failed_timeout_ms")
          (int_of "ice_keepalive_ms") se
        then λ se.
            set_renomination en (as_bool (at cfg "ice_renomination"))
              (int_of "ice_renomination_interval_ms") (set_waits fl cfg se)
            then λ se. set_whitelist (as_list (at cfg "interface_whitelist")) (
                flag cfg "include_loopback_candidate" include_loopback_candidate (
                  set_host_name (as_string (at cfg "multicast_dns_host_name"))
                    (set_intervals fl cfg se)))
