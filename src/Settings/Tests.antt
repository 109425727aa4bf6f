-- ===== src/Settings/Tests.antt =====
-- Settings payloads of the tests of settings_engine.go.
use flutter_pion_bridge.Prelude.{
  some, false, ltb, if◌then◌else◌, Bool-cases, inl, inr, pos, ◌≡◌, refl, true, none, ◌&&◌, String,
}
use flutter_pion_bridge.Types.{
  int, str, bool, arr, nil, cons, Fields, field, end, at, as_list, as_bool,
}
use flutter_pion_bridge.Convert.{Floats, to_int}
use flutter_pion_bridge.Result.{is_ok}
use flutter_pion_bridge.Settings.{Engine, apply_settings_engine}
use flutter_pion_bridge.Settings.Together.{
  IsPlain, ports_fit, renomination_fits, given, all_three, names_only, is_ok-apply_settings_engine,
}

abbrev floats : Floats
floats = record {
  f32_int64 = λ x. pos 0;
  f64_int64 = λ x. pos 0;
  f32_uint64 = λ x. 0;
  f64_uint64 = λ x. 0;
  f32_uint16 = λ x. 0;
  f64_uint16 = λ x. 0;
}

-- It refuses an empty port range.
abbrev engine : Engine
engine = record {
  port_range_error = λ se lo hi. if ltb hi lo then some "port range" else none;
  renomination_error = λ se ms. none;
}

abbrev engine-IsPlain : IsPlain engine
engine-IsPlain = record {
  ports = λ se lo hi. elim (Bool-cases (ltb hi lo)) [ inl e ↦ rw e refl | inr e ↦ rw e refl ];
  refuses = λ ms. false;
  renomination = λ se ms. refl;
}

abbrev payload : Fields
payload = field "ephemeral_udp_port_min" (int (pos 5000)) (
    field "detach_data_channels" (bool true) (
      field "ephemeral_udp_port_max" (int (pos 6000))
        (field "interface_whitelist" (arr (cons (str "lo") nil)) end)))

is_ok-apply_settings_engine_example :
    let num = λ (key : String). to_int floats (at payload key) in
    is_ok (apply_settings_engine floats engine payload) ≡ (
      ports_fit (num "ephemeral_udp_port_min") (num "ephemeral_udp_port_max")
      && (all_three
            (given (num "ice_disconnected_timeout_ms"))
            (given (num "ice_failed_timeout_ms"))
            (given (num "ice_keepalive_ms"))
          && (renomination_fits
                (λ ms. false)
                (as_bool (at payload "ice_renomination"))
                (num "ice_renomination_interval_ms")
              && names_only (as_list (at payload "interface_whitelist")))))
is_ok-apply_settings_engine_example =
    is_ok-apply_settings_engine floats engine payload engine-IsPlain
