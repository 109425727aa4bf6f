-- ===== src/Media/Tests.antt =====
-- A `media_engine` payload with two video codecs and one audio codec.
use flutter_pion_bridge.Prelude.{
  pos, ◌≡◌, ◌≢◌, refl, true, none, some, ◌++◌, List, [], ◌∷◌, All, elem, String,
}
use flutter_pion_bridge.Types.{str, arr, nil, cons, Fields, field, end, at}
use flutter_pion_bridge.Convert.{Floats, to_int}
use flutter_pion_bridge.Result.{ok}
use flutter_pion_bridge.Media.{
  MediaPion, Codec, video_codec_def, opus_names, string_list, nack_interval, build_media_engine,
  main_codec, rtx_codec, opus_codec, av1, vp8, add_video, add_audio, add_codec, strings, spellings,
  prefixed,
}
use flutter_pion_bridge.Media.Codecs.{video_codecs, audio_codecs, build_media_engine_ok}

abbrev floats : Floats
floats = record {
  f32_int64 = λ x. pos 0;
  f64_int64 = λ x. pos 0;
  f32_uint64 = λ x. 0;
  f64_uint64 = λ x. 0;
  f32_uint16 = λ x. 0;
  f64_uint16 = λ x. 0;
}

abbrev media_pion : MediaPion
media_pion = record { register_codec = λ m c. none; register_interceptors = λ m period. none }

abbrev payload : Fields
payload =
    field "audio_codecs" (arr (cons (str "OPUS") nil))
      (field "video_codecs" (arr (cons (str "av1") (cons (str "VP8") nil))) end)

abbrev engine : List Codec
engine = main_codec av1 ∷ rtx_codec av1 ∷ main_codec vp8 ∷ rtx_codec vp8 ∷ opus_codec ∷ []

built : build_media_engine floats media_pion payload ≡ ok (engine, none)
unfolding build_media_engine at string_list strings add_video add_audio add_codec nack_interval
    to_int video_codec_def elem spellings prefixed
built = refl

build_media_engine_ok_example :
    (names : List String) × (voices : List String) × (string_list (at payload "video_codecs")
      ≡ some names)
    × (string_list (at payload "audio_codecs") ≡ some voices)
    × All (λ name. video_codec_def name ≢ none) names
    × All (λ name. elem name opus_names ≡ true) voices
    × (engine ≡ video_codecs names ++ audio_codecs voices)
    × (nack_interval (to_int floats (at payload "nack_interval_ms")) ≡ ok none)
    × (media_pion.register_interceptors engine none ≡ none)
build_media_engine_ok_example = build_media_engine_ok floats media_pion payload engine none built
