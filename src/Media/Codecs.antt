-- ===== src/Media/Codecs.antt =====
-- Which codecs `buildMediaEngine` of media_engine.go registers, and in which order.
use mathlib.Core.List.{append_assoc, append-nil}
use flutter_pion_bridge.Prelude.{
  ℤ, ◌≡◌, ◌≢◌, sym, String, Option, none, some, List, [], ◌∷◌, ◌++◌, elem, Bool-cases, true,
  Option-cases, All, inl, inr, arith, if◌then◌else◌,
}
use flutter_pion_bridge.Types.{Fields, at}
use flutter_pion_bridge.Convert.{Floats, to_int}
use flutter_pion_bridge.Result.{ok, ◌then◌, then_ok, checked_ok}
use flutter_pion_bridge.Media.{
  Codec, MediaPion, VideoDef, video_codec_def, main_codec, rtx_codec, opus_codec, opus_names,
  string_list, named, add_codec, add_video, add_audio, nack_interval, build_media_engine, refused,
}

-- A video codec is followed by its retransmission companion.
abbrev pair : Option VideoDef → List Codec
pair none = []
pair (some def) = main_codec def ∷ rtx_codec def ∷ []

unfoldable pub video_codecs : List String → List Codec
video_codecs [] = []
video_codecs (name ∷ names) = pair (video_codec_def name) ++ video_codecs names

unfoldable pub audio_codecs : List String → List Codec
audio_codecs [] = []
audio_codecs (name ∷ names) = opus_codec ∷ audio_codecs names

add_codec_ok :
    (pion : MediaPion) (c : Codec) (m m' : List Codec)
    → add_codec pion c m ≡ ok m'
    → m' ≡ m ++ c ∷ []
unfolding add_codec
add_codec_ok pion c m m' h = sym (checked_ok refused (pion.register_codec m c) (m ++ c ∷ []) m' h).1

add_video_ok :
    (pion : MediaPion) (names : List String) (m m' : List Codec)
    → add_video pion names m ≡ ok m'
    → (m' ≡ m ++ video_codecs names) × All (λ name. video_codec_def name ≢ none) names
unfolding add_video video_codecs
add_video_ok pion [] m m' h = (ground (arith, append-nil m), tt)
add_video_ok pion (name ∷ names) m m' h = elim (Option-cases (video_codec_def name)) [
  | inl q ↦ absurd (ground arith)
  | inr (def, q) ↦
      let both =
        then_ok (add_codec pion (main_codec def) m then add_codec pion (rtx_codec def))
          (add_video pion names) m' (ground (arith, q)) in
      let first =
        then_ok (add_codec pion (main_codec def) m) (add_codec pion (rtx_codec def)) both.0
          both.1 in
      let rest = add_video_ok pion names both.0 m' both.2 in
      (
        ground (
          arith,
          rest.0,
          add_codec_ok pion (main_codec def) m first.0 first.1,
          add_codec_ok pion (rtx_codec def) first.0 both.0 first.2,
          append_assoc m (main_codec def ∷ []) (rtx_codec def ∷ []),
          append_assoc m (pair (some def)) (video_codecs names),
        ),
        (ground (arith, q), rest.1),
      )
]

add_audio_ok :
    (pion : MediaPion) (names : List String) (m m' : List Codec)
    → add_audio pion names m ≡ ok m'
    → (m' ≡ m ++ audio_codecs names) × All (λ name. elem name opus_names ≡ true) names
unfolding add_audio audio_codecs
add_audio_ok pion [] m m' h = (ground (arith, append-nil m), tt)
add_audio_ok pion (name ∷ names) m m' h = elim (Bool-cases (elem name opus_names)) [
  | inl q ↦
      let first =
        then_ok (add_codec pion opus_codec m) (add_audio pion names) m' (ground (arith, q)) in
      let rest = add_audio_ok pion names first.0 m' first.2 in
      (
        ground (
          arith,
          rest.0,
          add_codec_ok pion opus_codec m first.0 first.1,
          append_assoc m (opus_codec ∷ []) (audio_codecs names),
        ),
        (q, rest.1),
      )
  | inr q ↦ absurd (ground arith)
]

named_ok :
    (key : String) (o : Option (List String)) (names : List String)
    → named key o ≡ ok names
    → o ≡ some names
named_ok key none names h = absurd (ground arith)
named_ok key (some l) names h = ground arith

-- A media engine is built only from a list of known video names and a list of `opus`, and has exactly
-- their codecs, in the order of the names: each video codec followed by its retransmission codec, the
-- audio codecs last. pion accepts its interceptors with the NACK period that the payload gives.
pub build_media_engine_ok :
    (fl : Floats) (pion : MediaPion) (cfg : Fields) (m : List Codec) (period : Option ℤ)
    → build_media_engine fl pion cfg ≡ ok (m, period)
    → (names : List String) × (voices : List String) × (string_list (at cfg "video_codecs")
        ≡ some names)
      × (string_list (at cfg "audio_codecs") ≡ some voices)
      × All (λ name. video_codec_def name ≢ none) names
      × All (λ name. elem name opus_names ≡ true) voices
      × (m ≡ video_codecs names ++ audio_codecs voices)
      × (nack_interval (to_int fl (at cfg "nack_interval_ms")) ≡ ok period)
      × (pion.register_interceptors m period ≡ none)
unfolding build_media_engine
build_media_engine_ok fl pion cfg m period h =
    let videos = string_list (at cfg "video_codecs") in
    let audios = string_list (at cfg "audio_codecs") in
    let s1 = then_ok (named "video_codecs" videos) _ (m, period) h in
    let s2 = then_ok (add_video pion s1.0 []) _ (m, period) s1.2 in
    let s3 = then_ok (named "audio_codecs" audios) _ (m, period) s2.2 in
    let s4 = then_ok (add_audio pion s3.0 s2.0) _ (m, period) s3.2 in
    let s5 = then_ok (nack_interval (to_int fl (at cfg "nack_interval_ms"))) _ (m, period) s4.2 in
    let s6 =
      checked_ok refused (pion.register_interceptors s4.0 s5.0) (s4.0, s5.0) (m, period) s5.2 in
    let v = add_video_ok pion s1.0 [] s2.0 s2.1 in
    let a = add_audio_ok pion s3.0 s2.0 s4.0 s4.1 in
    (
      s1.0,
      s3.0,
      named_ok "video_codecs" videos s1.0 s1.1,
      named_ok "audio_codecs" audios s3.0 s3.1,
      v.1,
      a.1,
      ground (arith, s6.1, v.0, a.0),
      ground (arith, s6.1, s5.1),
      ground (arith, s6.1, s6.0),
    )
